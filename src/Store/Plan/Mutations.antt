-- ===== src/Store/Plan/Mutations.antt =====
-- A decision is journalled exactly if it is said to change the inventory.
use index_core.Base.{◌≡◌, Bool, any}
use index_core.Kernel.Reconcile.Types.{generation_producing, Transition, Result}
use index_core.Kernel.Reconcile.Resolve

abbrev changes : Transition → Bool
changes t = generation_producing t.kind

-- The flag says whether some step changes the inventory.
abbrev Agrees : Result → Type 0
Agrees res = res.mutates_canonical ≡ any changes res.transitions
