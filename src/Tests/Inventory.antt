-- ===== src/Tests/Inventory.antt =====
-- Instances of the theorems on the inventory's rows.
use index_core.Base.{codes, ◌≡◌, refl, List, [], ◌∷◌, ◌++◌}
use index_core.Domain.Enums.{AcceptanceState}
use index_core.Domain.Entities.{CanonicalResource}
use index_core.Kernel.Reconcile.Run.{reconcile}
use index_core.Store.Inventory.{apply_transitions}
use index_core.Store.Inventory.Rows.{
  row_ids, added_ids, removed_count, apply_transitions-ids, apply_reconcile-removed,
}
use index_core.Tests.Data.{policy, kept, gone, library, listing}

abbrev rows : List CanonicalResource
rows = kept.canonical ∷ gone.canonical ∷ []

apply_transitions-ids_example :
    let ts =
      (reconcile library listing AcceptanceState.complete policy 2000 (codes "s3")).transitions in
    row_ids (apply_transitions (codes "root") 2 2001 rows ts) ≡ row_ids rows ++ added_ids ts
apply_transitions-ids_example =
    apply_transitions-ids (codes "root") 2 2001
      (reconcile library listing AcceptanceState.complete policy 2000 (codes "s3")).transitions rows

apply_reconcile-removed_example :
    removed_count (
      apply_transitions
        (codes "root")
        2
        2001
        rows
        (reconcile library listing AcceptanceState.partial policy 2000 (codes "s3")).transitions)
    ≡ removed_count rows
apply_reconcile-removed_example =
    apply_reconcile-removed (codes "root") 2 2001 library listing AcceptanceState.partial policy
      2000 (codes "s3") rows refl
