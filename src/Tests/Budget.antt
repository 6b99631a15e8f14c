-- ===== src/Tests/Budget.antt =====
-- Instances of the theorems on the source budget: two roots that share a group of endpoints.
use index_core.Base.{Str, codes, ◌+◌, ◌≤◌, ◌≡◌, refl, true, List, [], ◌∷◌, str_eq, arith}
use index_core.SourceBudget.{
  Manager, granted, defaults, register_error, registered, find_slot, put_slot, ensure_slot, due_at,
  cooldown, grant, pass, pass_registered, penalize, acquire, penalizes, succeeds, apply, apply_all,
  succeeded, punish, penalty, doubled, Call,
}
use index_core.SourceBudget.Pacing.{is_postponed, penalize-postpones}
use index_core.SourceBudget.Spacing.{grants-spaced}

abbrev empty : Manager
empty = record { global = 0; roots = []; groups = [] }

abbrev movies : Str
movies = codes "movies"

abbrev music : Str
music = codes "music"

abbrev shared : Str
shared = codes "group:nas"

abbrev once : Manager
once = grant defaults movies shared 5 (registered movies shared empty)

abbrev between : List Call
between = penalizes movies (codes "group:other") 7 9 ∷ succeeds shared 11 ∷ []

abbrev twice : Manager
twice =
    grant defaults music shared 200_000_000
      (registered music shared (apply_all defaults between once))

once-granted : pass defaults movies shared 5 empty ≡ granted once
unfolding pass pass_registered register_error registered find_slot ensure_slot put_slot cooldown
    due_at grant str_eq
once-granted = refl

twice-granted :
    pass defaults music shared 200_000_000 (apply_all defaults between once) ≡ granted twice
unfolding pass pass_registered register_error registered find_slot ensure_slot put_slot cooldown
    due_at grant str_eq apply apply_all succeeded penalize punish penalty doubled
twice-granted = refl

grants-spaced_example :
    (5 + 100_000_000 ≤ 200_000_000)
    × (music ≡ movies → 5 + 100_000_000 ≤ 200_000_000)
    × (shared ≡ shared → 5 + 100_000_000 ≤ 200_000_000)
grants-spaced_example =
    grants-spaced defaults movies shared 5 empty once between music shared 200_000_000 twice
      once-granted twice-granted

penalize-postpones_example :
    is_postponed
      (acquire defaults movies shared (1_000 ∷ []) (penalize defaults movies shared 2_000 10 empty))
    ≡ true
unfolding register_error find_slot
penalize-postpones_example =
    penalize-postpones defaults movies shared 2_000 10 1_000 [] empty (omega arith) refl
      (omega arith)
