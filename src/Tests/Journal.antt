-- ===== src/Tests/Journal.antt =====
-- Instances of the theorems on the journal.
use index_core.Base.{codes, ℤ, pos, ◌≤ℤ◌, ◌≡◌, refl, ◌↔◌, ◌⊎◌, some, [], ◌∷◌, select}
use index_core.Kernel.Journal.{
  Event, CursorVector, start_at, resolve_replay_floor, in_apply_order, insert, less,
}
use index_core.Kernel.Journal.Floor.{Precedes, resolve_replay_floor-start_at}
use index_core.Kernel.Journal.Order.{at_place, IsOrdered, in_apply_order-IsOrdered}

abbrev event : ℤ → ℤ → ℤ → Event
event generation place seq = record {
  root_id = codes "root";
  event_seq = seq;
  generation_number = generation;
  intra_generation_seq = place;
}

abbrev early : Event
early = event (pos 1) (pos 2) (pos 7)

abbrev later : Event
later = event (pos 2) (pos 1) (pos 3)

in_order : in_apply_order (later ∷ early ∷ []) ≡ early ∷ later ∷ []
unfolding in_apply_order insert less
in_order = refl

in_apply_order-IsOrdered_example :
    IsOrdered (in_apply_order (later ∷ early ∷ []))
    × ((generation place seq : ℤ)
        → select (at_place generation place seq) (in_apply_order (later ∷ early ∷ []))
          ≡ select (at_place generation place seq) (later ∷ early ∷ []))
in_apply_order-IsOrdered_example = in_apply_order-IsOrdered (later ∷ early ∷ [])

abbrev at_nine : CursorVector
at_nine = λ _. some (pos 9)

resolve_replay_floor-start_at_example :
    (resolve_replay_floor (codes "root") (pos 10) (some at_nine) ≡ start_at (pos 10)) ↔ (
      ((pos 10 ≤ℤ pos 0) × (pos 10 ≡ pos 0))
      ⊎ ((pos 1 ≤ℤ pos 10) × (pos 10 ≡ pos 10) × Precedes (some at_nine) (codes "root") (pos 10)))
resolve_replay_floor-start_at_example =
    resolve_replay_floor-start_at (codes "root") (pos 10) (pos 10) (some at_nine)
