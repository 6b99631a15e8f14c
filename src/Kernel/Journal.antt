-- ===== src/Kernel/Journal.antt =====
-- internal/kernel/journal/journal.go: where a replay may start, and the order it applies events in.
pub mod Order
pub mod Floor
use index_core.Base.{
  Str, ℤ, pos, leb_ℤ, ltb_ℤ, eq_ℤ, inc_int64, Bool, true, false, ◌&&◌, ◌||◌, not, Option, none,
  some, List, [], ◌∷◌, if◌then◌else◌,
}

pub record Event : Type 0 where
  pub root_id : Str
  pub event_seq : ℤ
  pub generation_number : ℤ
  pub intra_generation_seq : ℤ

-- A root that the map does not hold has no cursor.
abbrev pub CursorVector : Type 0
CursorVector = Str → Option ℤ

-- `After`: a nil vector, like a missing root, reads as 0.
unfoldable pub last_seen : Option CursorVector → Str → ℤ
last_seen none root_id = pos 0
last_seen (some c) root_id = elim (c root_id) [ none ↦ pos 0 | some n ↦ n ]

pub data ReplayFloor : Type 0 where
  start_at : ℤ → ReplayFloor
  needs_checkpoint : ReplayFloor

-- `ResolveReplayFloor`; the checkpoint is its cursors.
unfoldable pub resolve_replay_floor : Str → ℤ → Option CursorVector → ReplayFloor
resolve_replay_floor root_id requested cp =
    if leb_ℤ requested (pos 0) then start_at (pos 0) else elim cp [
      | none ↦ needs_checkpoint
      | some c ↦ elim (c root_id) [
        | none ↦ needs_checkpoint
        | some last ↦
            if not (eq_ℤ requested (inc_int64 last)) then needs_checkpoint else start_at requested
      ]
    ]

unfoldable pub less : Event → Event → Bool
less a b =
    if not (eq_ℤ a.generation_number b.generation_number)
    then ltb_ℤ a.generation_number b.generation_number
    else if not (eq_ℤ a.intra_generation_seq b.intra_generation_seq)
    then ltb_ℤ a.intra_generation_seq b.intra_generation_seq
    else ltb_ℤ a.event_seq b.event_seq

-- A stable sort, which has one result.
unfoldable pub insert : Event → List Event → List Event
insert x [] = x ∷ []
insert x (y ∷ ys) = let rest = insert x ys in if less y x then y ∷ rest else x ∷ y ∷ ys

unfoldable pub in_apply_order : List Event → List Event
in_apply_order [] = []
in_apply_order (x ∷ xs) = insert x (in_apply_order xs)
