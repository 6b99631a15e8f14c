-- ===== src/Kernel/Journal/Floor.antt =====
-- A replay starts at the origin or right after a checkpoint.
use index_core.Base.{
  Str, ℤ, pos, ◌≤ℤ◌, eq_ℤ_iff, Option-cases, Bool-cases, leb_ℤ, inc_int64, ◌≡◌, ◌↔◌, ◌⊎◌, inl, inr,
  Option, none, some, arith,
}
use index_core.Kernel.Journal.{CursorVector, start_at, resolve_replay_floor}

abbrev pub cursor_of : Option CursorVector → Str → Option ℤ
cursor_of none root_id = none
cursor_of (some c) root_id = c root_id

-- A checkpoint whose cursor for the root comes immediately before the floor.
pub record Precedes (cp : Option CursorVector) (root_id : Str) (floor : ℤ) : Type 0 where
  pub last : ℤ
  pub here : cursor_of cp root_id ≡ some last
  pub next : floor ≡ inc_int64 last

-- A replay is granted exactly the origin for a floor that is not positive, a negative one included, and exactly the requested
-- floor where a checkpoint's cursor for the root comes immediately before it. Any other request is
-- refused: a positive floor is never a full rebuild.
pub resolve_replay_floor-start_at :
    (root_id : Str) (requested floor : ℤ) (cp : Option CursorVector)
    → (resolve_replay_floor root_id requested cp ≡ start_at floor) ↔ (
        ((requested ≤ℤ pos 0) × (floor ≡ pos 0))
        ⊎ ((pos 1 ≤ℤ requested) × (floor ≡ requested) × Precedes cp root_id floor))
unfolding resolve_replay_floor
resolve_replay_floor-start_at root_id requested floor none = (
  λ h. ground (arith, h),
  λ h. elim h [ inl low ↦ ground (arith, low) | inr (high, same, p) ↦ ground (arith, p.here) ],
)
resolve_replay_floor-start_at root_id requested floor (some c) = elim (Option-cases (c root_id)) [
  | inl unknown ↦ (
    λ h. ground (arith, h, unknown),
    λ h. elim h [
      | inl low ↦ ground (arith, low)
      | inr (high, same, p) ↦ ground (arith, p.here, unknown)
    ],
  )
  | inr (last, here) ↦ (
    λ h. elim (Bool-cases (leb_ℤ requested (pos 0))) [
      | inl low ↦ inl (ground (arith, low), ground (arith, h, low))
      | inr high ↦ inr (
        ground (arith, high),
        ground (arith, h, high, here),
        record {
          last = last;
          here = here;
          next = ground (arith, h, high, here, eq_ℤ_iff requested (inc_int64 last));
        },
      )
    ],
    λ h. elim h [
      | inl low ↦ ground (arith, low)
      | inr (high, same, p) ↦
          ground (arith, high, same, here, p.here, p.next, eq_ℤ_iff requested (inc_int64 last))
    ],
  )
]
