-- ===== src/Kernel/Reconcile/Paths.antt =====
-- The small helpers at the end of internal/kernel/reconcile/identity.go.
use index_core.Base.{
  Str, ℕ, ◌/◌, ◌==◌, ◌++◌, ◌∷◌, [], ℤ, eq_ℤ, codes, str_eq, trim_slash, sub_time, leb_ℤ, ltb_ℤ, pos,
  Bool, true, false, ◌&&◌, ◌||◌, Option, none, some, if◌then◌else◌,
}
use index_core.Domain.Entities.{SnapshotEntry}
use index_core.Kernel.Reconcile.Types.{Config, PriorResource, deref_str}

unfoldable pub entry_path : SnapshotEntry → Str
unfolding str_eq trim_slash
entry_path e =
    if str_eq e.parent_ref [] || str_eq e.parent_ref (codes "/")
    then b'/' ∷ e.name
    else trim_slash e.parent_ref ++ b'/' ∷ e.name

abbrev pub equal_int64 : Option ℤ → Option ℤ → Bool
equal_int64 (some a) (some b) = eq_ℤ a b
equal_int64 _ _ = false

-- Two instants agree when their microseconds do.
abbrev pub equal_time : Option ℕ → Option ℕ → Bool
equal_time (some a) (some b) = a / 1000 == b / 1000
equal_time _ _ = false

-- A text that is neither nil nor empty.
abbrev pub is_filled : Option Str → Bool
is_filled none = false
is_filled (some []) = false
is_filled (some (x ∷ s)) = true

unfoldable pub entry_hash_comparable : SnapshotEntry → Bool
entry_hash_comparable e = is_filled e.content_hash && is_filled e.hash_algorithm

unfoldable pub hash_agrees : Option Str → Option Str → Option Str → Option Str → Bool
unfolding str_eq
hash_agrees a b a_alg b_alg =
    is_filled a
    && is_filled b
    && str_eq (deref_str a) (deref_str b)
    && str_eq (deref_str a_alg) (deref_str b_alg)

unfoldable pub within_move_horizon : PriorResource → Config → ℕ → Bool
within_move_horizon p cfg now = elim p.missing_since [
  | none ↦ false
  | some since ↦
      ltb_ℤ (pos 0) cfg.move_recognition_horizon
      && leb_ℤ (sub_time now since) cfg.move_recognition_horizon
]

-- The key of an index over two texts: they are joined by a NUL byte.
abbrev pub key_of : Str → Str → Str
key_of a b = a ++ 0 ∷ b
