-- ===== src/Base/Paths.antt =====
-- A rooted path whose components are plain is its own `path.Clean`.
use mathlib.Core.Path.{◌≡◌, refl, sym, ap, ◌∙◌}
use mathlib.Core.Bool.{Bool, true, false, ◌||◌}
use mathlib.Core.List.{List, [], ◌∷◌, ◌++◌, reverse, reverse-cons, append_assoc, append-nil}
use mathlib.Core.Logic.{inl, inr}
use Prim.Native.Nat.{ℕ}
use native.Mathlib.Omega.{arith}
use index_core.Base.Tests.{◌==◌, ==_iff, Bool-cases, if◌then◌else◌}
use index_core.Base.Lists.{All}
use index_core.Base.Text.{
  Str, str_eq, is_dot, is_dot_dot, pop_segment, clean_segments, split_slash, join_slash, has_prefix,
  path_clean,
}

-- A component that `path.Clean` keeps.
abbrev pub is_odd : Str → Bool
is_odd s = str_eq s [] || is_dot s || is_dot_dot s

keeps :
    (rooted : Bool) (kept : List Str) (s : Str)
    → is_odd s ≡ false
    → (if str_eq s [] || is_dot s
        then kept
        else if is_dot_dot s
        then pop_segment rooted kept
        else s ∷ kept)
      ≡ s ∷ kept
keeps rooted kept s h = ground (arith, h)

clean_segments-plain :
    (rooted : Bool) (kept segs : List Str)
    → All (λ s. is_odd s ≡ false) segs
    → reverse (clean_segments rooted kept segs) ≡ reverse kept ++ segs
unfolding clean_segments
clean_segments-plain rooted kept [] h = sym (append-nil (reverse kept))
clean_segments-plain rooted kept (s ∷ segs) h =
    ap (λ k. reverse (clean_segments rooted k segs)) (keeps rooted kept s h.0)
    ∙ clean_segments-plain rooted (s ∷ kept) segs h.1
    ∙ ap (λ r. r ++ segs) (reverse-cons s kept)
    ∙ append_assoc (reverse kept) (s ∷ []) segs

split-slash : (x : ℕ) (s : Str) → (x == b'/') ≡ true → split_slash (x ∷ s) ≡ [] ∷ split_slash s
unfolding split_slash
split-slash x s h = ground (arith, h)

split-plain :
    (x : ℕ) (s seg : Str) (segs : List Str)
    → (x == b'/') ≡ false
    → split_slash s ≡ seg ∷ segs
    → split_slash (x ∷ s) ≡ (x ∷ seg) ∷ segs
unfolding split_slash
split-plain x s seg segs h e = ground (arith, h, e)

split-cons : (s : Str) → (seg : Str) × (segs : List Str) × (split_slash s ≡ seg ∷ segs)
unfolding split_slash
split-cons [] = ([], [], refl)
split-cons (x ∷ s) =
    let (seg, segs, e) = split-cons s in
    elim (Bool-cases (x == b'/')) [
      | inl slash ↦ ([], split_slash s, split-slash x s slash)
      | inr plain ↦ (x ∷ seg, segs, split-plain x s seg segs plain e)
    ]

join-head :
    (x : ℕ) (seg : Str) (segs : List Str)
    → join_slash ((x ∷ seg) ∷ segs) ≡ x ∷ join_slash (seg ∷ segs)
unfolding join_slash
join-head x seg [] = refl
join-head x seg (t ∷ ts) = refl

join-split : (s : Str) → join_slash (split_slash s) ≡ s
unfolding join_slash split_slash
join-split [] = refl
join-split (x ∷ s) =
    let (seg, segs, e) = split-cons s in
    let rest : join_slash (seg ∷ segs) ≡ s = ap join_slash (sym e) ∙ join-split s in
    elim (Bool-cases (x == b'/')) [
      | inl slash ↦
          ap join_slash (split-slash x s slash ∙ ap (λ r. [] ∷ r) e)
          ∙ ap (λ r. b'/' ∷ r) rest
          ∙ ap (λ c. c ∷ s) (sym ((==_iff x b'/').0 slash))
      | inr plain ↦
          ap join_slash (split-plain x s seg segs plain e)
          ∙ join-head x seg segs
          ∙ ap (λ r. x ∷ r) rest
    ]

pub path_clean-plain :
    (s : Str) → All (λ seg. is_odd seg ≡ false) (split_slash s) → path_clean (b'/' ∷ s) ≡ b'/' ∷ s
unfolding path_clean has_prefix
path_clean-plain s h =
    ap (λ b. b'/' ∷ b)
      (ap join_slash (clean_segments-plain true [] (split_slash s) h) ∙ join-split s)
