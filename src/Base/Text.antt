-- ===== src/Base/Text.antt =====
-- Go strings as their bytes: equality, prefixes, and the parts of package `path` in use.
use Prim.Native.Nat.{ℕ}
use Prim.Native.Char.{code}
use Prim.Native.String.{String}
use mathlib.Core.Path.{◌≡◌, refl}
use mathlib.Core.Logic.{◌↔◌}
use mathlib.Core.Bool.{Bool, true, false, ◌&&◌, ◌||◌}
use mathlib.Core.List.{List, [], ◌∷◌, ◌++◌, reverse}
use native.Mathlib.Omega.{arith}
use index_core.Base.Tests.{◌==◌, if◌then◌else◌}

abbrev pub Str : Type 0
Str = List ℕ

-- The bytes of an ASCII literal.
abbrev pub codes : String → Str
codes String.[] = []
codes (String.◌∷◌ c s) = code c ∷ codes s

unfoldable pub str_eq : Str → Str → Bool
str_eq [] [] = true
str_eq [] (y ∷ ys) = false
str_eq (x ∷ xs) [] = false
str_eq (x ∷ xs) (y ∷ ys) = x == y && str_eq xs ys

pub str_eq_iff : (s t : Str) → (str_eq s t ≡ true) ↔ (s ≡ t)
unfolding str_eq
str_eq_iff [] [] = ground arith
str_eq_iff [] (y ∷ t) = ground arith
str_eq_iff (x ∷ s) [] = ground arith
str_eq_iff (x ∷ s) (y ∷ t) = ground (arith, str_eq_iff s t)

pub str_eq_refl : (s : Str) → str_eq s s ≡ true
str_eq_refl s = (str_eq_iff s s).1 refl

unfoldable pub contains : List Str → Str → Bool
contains [] s = false
contains (t ∷ ts) s = str_eq t s || contains ts s

-- `strings.HasPrefix(s, p)`.
unfoldable pub has_prefix : Str → Str → Bool
has_prefix s [] = true
has_prefix [] (y ∷ p) = false
has_prefix (x ∷ s) (y ∷ p) = x == y && has_prefix s p

-- `strings.TrimSuffix(s, "/")`.
unfoldable pub trim_slash : Str → Str
trim_slash [] = []
trim_slash (x ∷ []) = if x == b'/' then [] else x ∷ []
trim_slash (x ∷ y ∷ s) = x ∷ trim_slash (y ∷ s)

-- `strings.Split(s, "/")`.
unfoldable pub split_slash : Str → List Str
split_slash [] = [] ∷ []
split_slash (x ∷ s) = elim (x == b'/') [
  | true ↦ [] ∷ split_slash s
  | false ↦ elim (split_slash s) [ [] ↦ (x ∷ []) ∷ [] | seg ∷ segs ↦ (x ∷ seg) ∷ segs ]
]

unfoldable pub join_slash : List Str → Str
join_slash [] = []
join_slash (s ∷ []) = s
join_slash (s ∷ t ∷ ts) = s ++ b'/' ∷ join_slash (t ∷ ts)

abbrev pub is_dot : Str → Bool
is_dot (x ∷ []) = x == b'.'
is_dot _ = false

abbrev pub is_dot_dot : Str → Bool
is_dot_dot (x ∷ y ∷ []) = x == b'.' && y == b'.'
is_dot_dot _ = false

-- What ".." does to the segments kept so far, newest first.
abbrev pub pop_segment : Bool → List Str → List Str
pop_segment rooted [] = if rooted then [] else codes ".." ∷ []
pop_segment rooted (k ∷ ks) = if is_dot_dot k then codes ".." ∷ k ∷ ks else ks

-- The loop of `path.Clean`: empty and "." segments are dropped, ".." removes the one before it.
unfoldable pub clean_segments : Bool → List Str → List Str → List Str
clean_segments rooted kept [] = kept
clean_segments rooted kept (s ∷ ss) =
    clean_segments rooted
      (if str_eq s [] || is_dot s
        then kept
        else if is_dot_dot s
        then pop_segment rooted kept
        else s ∷ kept)
      ss

-- `path.Clean`.
unfoldable pub path_clean : Str → Str
unfolding clean_segments str_eq split_slash join_slash
path_clean p =
    let rooted = has_prefix p (codes "/") in
    let body = join_slash (reverse (clean_segments rooted [] (split_slash p))) in
    if rooted then b'/' ∷ body else if str_eq body [] then codes "." else body

-- The text up to its last slash, that slash included: the first half of `path.Split`.
unfoldable pub upto_slash : Str → Str
upto_slash [] = []
upto_slash (x ∷ s) = elim (upto_slash s) [
  | [] ↦ if x == b'/' then x ∷ [] else []
  | y ∷ r ↦ x ∷ y ∷ r
]

-- `path.Dir`.
unfoldable pub path_dir : Str → Str
unfolding path_clean upto_slash has_prefix
path_dir p = path_clean (upto_slash p)
