-- ===== src/Incremental/Scope/Canonical.antt =====
-- A scope key is in canonical form.
use index_core.Base.{
  Str, str_eq, str_eq_iff, str_eq_refl, ℕ, codes, has_prefix, split_slash, path_clean, is_odd,
  path_clean-plain, ==_iff, ◌≡◌, refl, sym, ap, ◌∙◌, false, ◌||◌, none, List, [], ◌∷◌, All,
  Bool-cases, inl, inr, arith,
}
use index_core.Incremental.Scope.{component_error, validate_scope_key}

plain :
    (s : Str)
    → (str_eq s [] || str_eq s (codes ".") || str_eq s (codes "..")) ≡ false
    → is_odd s ≡ false
unfolding str_eq
plain [] h = ground (arith, h)
plain (x ∷ []) h = ground (arith, h)
plain (x ∷ y ∷ []) h = ground (arith, h)
plain (x ∷ y ∷ z ∷ s) h = refl

component_error-plain :
    (segs : List Str) → component_error segs ≡ none → All (λ s. is_odd s ≡ false) segs
unfolding component_error
component_error-plain [] h = tt
component_error-plain (s ∷ segs) h =
    (plain s (ground (arith, h)), component_error-plain segs (ground (arith, h)))

str_eq_nil : (x : ℕ) (s : Str) → str_eq (x ∷ s) [] ≡ false
unfolding str_eq
str_eq_nil x s = refl

below_root :
    (x : ℕ) (s : Str)
    → validate_scope_key (x ∷ s) ≡ none
    → str_eq (x ∷ s) (codes "/") ≡ false
    → (x ≡ b'/') × (component_error (split_slash s) ≡ none)
unfolding validate_scope_key has_prefix
below_root x s h below = (
  ground (arith, h, below, ==_iff x b'/', str_eq_nil x s),
  ground (arith, h, below, str_eq_nil x s),
)

root_clean : path_clean (codes "/") ≡ codes "/"
unfolding path_clean has_prefix
root_clean = refl

-- A validated scope key is canonical: it is its own `path.Clean`, so that comparing keys as texts
-- compares the paths.
pub validate_scope_key-canonical :
    (key : Str) → validate_scope_key key ≡ none → path_clean key ≡ key
unfolding validate_scope_key
validate_scope_key-canonical [] h = ground (arith, h, str_eq_refl [])
validate_scope_key-canonical (x ∷ s) h = elim (Bool-cases (str_eq (x ∷ s) (codes "/"))) [
  | inl root ↦
      let same = (str_eq_iff (x ∷ s) (codes "/")).0 root in
      ap path_clean same ∙ root_clean ∙ sym same
  | inr below ↦
      let (slash, ok) = below_root x s h below in
      ap (λ c. path_clean (c ∷ s)) slash
      ∙ path_clean-plain s (component_error-plain (split_slash s) ok)
      ∙ ap (λ c. c ∷ s) (sym slash)
]
