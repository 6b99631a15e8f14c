-- ===== src/Incremental/Scope.antt =====
-- internal/incremental/state/scope.go: which texts are scope keys.
pub mod Canonical
use index_core.Base.{
  Str, str_eq, codes, has_prefix, split_slash, any, ◌==◌, Bool, true, false, ◌||◌, not, Option,
  none, some, List, [], ◌∷◌, if◌then◌else◌,
}

pub data ScopeKeyError : Type 0 where
  empty_key not_absolute trailing_slash backslash empty_component dot_component : ScopeKeyError

-- `strings.HasSuffix(key, "/")`.
unfoldable pub ends_with_slash : Str → Bool
ends_with_slash [] = false
ends_with_slash (x ∷ []) = x == b'/'
ends_with_slash (x ∷ y ∷ s) = ends_with_slash (y ∷ s)

abbrev pub tail : Str → Str
tail [] = []
tail (x ∷ s) = s

-- The loop over the components: the first bad one decides.
unfoldable pub component_error : List Str → Option ScopeKeyError
component_error [] = none
component_error (seg ∷ segs) =
    let rest = component_error segs in
    if str_eq seg []
    then some empty_component
    else if str_eq seg (codes ".") || str_eq seg (codes "..")
    then some dot_component
    else rest

unfoldable pub validate_scope_key : Str → Option ScopeKeyError
validate_scope_key key =
    if str_eq key []
    then some empty_key
    else if str_eq key (codes "/")
    then none
    else if not (has_prefix key (codes "/"))
    then some not_absolute
    else if ends_with_slash key
    then some trailing_slash
    else if any (λ c. c == b'\\') key
    then some backslash
    else component_error (split_slash (tail key))
