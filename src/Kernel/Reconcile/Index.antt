-- ===== src/Kernel/Reconcile/Index.antt =====
-- `PriorIndex` of internal/kernel/reconcile/identity.go. A Go map from a text to a slice is a
-- function from the text to a list; a missing key reads as the empty list, or as 0.
pub mod Lookup
use index_core.Base.{
  Str, str_eq, ℕ, ◌+◌, ℤ, eq_ℤ, Bool, true, false, ◌&&◌, Option, none, some, is_some, List, [], ◌∷◌,
  ◌++◌, if◌then◌else◌,
}
use index_core.Domain.Enums.{is_present, is_removed, is_stable}
use index_core.Domain.Entities.{SnapshotEntry}
use index_core.Kernel.Reconcile.Types.{
  PriorResource, deref_str, canonical_path_of, has_missing_evidence,
}
use index_core.Kernel.Reconcile.Paths.{entry_path, entry_hash_comparable, is_filled, key_of}

-- `missingBySize` is keyed by the decimal text of the size, so by the size itself.
pub record PriorIndex : Type 0 where
  pub present_by_provider : Str → List PriorResource
  pub present_by_hash : Str → List PriorResource
  pub present_by_path : Str → List PriorResource
  pub missing_by_hash : Str → List PriorResource
  pub missing_by_size : ℤ → List PriorResource
  pub observed_by_hash : Str → ℕ
  pub observed_paths : Str → ℕ

abbrev pub empty_index : PriorIndex
empty_index = record {
  present_by_provider = λ _. [];
  present_by_hash = λ _. [];
  present_by_path = λ _. [];
  missing_by_hash = λ _. [];
  missing_by_size = λ _. [];
  observed_by_hash = λ _. 0;
  observed_paths = λ _. 0;
}

-- `m[k] = append(m[k], p)`, when the guard of the write holds.
abbrev pub push_if {ℓ} :
    {K : Type ℓ}
    → (K → K → Bool)
    → Bool
    → (K → List PriorResource)
    → K
    → PriorResource
    → K
    → List PriorResource
push_if eq guard m k p j = if guard && eq k j then m j ++ p ∷ [] else m j

abbrev pub provider_key : PriorResource → Str
provider_key p = key_of (deref_str p.provider_object_id_scope) (deref_str p.provider_object_id)

abbrev pub hash_key : PriorResource → Str
hash_key p = key_of (deref_str p.hash_algorithm) (deref_str p.content_hash)

-- The size of a resource equals `n`, and is not nil.
abbrev pub has_size : PriorResource → ℤ → Bool
has_size p n = elim p.size [ none ↦ false | some m ↦ eq_ℤ m n ]

abbrev pub has_stable_id : PriorResource → Bool
has_stable_id p =
    is_stable p.provider_id_assurance
    && is_some p.provider_object_id
    && is_some p.provider_object_id_scope

-- One round of the loop of `BuildPriorIndex`, for a resource that is PRESENT.
add_present : PriorIndex → PriorResource → PriorIndex
add_present ix p = record ix {
  present_by_provider = push_if str_eq (has_stable_id p) ix.present_by_provider (provider_key p) p;
  present_by_hash = push_if str_eq (is_filled p.content_hash) ix.present_by_hash (hash_key p) p;
  present_by_path = push_if str_eq true ix.present_by_path (canonical_path_of p) p;
  missing_by_hash =
      push_if str_eq (has_missing_evidence p && is_filled p.content_hash) ix.missing_by_hash
        (hash_key p) p;
  missing_by_size = λ n.
      if has_missing_evidence p && has_size p n
      then ix.missing_by_size n ++ p ∷ []
      else ix.missing_by_size n;
}

add_prior : PriorIndex → PriorResource → PriorIndex
unfolding add_present
add_prior ix p =
    if is_removed p.resource_presence
    then ix
    else if is_present p.resource_presence
    then add_present ix p
    else ix

add_all : PriorIndex → List PriorResource → PriorIndex
add_all ix [] = ix
add_all ix (p ∷ ps) = add_all (add_prior ix p) ps

unfoldable pub build_prior_index : List PriorResource → PriorIndex
unfolding add_all add_prior str_eq
build_prior_index prior = add_all empty_index prior

abbrev pub entry_hash_key : SnapshotEntry → Str
entry_hash_key e = key_of (deref_str e.hash_algorithm) (deref_str e.content_hash)

-- `m[k]++`.
abbrev bump : Bool → (Str → ℕ) → Str → Str → ℕ
bump guard m k j = if guard && str_eq k j then m j + 1 else m j

observe : PriorIndex → SnapshotEntry → PriorIndex
observe ix e = record ix {
  observed_by_hash = bump (entry_hash_comparable e) ix.observed_by_hash (entry_hash_key e);
  observed_paths = bump true ix.observed_paths (entry_path e);
}

observe_all : PriorIndex → List SnapshotEntry → PriorIndex
observe_all ix [] = ix
observe_all ix (e ∷ es) = observe_all (observe ix e) es

-- Both maps of observations are made anew.
unfoldable pub index_observation : PriorIndex → List SnapshotEntry → PriorIndex
unfolding observe_all observe entry_path entry_hash_comparable
index_observation ix es =
    observe_all (record ix { observed_by_hash = λ _. 0; observed_paths = λ _. 0 }) es
