-- ===== src/Kernel/Reconcile/Index/Lookup.antt =====
-- The lists of the index, against a scan of the whole inventory by a test.
use mathlib.Core.List.{append_assoc, append-nil}
use index_core.Base.{
  Str, str_eq, ℤ, ◌≡◌, refl, sym, ap, ◌∙◌, Bool, ◌&&◌, List, [], ◌∷◌, ◌++◌, if◌then◌else◌, select,
  arith,
}
use index_core.Domain.Enums.{is_present}
use index_core.Domain.Entities.{SnapshotEntry}
use index_core.Kernel.Reconcile.Types.{PriorResource, canonical_path_of, has_missing_evidence}
use index_core.Kernel.Reconcile.Paths.{is_filled}
use index_core.Kernel.Reconcile.Index.{
  PriorIndex, empty_index, provider_key, hash_key, has_size, has_stable_id, add_prior, add_all,
  build_prior_index, observe, observe_all, index_observation,
}

-- A list of the index that each round extends by the resource, if it is PRESENT and passes a test.
module _ (test : PriorResource → Bool) (read : PriorIndex → List PriorResource)
    (round : (ix : PriorIndex) (p : PriorResource)
      → read (add_prior ix p)
        ≡ (if is_present p.resource_presence && test p then read ix ++ p ∷ [] else read ix)) where
  read-add_all :
      (ix : PriorIndex) (ps : List PriorResource)
      → read (add_all ix ps) ≡ read ix ++ select (λ p. is_present p.resource_presence && test p) ps
  unfolding add_all select
  read-add_all ix [] = sym (append-nil (read ix))
  read-add_all ix (p ∷ ps) = ground (
    arith,
    read-add_all (add_prior ix p) ps,
    round ix p,
    append_assoc (read ix) (p ∷ []) (select (λ p. is_present p.resource_presence && test p) ps),
  )

by_path_round :
    (k : Str) (ix : PriorIndex) (p : PriorResource)
    → (add_prior ix p).present_by_path k ≡ (
        if is_present p.resource_presence && str_eq (canonical_path_of p) k
        then ix.present_by_path k ++ p ∷ []
        else ix.present_by_path k)
unfolding add_prior
by_path_round k ix p = ground arith

by_provider_round :
    (k : Str) (ix : PriorIndex) (p : PriorResource)
    → (add_prior ix p).present_by_provider k ≡ (
        if is_present p.resource_presence && (has_stable_id p && str_eq (provider_key p) k)
        then ix.present_by_provider k ++ p ∷ []
        else ix.present_by_provider k)
unfolding add_prior
by_provider_round k ix p = ground arith

by_hash_round :
    (k : Str) (ix : PriorIndex) (p : PriorResource)
    → (add_prior ix p).present_by_hash k ≡ (
        if is_present p.resource_presence && (is_filled p.content_hash && str_eq (hash_key p) k)
        then ix.present_by_hash k ++ p ∷ []
        else ix.present_by_hash k)
unfolding add_prior
by_hash_round k ix p = ground arith

missing_by_hash_round :
    (k : Str) (ix : PriorIndex) (p : PriorResource)
    → (add_prior ix p).missing_by_hash k ≡ (
        if is_present p.resource_presence
          && (has_missing_evidence p && is_filled p.content_hash && str_eq (hash_key p) k)
        then ix.missing_by_hash k ++ p ∷ []
        else ix.missing_by_hash k)
unfolding add_prior
missing_by_hash_round k ix p = ground arith

missing_by_size_round :
    (n : ℤ) (ix : PriorIndex) (p : PriorResource)
    → (add_prior ix p).missing_by_size n ≡ (
        if is_present p.resource_presence && (has_missing_evidence p && has_size p n)
        then ix.missing_by_size n ++ p ∷ []
        else ix.missing_by_size n)
unfolding add_prior
missing_by_size_round n ix p = ground arith

-- The tests that the five lists of the index stand for.
abbrev pub at_path : Str → PriorResource → Bool
at_path k p = is_present p.resource_presence && str_eq (canonical_path_of p) k

abbrev pub at_provider : Str → PriorResource → Bool
at_provider k p = is_present p.resource_presence && (has_stable_id p && str_eq (provider_key p) k)

abbrev pub at_hash : Str → PriorResource → Bool
at_hash k p = is_present p.resource_presence && (is_filled p.content_hash && str_eq (hash_key p) k)

abbrev pub missing_at_hash : Str → PriorResource → Bool
missing_at_hash k p =
    is_present p.resource_presence
    && (has_missing_evidence p && is_filled p.content_hash && str_eq (hash_key p) k)

abbrev pub missing_at_size : ℤ → PriorResource → Bool
missing_at_size n p = is_present p.resource_presence && (has_missing_evidence p && has_size p n)

-- Every list of the built index is the part of the inventory that passes its test, in the order of
-- the inventory: by provider id, content hash and path over the PRESENT resources, and by content
-- hash and size over those with missing evidence.
pub build_prior_index-select :
    (prior : List PriorResource) (k : Str) (n : ℤ)
    → ((build_prior_index prior).present_by_provider k ≡ select (at_provider k) prior)
      × ((build_prior_index prior).present_by_hash k ≡ select (at_hash k) prior)
      × ((build_prior_index prior).present_by_path k ≡ select (at_path k) prior)
      × ((build_prior_index prior).missing_by_hash k ≡ select (missing_at_hash k) prior)
      × ((build_prior_index prior).missing_by_size n ≡ select (missing_at_size n) prior)
unfolding build_prior_index
build_prior_index-select prior k n = (
  read-add_all _ (λ ix. ix.present_by_provider k) (by_provider_round k) empty_index prior,
  read-add_all _ (λ ix. ix.present_by_hash k) (by_hash_round k) empty_index prior,
  read-add_all _ (λ ix. ix.present_by_path k) (by_path_round k) empty_index prior,
  read-add_all _ (λ ix. ix.missing_by_hash k) (missing_by_hash_round k) empty_index prior,
  read-add_all _ (λ ix. ix.missing_by_size n) (missing_by_size_round n) empty_index prior,
)

lists-observe_all :
    (ix : PriorIndex) (es : List SnapshotEntry)
    → ((observe_all ix es).present_by_provider ≡ ix.present_by_provider)
      × ((observe_all ix es).present_by_hash ≡ ix.present_by_hash)
      × ((observe_all ix es).present_by_path ≡ ix.present_by_path)
      × ((observe_all ix es).missing_by_hash ≡ ix.missing_by_hash)
      × ((observe_all ix es).missing_by_size ≡ ix.missing_by_size)
unfolding observe_all observe
lists-observe_all ix [] = (refl, refl, refl, refl, refl)
lists-observe_all ix (e ∷ es) = lists-observe_all (observe ix e) es

-- The index that `resolve` reads: built from the inventory, then told of the entries.
abbrev pub index_of : List PriorResource → List SnapshotEntry → PriorIndex
index_of prior es = index_observation (build_prior_index prior) es

-- So every list that `resolve` reads is a scan of the inventory.
pub index_of-select :
    (prior : List PriorResource) (es : List SnapshotEntry) (k : Str) (n : ℤ)
    → ((index_of prior es).present_by_provider k ≡ select (at_provider k) prior)
      × ((index_of prior es).present_by_hash k ≡ select (at_hash k) prior)
      × ((index_of prior es).present_by_path k ≡ select (at_path k) prior)
      × ((index_of prior es).missing_by_hash k ≡ select (missing_at_hash k) prior)
      × ((index_of prior es).missing_by_size n ≡ select (missing_at_size n) prior)
unfolding index_observation
index_of-select prior es k n =
    let built = build_prior_index-select prior k n in
    let kept =
      lists-observe_all
        (record (build_prior_index prior) { observed_by_hash = λ _. 0; observed_paths = λ _. 0 })
        es in
    (
      ap (λ m. m k) kept.0 ∙ built.0,
      ap (λ m. m k) kept.1 ∙ built.1,
      ap (λ m. m k) kept.2 ∙ built.2,
      ap (λ m. m k) kept.3 ∙ built.3,
      ap (λ m. m n) kept.4 ∙ built.4,
    )
