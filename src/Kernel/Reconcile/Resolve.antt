-- ===== src/Kernel/Reconcile/Resolve.antt =====
-- `PriorIndex.resolve` of internal/kernel/reconcile/identity.go: the rules R1 to R8, in the order
-- of the source. A stage returns `none` where the source falls through to the next one.
pub mod Stages
pub mod Matches
pub mod Fingerprint
use index_core.Base.{
  Str, str_eq, codes, ℕ, ◌==◌, ltb, ℤ, Bool, true, false, ◌&&◌, ◌||◌, not, Option, none, some,
  is_some, List, [], ◌∷◌, is_empty, any, select, String, if◌then◌else◌,
}
use index_core.Domain.Enums.{ProviderIdentityAssurance, is_stable}
use index_core.Domain.Entities.{SnapshotEntry}
use index_core.Kernel.Reconcile.Types.{
  Config, PriorResource, deref_str, canonical_path_of, has_missing_evidence,
}
use index_core.Kernel.Reconcile.Paths.{
  entry_path, equal_int64, equal_time, is_filled, entry_hash_comparable, hash_agrees,
  within_move_horizon, key_of,
}
use index_core.Kernel.Reconcile.Index.{PriorIndex, entry_hash_key}

-- The outcome with what the source returns beside it: the resource, and the reason.
pub data IdentityResolution : Type 0 where
  matched : PriorResource → String → IdentityResolution
  new_resource : String → IdentityResolution
  unresolved : String → IdentityResolution
  conflict : String → IdentityResolution

abbrev pub says_stable : Option ProviderIdentityAssurance → Bool
says_stable none = false
says_stable (some a) = is_stable a

-- R1 at the resources that carry the entry's provider id.
unfoldable pub provider_match :
    PriorIndex → Str → Str → List PriorResource → Option IdentityResolution
provider_match ix path id (c ∷ []) = some (matched c "R1 provider_object_id")
provider_match ix path id [] =
    if any (λ p. is_some p.provider_object_id && not (str_eq (deref_str p.provider_object_id) id))
      (ix.present_by_path path)
    then some (unresolved "R10 provider_object_id changed at a continuous path")
    else none
provider_match ix path id (c ∷ d ∷ r) = some (conflict "R1 multiple provider_object_id matches")

-- The provider id of an entry as the index spells it, when the entry vouches for it.
abbrev pub entry_is_stable : SnapshotEntry → Bool
entry_is_stable e =
    says_stable e.provider_identity_assurance
    && (is_some e.provider_object_id && is_some e.provider_object_id_scope)

abbrev pub entry_provider_key : SnapshotEntry → Str
entry_provider_key e =
    key_of (deref_str e.provider_object_id_scope) (deref_str e.provider_object_id)

unfoldable pub provider_stage : PriorIndex → SnapshotEntry → Option IdentityResolution
provider_stage ix e =
    if entry_is_stable e
    then provider_match ix (entry_path e) (deref_str e.provider_object_id)
        (ix.present_by_provider (entry_provider_key e))
    else none

-- A row that is alone with the entry's content hash, or not.
unfoldable pub hash_match :
    PriorIndex
    → Config
    → ℕ
    → SnapshotEntry
    → List PriorResource
    → List PriorResource
    → Option IdentityResolution
hash_match ix cfg now e same (c ∷ []) =
    if str_eq (canonical_path_of c) (entry_path e)
    then some (matched c "R3 same-path content_hash")
    else if has_missing_evidence c
    then if ltb 1 (ix.observed_by_hash (entry_hash_key e))
        || ltb 0 (ix.observed_paths (canonical_path_of c))
        || not (is_empty same)
      then some (conflict "R3 ambiguous move observation")
      else if within_move_horizon c cfg now
      then some (matched c "R3/R5 cross-path content_hash within horizon")
      else some (unresolved "R3 cross-path content_hash outside horizon")
    else some (conflict "R3 ambiguous continuity")
hash_match ix cfg now e same [] = none
hash_match ix cfg now e same (c ∷ d ∷ r) = some (conflict "R3 multiple content_hash matches")

-- Every candidate is live elsewhere: a distinct copy, or no candidate for a hashless row.
unfoldable pub hash_candidates :
    PriorIndex → Config → ℕ → SnapshotEntry → List PriorResource → Option IdentityResolution
hash_candidates ix cfg now e same =
    let matches = ix.present_by_hash (entry_hash_key e) in
    if not (is_empty matches) && is_empty (ix.missing_by_hash (entry_hash_key e))
    then if is_empty same then some (new_resource "R3 distinct live content copy") else none
    else hash_match ix cfg now e same matches

-- R3 and R8 at the row of the entry's own path, before any other path is looked at.
unfoldable pub hash_same_path :
    PriorIndex → Config → ℕ → SnapshotEntry → List PriorResource → Option IdentityResolution
hash_same_path ix cfg now e (c ∷ []) =
    if hash_agrees c.content_hash e.content_hash c.hash_algorithm e.hash_algorithm
    then some (matched c "R3 same-path content_hash")
    else if is_filled c.content_hash
    then some (new_resource "R8 imposter (different content_hash)")
    else hash_candidates ix cfg now e (c ∷ [])
hash_same_path ix cfg now e same = hash_candidates ix cfg now e same

unfoldable pub hash_stage :
    PriorIndex → Config → ℕ → SnapshotEntry → List PriorResource → Option IdentityResolution
hash_stage ix cfg now e same =
    if entry_hash_comparable e then hash_same_path ix cfg now e same else none

-- A missing row that is still inside the horizon, with the entry's modification time.
abbrev pub is_move_of : SnapshotEntry → Config → ℕ → PriorResource → Bool
is_move_of e cfg now p =
    within_move_horizon p cfg now
    && (equal_time p.mtime e.mtime && is_some p.mtime && is_some e.mtime)

-- R5: what a scan of the missing rows of the entry's size leaves.
unfoldable pub moved_candidates : PriorIndex → Config → ℕ → SnapshotEntry → List PriorResource
moved_candidates ix cfg now e = elim e.size [
  | none ↦ []
  | some n ↦ select (is_move_of e cfg now) (ix.missing_by_size n)
]

unfoldable pub moved_match : List PriorResource → IdentityResolution
moved_match (c ∷ []) = matched c "R5 move (size+mtime within horizon, hash absent)"
moved_match [] = new_resource "no candidate -> new resource"
moved_match (c ∷ d ∷ r) = conflict "R7 multiple moved candidates"

-- R4 and R5.
unfoldable pub size_stage :
    PriorIndex → Config → ℕ → SnapshotEntry → List PriorResource → IdentityResolution
size_stage ix cfg now e (c ∷ []) =
    let size_matches = equal_int64 c.size e.size && is_some c.size in
    let mtime_both = is_some c.mtime && is_some e.mtime in
    if entry_hash_comparable e
      && is_filled c.content_hash
      && not (hash_agrees c.content_hash e.content_hash c.hash_algorithm e.hash_algorithm)
    then new_resource "R8 imposter (different content_hash)"
    else if size_matches && mtime_both && equal_time c.mtime e.mtime
    then matched c "R4 path+size+mtime"
    else if size_matches && mtime_both
    then unresolved "R4/R8 same path+size, mtime differs"
    else unresolved "R4 insufficient (size mismatch or mtime absent)"
size_stage ix cfg now e [] =
    if entry_hash_comparable e
    then new_resource "no candidate -> new resource"
    else moved_match (moved_candidates ix cfg now e)
size_stage ix cfg now e (c ∷ d ∷ r) = conflict "R4 multiple PRESENT rows at path"

abbrev pub is_many {ℓ} : {A : Type ℓ} → List A → Bool
is_many (x ∷ y ∷ r) = true
is_many _ = false

unfoldable pub resolve : PriorIndex → SnapshotEntry → Config → ℕ → IdentityResolution
resolve ix e cfg now =
    let same = ix.present_by_path (entry_path e) in
    elim (provider_stage ix e) [
      | some r ↦ r
      | none ↦
          if is_many same || ltb 1 (ix.observed_paths (entry_path e))
          then conflict "R4 multiple rows at path"
          else elim (hash_stage ix cfg now e same) [
            | some r ↦ r
            | none ↦ size_stage ix cfg now e same
          ]
    ]
