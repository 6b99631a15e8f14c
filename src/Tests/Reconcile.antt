-- ===== src/Tests/Reconcile.antt =====
-- Instances of the theorems on reconciliation.
use mathlib.Core.List.{Memᴰ}
use index_core.Base.{
  Bool, ◌&&◌, not, str_eq, codes, pos, ◌≡◌, refl, ◌≢◌, ◌↔◌, true, false, [], ◌∷◌, ◌++◌, map, select,
  All, arith,
}
use index_core.Domain.Enums.{AcceptanceState, RemovalEvidenceState, is_present}
use index_core.Kernel.Reconcile.Types.{
  PriorResource, missing_evidence, confirm_removed, min_consecutive, effective_grace,
}
use index_core.Kernel.Reconcile.Paths.{
  entry_path, entry_hash_comparable, hash_agrees, within_move_horizon,
}
use index_core.Kernel.Reconcile.Index.{
  build_prior_index, index_observation, entry_hash_key, hash_key,
}
use index_core.Kernel.Reconcile.Index.Lookup.{
  at_path, at_provider, at_hash, missing_at_hash, missing_at_size, build_prior_index-select,
  index_of,
}
use index_core.Kernel.Reconcile.Resolve.{matched, resolve, entry_is_stable}
use index_core.Kernel.Reconcile.Resolve.Matches.{IsGroundedMatch, resolve-IsGroundedMatch}
use index_core.Kernel.Reconcile.Resolve.Fingerprint.{resolve-hash_key}
use index_core.Kernel.Reconcile.Missing.{missing_transition, missing_kind}
use index_core.Kernel.Reconcile.Missing.Evidence.{
  IsConfirmable, missing_transition-confirm_removed, inside_horizon-ne-confirm_removed,
  horizon_end-confirm_removed, missing_transition_twice, with_evidence_of, SameEvidence,
}
use index_core.Kernel.Reconcile.Run.{reconcile, observe_entries}
use index_core.Kernel.Reconcile.Run.Tally.{IsTallied, reconcile-IsTallied}
use index_core.Kernel.Reconcile.Run.Removals.{
  is_removal_step, is_matched, reconcile-no_removal, reconcile-complete,
}
use index_core.Kernel.Reconcile.Run.Spared.{matched-not_removed}
use index_core.Kernel.Reconcile.Directory.{reconcile_directory, observed_ids, mirror_transition}
use index_core.Kernel.Reconcile.Directory.Removals.{
  IsRemovable, reconcile_directory-transitions, reconcile_directory-IsRemovable,
}
use index_core.Kernel.Reconcile.Resolve
use index_core.Tests.Data.{
  policy, kept, kept_entry, gone, missing, hashed, hashed_entry, library, listing,
}

reconcile-no_removal_example :
    All
      (λ t. is_removal_step t.kind ≡ false)
      (reconcile library listing AcceptanceState.partial policy 2000 (codes "s3")).transitions
reconcile-no_removal_example =
    reconcile-no_removal library listing AcceptanceState.partial policy 2000 (codes "s3") refl

reconcile-complete_example :
    let s = observe_entries library listing policy 2000 in
    All (λ t. is_removal_step t.kind ≡ false) s.result.transitions
    × ((reconcile library listing AcceptanceState.complete policy 2000 (codes "s3")).transitions
        ≡ s.result.transitions
          ++ map
              (λ p. missing_transition p policy 2000 (codes "s3"))
              (select
                (λ p.
                  is_present p.resource_presence
                  && not (is_matched library listing policy 2000 p.resource_id))
                library))
reconcile-complete_example = reconcile-complete library listing policy 2000 (codes "s3")

kept_matched :
    resolve (index_of library listing) kept_entry policy 2000 ≡ matched kept "R4 path+size+mtime"
unfolding resolve Resolve.provider_stage index_observation build_prior_index Resolve.hash_stage
    Resolve.size_stage
kept_matched = refl

hashed_matched :
    resolve (index_of (hashed ∷ []) (hashed_entry ∷ [])) hashed_entry policy 2000
    ≡ matched hashed "R3 same-path content_hash"
unfolding resolve Resolve.provider_stage index_observation build_prior_index Resolve.hash_stage
    Resolve.size_stage Resolve.hash_same_path hash_agrees
hashed_matched = refl

matched-not_removed_example :
    All
      (λ t. is_removal_step t.kind ≡ true → t.resource_id ≢ codes "k")
      (reconcile library listing AcceptanceState.complete policy 2000 (codes "s3")).transitions
matched-not_removed_example =
    matched-not_removed library listing AcceptanceState.complete policy 2000 (codes "s3") kept
      "R4 path+size+mtime" (Memᴰ.head refl) kept_matched

resolve-IsGroundedMatch_example : IsGroundedMatch library kept_entry policy 2000 kept
resolve-IsGroundedMatch_example =
    resolve-IsGroundedMatch library listing kept_entry policy 2000 kept "R4 path+size+mtime"
      kept_matched

resolve-hash_key_example : hash_key hashed ≡ entry_hash_key hashed_entry
unfolding entry_hash_comparable
resolve-hash_key_example =
    resolve-hash_key (hashed ∷ []) (hashed_entry ∷ []) hashed_entry policy 2000 hashed
      "R3 same-path content_hash" refl hashed_matched refl refl

reconcile-IsTallied_example :
    IsTallied (reconcile library listing AcceptanceState.complete policy 2000 (codes "s3"))
reconcile-IsTallied_example =
    reconcile-IsTallied library listing AcceptanceState.complete policy 2000 (codes "s3")

build_prior_index-select_example :
    ((build_prior_index library).present_by_provider (codes "/a")
      ≡ select (at_provider (codes "/a")) library)
    × ((build_prior_index library).present_by_hash (codes "/a")
        ≡ select (at_hash (codes "/a")) library)
    × ((build_prior_index library).present_by_path (codes "/a")
        ≡ select (at_path (codes "/a")) library)
    × ((build_prior_index library).missing_by_hash (codes "/a")
        ≡ select (missing_at_hash (codes "/a")) library)
    × ((build_prior_index library).missing_by_size (pos 5)
        ≡ select (missing_at_size (pos 5)) library)
build_prior_index-select_example = build_prior_index-select library (codes "/a") (pos 5)

missing_transition-confirm_removed_example :
    ((missing_transition missing policy 2000 (codes "s3")).kind ≡ confirm_removed)
    ↔ IsConfirmable missing policy 2000 (codes "s3")
missing_transition-confirm_removed_example =
    missing_transition-confirm_removed missing policy 2000 (codes "s3")

confirms : (missing_transition missing policy 2000 (codes "s3")).kind ≡ confirm_removed
unfolding missing_transition str_eq missing_kind min_consecutive effective_grace
confirms = refl

inside_horizon-ne-confirm_removed_example :
    (missing_transition missing policy 1050 (codes "s3")).kind ≢ confirm_removed
unfolding within_move_horizon
inside_horizon-ne-confirm_removed_example =
    inside_horizon-ne-confirm_removed missing policy 1050 1000 (codes "s3") refl refl (ground arith)

horizon_end-confirm_removed_example :
    (within_move_horizon missing policy 1100 ≡ true)
    × ((missing_transition missing policy 1100 (codes "s3")).kind ≡ confirm_removed)
unfolding min_consecutive
horizon_end-confirm_removed_example =
    horizon_end-confirm_removed missing policy 1100 1000 (codes "s3") refl (omega arith)
      (omega arith) refl refl (ground arith) (ground arith) (omega arith)

missing_transition_twice_example :
    let t = missing_transition gone policy 2000 (codes "s3") in
    let u =
      missing_transition
        (with_evidence_of gone RemovalEvidenceState.missing_confirmed_by_complete t 2000)
        policy
        9000
        (codes "s3") in
    (u.kind ≡ missing_evidence) × SameEvidence t u
missing_transition_twice_example =
    missing_transition_twice gone policy 2000 9000 2000 (codes "s3")
      RemovalEvidenceState.missing_confirmed_by_complete refl

reconcile_directory-transitions_example :
    let res = reconcile library listing AcceptanceState.partial policy 2000 (codes "s3") in
    (goes : PriorResource → Bool) × ((reconcile_directory library listing
        (codes "/")
        policy
        2000
        (codes "s3")).transitions
      ≡ res.transitions ++ map (mirror_transition 2000 (codes "s3")) (select goes library))
    × ((p : PriorResource)
        → Memᴰ p (select goes library)
          ↔ IsRemovable library (codes "/") (map entry_path listing) (observed_ids res) p)
reconcile_directory-transitions_example =
    reconcile_directory-transitions library listing (codes "/") policy 2000 (codes "s3")

reconcile_directory-IsRemovable_example :
    let res = reconcile library listing AcceptanceState.partial policy 2000 (codes "s3") in
    All
      (λ t.
        is_removal_step t.kind ≡ true
        → (p : PriorResource) × (t.resource_id ≡ p.resource_id)
          × IsRemovable library (codes "/") (map entry_path listing) (observed_ids res) p)
      (reconcile_directory library listing (codes "/") policy 2000 (codes "s3")).transitions
reconcile_directory-IsRemovable_example =
    reconcile_directory-IsRemovable library listing (codes "/") policy 2000 (codes "s3")
