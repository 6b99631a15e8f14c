-- ===== src/Kernel/Reconcile/Resolve/Stages.antt =====
-- The matches of each stage of `resolve`, by the lists that it reads.
use mathlib.Core.List.{Memᴰ}
use index_core.Base.{
  Str, str_eq_iff, ℕ, ◌≡◌, refl, ◌∙◌, ◌⊎◌, Bool, true, false, Option, none, some, ℤ, List, [], ◌∷◌,
  select, String, ap, if◌then◌else◌, arith,
}
use index_core.Domain.Entities.{SnapshotEntry}
use index_core.Kernel.Reconcile.Types.{
  Config, PriorResource, deref_str, canonical_path_of, has_missing_evidence,
}
use index_core.Kernel.Reconcile.Paths.{entry_path, within_move_horizon}
use index_core.Kernel.Reconcile.Index.{PriorIndex, provider_key, has_stable_id, entry_hash_key}
use index_core.Kernel.Reconcile.Resolve.{
  matched, entry_is_stable, entry_provider_key, provider_match, provider_stage, hash_match,
  hash_candidates, hash_same_path, hash_stage, is_move_of, moved_candidates, moved_match,
  size_stage, resolve,
}

-- An element of a selection is an element of the whole, and passes the test.
pub mem-select {ℓ} :
    {A : Type ℓ} (p : A → Bool) (xs : List A) {c : A}
    → Memᴰ c (select p xs)
    → Memᴰ c xs × (p c ≡ true)
unfolding select
mem-select p [] m = elim m [ ]
mem-select p (x ∷ xs) {c} m = split (p x) refl (mem-select p xs) m
  where
    split :
        (b : Bool)
        → p x ≡ b
        → (Memᴰ c (select p xs) → Memᴰ c xs × (p c ≡ true))
        → Memᴰ c (if b then x ∷ select p xs else select p xs)
        → Memᴰ c (x ∷ xs) × (p c ≡ true)
    split true e rest (Memᴰ.head q) = (Memᴰ.head q, ap p q ∙ e)
    split true e rest (Memᴰ.tail k) = (Memᴰ.tail (rest k).0, (rest k).1)
    split false e rest k = (Memᴰ.tail (rest k).0, (rest k).1)

-- The three grounds on which an entry is taken for a resource.
abbrev pub SameProviderId : SnapshotEntry → PriorResource → Type 0
SameProviderId e c =
    (entry_is_stable e ≡ true) × (has_stable_id c ≡ true) × (provider_key c ≡ entry_provider_key e)

abbrev pub SamePath : SnapshotEntry → PriorResource → Type 0
SamePath e c = canonical_path_of c ≡ entry_path e

abbrev pub RecognizedMove : Config → ℕ → PriorResource → Type 0
RecognizedMove cfg now c = (has_missing_evidence c ≡ true) × (within_move_horizon c cfg now ≡ true)

module _ (ix : PriorIndex) (cfg : Config) (now : ℕ) (e : SnapshotEntry) where
  provider_match-single :
      (path id : Str) (l : List PriorResource) (c : PriorResource) (r : String)
      → provider_match ix path id l ≡ some (matched c r)
      → l ≡ c ∷ []
  unfolding provider_match
  provider_match-single path id [] c r h = ground arith
  provider_match-single path id (x ∷ []) c r h = ground arith
  provider_match-single path id (x ∷ y ∷ l) c r h = ground arith

  pub hash_match-single :
      (same l : List PriorResource) (c : PriorResource) (r : String)
      → hash_match ix cfg now e same l ≡ some (matched c r)
      → (l ≡ c ∷ []) × (SamePath e c ⊎ RecognizedMove cfg now c)
  unfolding hash_match
  hash_match-single same [] c r h = ground arith
  hash_match-single same (x ∷ []) c r h =
      ground (arith, str_eq_iff (canonical_path_of x) (entry_path e))
  hash_match-single same (x ∷ y ∷ l) c r h = ground arith

  pub hash_stage-single :
      (same : List PriorResource) (c : PriorResource) (r : String)
      → hash_stage ix cfg now e same ≡ some (matched c r)
      → (same ≡ c ∷ [])
        ⊎ ((ix.present_by_hash (entry_hash_key e) ≡ c ∷ [])
            × (SamePath e c ⊎ RecognizedMove cfg now c))
  unfolding hash_stage hash_same_path hash_candidates
  hash_stage-single [] c r h =
      ground (arith, hash_match-single [] (ix.present_by_hash (entry_hash_key e)) c r)
  hash_stage-single (x ∷ []) c r h =
      ground (arith, hash_match-single (x ∷ []) (ix.present_by_hash (entry_hash_key e)) c r)
  hash_stage-single (x ∷ y ∷ l) c r h =
      ground (arith, hash_match-single (x ∷ y ∷ l) (ix.present_by_hash (entry_hash_key e)) c r)

  moved_match-single :
      (l : List PriorResource) (c : PriorResource) (r : String)
      → moved_match l ≡ matched c r
      → l ≡ c ∷ []
  unfolding moved_match
  moved_match-single [] c r h = ground arith
  moved_match-single (x ∷ []) c r h = ground arith
  moved_match-single (x ∷ y ∷ l) c r h = ground arith

  size_stage-single :
      (same : List PriorResource) (c : PriorResource) (r : String)
      → size_stage ix cfg now e same ≡ matched c r
      → (same ≡ c ∷ []) ⊎ (moved_candidates ix cfg now e ≡ c ∷ [])
  unfolding size_stage
  size_stage-single [] c r h =
      ground (arith, moved_match-single (moved_candidates ix cfg now e) c r)
  size_stage-single (x ∷ []) c r h = ground arith
  size_stage-single (x ∷ y ∷ l) c r h = ground arith

  pub resolve-single :
      (c : PriorResource) (r : String)
      → resolve ix e cfg now ≡ matched c r
      → ((entry_is_stable e ≡ true) × (ix.present_by_provider (entry_provider_key e) ≡ c ∷ []))
        ⊎ (ix.present_by_path (entry_path e) ≡ c ∷ [])
        ⊎ ((ix.present_by_hash (entry_hash_key e) ≡ c ∷ [])
            × (SamePath e c ⊎ RecognizedMove cfg now c))
        ⊎ (moved_candidates ix cfg now e ≡ c ∷ [])
  unfolding resolve provider_stage
  resolve-single c r h = ground (
    arith,
    provider_match-single (entry_path e) (deref_str e.provider_object_id)
        (ix.present_by_provider (entry_provider_key e)) c r,
    hash_stage-single (ix.present_by_path (entry_path e)) c r,
    size_stage-single (ix.present_by_path (entry_path e)) c r,
  )

  pub moved_candidates-move :
      (c : PriorResource)
      → Memᴰ c (moved_candidates ix cfg now e)
      → (n : ℤ) × Memᴰ c (ix.missing_by_size n) × (within_move_horizon c cfg now ≡ true)
  unfolding moved_candidates
  moved_candidates-move c m = split e.size m
    where
      split :
          (size : Option ℤ)
          → Memᴰ c (elim size [
            | none ↦ []
            | some n ↦ select (is_move_of e cfg now) (ix.missing_by_size n)
          ])
          → (n : ℤ) × Memᴰ c (ix.missing_by_size n) × (within_move_horizon c cfg now ≡ true)
      split none k = elim k [ ]
      split (some n) k =
          let (here, ok) = mem-select (is_move_of e cfg now) (ix.missing_by_size n) k in
          (n, here, ground arith)
