-- ===== src/Kernel/Reconcile/Resolve/Fingerprint.antt =====
-- R8: what a match says of the content hashes.
use mathlib.Core.List.{Memᴰ}
use index_core.Base.{
  Str, str_eq_iff, ℕ, ◌≡◌, refl, sym, ◌∙◌, inl, inr, ◌⊎◌, true, false, some, pos, List, [], ◌∷◌,
  String, subst, arith,
}
use index_core.Domain.Entities.{SnapshotEntry}
use index_core.Kernel.Reconcile.Types.{Config, PriorResource, deref_str}
use index_core.Kernel.Reconcile.Paths.{entry_path, is_filled, entry_hash_comparable, hash_agrees}
use index_core.Kernel.Reconcile.Index.{PriorIndex, hash_key, entry_hash_key}
use index_core.Kernel.Reconcile.Index.Lookup.{at_hash, index_of, index_of-select}
use index_core.Kernel.Reconcile.Resolve.{
  matched, entry_is_stable, provider_stage, hash_candidates, hash_same_path, hash_stage, size_stage,
  resolve,
}
use index_core.Kernel.Reconcile.Resolve.Stages.{mem-select, hash_match-single}

hash_agrees-key :
    (c : PriorResource) (e : SnapshotEntry)
    → hash_agrees c.content_hash e.content_hash c.hash_algorithm e.hash_algorithm ≡ true
    → hash_key c ≡ entry_hash_key e
unfolding hash_agrees
hash_agrees-key c e h = ground (
  arith,
  str_eq_iff (deref_str c.content_hash) (deref_str e.content_hash),
  str_eq_iff (deref_str c.hash_algorithm) (deref_str e.hash_algorithm),
)

module _ (ix : PriorIndex) (cfg : Config) (now : ℕ) (e : SnapshotEntry) where
  hash_stage-key :
      (same : List PriorResource) (c : PriorResource) (r : String)
      → hash_stage ix cfg now e same ≡ some (matched c r)
      → (hash_key c ≡ entry_hash_key e) ⊎ (ix.present_by_hash (entry_hash_key e) ≡ c ∷ [])
  unfolding hash_stage hash_same_path hash_candidates
  hash_stage-key [] c r h =
      ground (arith, hash_match-single ix cfg now e [] (ix.present_by_hash (entry_hash_key e)) c r)
  hash_stage-key (x ∷ []) c r h = ground (
    arith,
    hash_agrees-key x e,
    hash_match-single ix cfg now e (x ∷ []) (ix.present_by_hash (entry_hash_key e)) c r,
  )
  hash_stage-key (x ∷ y ∷ l) c r h = ground (
    arith,
    hash_match-single ix cfg now e (x ∷ y ∷ l) (ix.present_by_hash (entry_hash_key e)) c r,
  )

  size_stage-key :
      (same : List PriorResource) (c : PriorResource) (r : String)
      → size_stage ix cfg now e same ≡ matched c r
      → entry_hash_comparable e ≡ true
      → is_filled c.content_hash ≡ true
      → hash_key c ≡ entry_hash_key e
  unfolding size_stage
  size_stage-key [] c r h comparable filled = ground arith
  size_stage-key (x ∷ []) c r h comparable filled = ground (arith, hash_agrees-key x e)
  size_stage-key (x ∷ y ∷ l) c r h comparable filled = ground arith

  resolve-key :
      (c : PriorResource) (r : String)
      → entry_is_stable e ≡ false
      → resolve ix e cfg now ≡ matched c r
      → entry_hash_comparable e ≡ true
      → is_filled c.content_hash ≡ true
      → (hash_key c ≡ entry_hash_key e) ⊎ (ix.present_by_hash (entry_hash_key e) ≡ c ∷ [])
  unfolding resolve provider_stage
  resolve-key c r unstable h comparable filled = ground (
    arith,
    hash_stage-key (ix.present_by_path (entry_path e)) c r,
    size_stage-key (ix.present_by_path (entry_path e)) c r,
  )

-- Where an entry does not vouch for a provider id and has a content hash with its algorithm, a match
-- with a resource that has a content hash means that hash and algorithm, as the index spells them, are
-- the same on both sides.
pub resolve-hash_key :
    (prior : List PriorResource) (es : List SnapshotEntry) (e : SnapshotEntry) (cfg : Config)
    (now : ℕ) (c : PriorResource) (r : String)
    → entry_is_stable e ≡ false
    → resolve (index_of prior es) e cfg now ≡ matched c r
    → entry_hash_comparable e ≡ true
    → is_filled c.content_hash ≡ true
    → hash_key c ≡ entry_hash_key e
resolve-hash_key prior es e cfg now c r unstable h comparable filled =
    elim (resolve-key (index_of prior es) cfg now e c r unstable h comparable filled) [
      | inl same ↦ same
      | inr alone ↦
          let k : Str = entry_hash_key e in
          let made = (index_of-select prior es k (pos 0)).1 in
          let found : Memᴰ c prior × (at_hash k c ≡ true) =
            mem-select (at_hash k) prior (subst (Memᴰ c) (sym alone ∙ made) (Memᴰ.head refl)) in
          ground (arith, found.1, str_eq_iff (hash_key c) k)
    ]
