-- ===== src/Kernel/Reconcile/Resolve/Matches.antt =====
-- What a match rests on: rules R1 to R5 seen from their outcome.
use mathlib.Core.List.{Memᴰ}
use index_core.Base.{
  Str, str_eq_iff, ℕ, ◌≡◌, refl, sym, ◌∙◌, ◌⊎◌, inl, inr, Bool, true, pos, List, [], ◌∷◌, select,
  String, subst, arith,
}
use index_core.Domain.Enums.{is_present}
use index_core.Domain.Entities.{SnapshotEntry}
use index_core.Kernel.Reconcile.Types.{Config, PriorResource, canonical_path_of}
use index_core.Kernel.Reconcile.Paths.{entry_path}
use index_core.Kernel.Reconcile.Index.{provider_key, entry_hash_key}
use index_core.Kernel.Reconcile.Index.Lookup.{
  at_path, at_provider, at_hash, missing_at_size, index_of, index_of-select,
}
use index_core.Kernel.Reconcile.Resolve.{
  matched, entry_is_stable, entry_provider_key, moved_candidates, resolve,
}
use index_core.Kernel.Reconcile.Resolve.Stages.{
  mem-select, SameProviderId, SamePath, RecognizedMove, resolve-single, moved_candidates-move,
}

-- What is known of a resource that an entry was taken for.
pub record IsGroundedMatch (prior : List PriorResource) (e : SnapshotEntry) (cfg : Config) (now : ℕ)
    (c : PriorResource) : Type 0 where
  pub known : Memᴰ c prior
  pub live : is_present c.resource_presence ≡ true
  pub basis : SameProviderId e c ⊎ SamePath e c ⊎ RecognizedMove cfg now c

module _ (prior : List PriorResource) (es : List SnapshotEntry) (e : SnapshotEntry) (cfg : Config)
    (now : ℕ) (c : PriorResource) where
  alone_in :
      (p : PriorResource → Bool) (l : List PriorResource)
      → l ≡ select p prior
      → l ≡ c ∷ []
      → Memᴰ c prior × (p c ≡ true)
  alone_in p l made alone = mem-select p prior (subst (Memᴰ c) (sym alone ∙ made) (Memᴰ.head refl))

  by_provider :
      entry_is_stable e ≡ true
      → (index_of prior es).present_by_provider (entry_provider_key e) ≡ c ∷ []
      → IsGroundedMatch prior e cfg now c
  by_provider stable h =
      let k : Str = entry_provider_key e in
      let found : Memᴰ c prior × (at_provider k c ≡ true) =
        alone_in (at_provider k) _ (index_of-select prior es k (pos 0)).0 h in
      record {
        known = found.0;
        live = ground (arith, found.1);
        basis = inl (
          stable,
          ground (arith, found.1),
          ground (arith, found.1, str_eq_iff (provider_key c) k),
        );
      }

  by_path :
      (index_of prior es).present_by_path (entry_path e) ≡ c ∷ []
      → IsGroundedMatch prior e cfg now c
  by_path h =
      let k : Str = entry_path e in
      let found : Memᴰ c prior × (at_path k c ≡ true) =
        alone_in (at_path k) _ (index_of-select prior es k (pos 0)).2 h in
      record {
        known = found.0;
        live = ground (arith, found.1);
        basis = inr (inl (ground (arith, found.1, str_eq_iff (canonical_path_of c) k)));
      }

  by_hash :
      (index_of prior es).present_by_hash (entry_hash_key e) ≡ c ∷ []
      → SamePath e c ⊎ RecognizedMove cfg now c
      → IsGroundedMatch prior e cfg now c
  by_hash h basis =
      let k : Str = entry_hash_key e in
      let found : Memᴰ c prior × (at_hash k c ≡ true) =
        alone_in (at_hash k) _ (index_of-select prior es k (pos 0)).1 h in
      record { known = found.0; live = ground (arith, found.1); basis = inr basis }

  by_move :
      moved_candidates (index_of prior es) cfg now e ≡ c ∷ [] → IsGroundedMatch prior e cfg now c
  by_move h =
      let (n, here, inside) =
        moved_candidates-move (index_of prior es) cfg now e c
          (subst (Memᴰ c) (sym h) (Memᴰ.head refl)) in
      let found : Memᴰ c prior × (missing_at_size n c ≡ true) =
        mem-select (missing_at_size n) prior
          (subst (Memᴰ c) (index_of-select prior es [] n).4 here) in
      record {
        known = found.0;
        live = ground (arith, found.1);
        basis = inr (inr (ground (arith, found.1), inside));
      }

  -- An entry is taken for a resource only if that resource is PRESENT in the inventory and
  -- has the entry's vouched-for provider id, or the entry's path, or is a missing resource still
  -- inside the move-recognition horizon.
  pub resolve-IsGroundedMatch :
      (r : String)
      → resolve (index_of prior es) e cfg now ≡ matched c r
      → IsGroundedMatch prior e cfg now c
  resolve-IsGroundedMatch r h = elim (resolve-single (index_of prior es) cfg now e c r h) [
    | inl (stable, a) ↦ by_provider stable a
    | inr (inl a) ↦ by_path a
    | inr (inr (inl (a, basis))) ↦ by_hash a basis
    | inr (inr (inr a)) ↦ by_move a
  ]
