-- ===== src/Kernel/Reconcile/Run/Removals.antt =====
-- Where the removal steps of `Reconcile` come from.
use mathlib.Core.List.{append_assoc, append-nil}
use index_core.Base.{
  Str, contains, ℕ, ◌≡◌, refl, sym, ap, ◌∙◌, any, str_eq, ◌||◌, Bool, true, false, ◌&&◌, not, List,
  [], ◌∷◌, ◌++◌, map, select, All, All-append, if◌then◌else◌, arith,
}
use index_core.Domain.Enums.{AcceptanceState, is_present, is_complete, is_failed}
use index_core.Domain.Entities.{SnapshotEntry}
use index_core.Kernel.Reconcile.Types.{
  Config, PriorResource, Kind, missing_evidence, removal_candidate, confirm_removed, rename, move,
  Transition, Result, empty_result,
}
use index_core.Kernel.Reconcile.Index.{PriorIndex}
use index_core.Kernel.Reconcile.Index.Lookup.{index_of}
use index_core.Kernel.Reconcile.Resolve.{
  IdentityResolution, matched, new_resource, unresolved, resolve,
}
use index_core.Kernel.Reconcile.Resolve
use index_core.Kernel.Reconcile.Missing.{missing_transition}
use index_core.Kernel.Reconcile.Run.{
  reset_transition, path_transition, update_transition, unchanged_transition, add_transition,
  conflict_transition, mark_mutated, reset_evidence, change_path, change_attributes,
  leave_unchanged, change, apply_matched, RunState, add_resource, add_conflict, take_resolution,
  take_entries, miss, take_missing, observe_entries, reconcile,
}

-- The kinds that write removal evidence or a tombstone.
abbrev pub is_removal_step : Kind → Bool
is_removal_step missing_evidence = true
is_removal_step removal_candidate = true
is_removal_step confirm_removed = true
is_removal_step _ = false

abbrev pub NoRemovalStep : Transition → Type 0
NoRemovalStep t = is_removal_step t.kind ≡ false

abbrev NoRemovals : Result → Type 0
NoRemovals res = All NoRemovalStep res.transitions

snoc :
    (ts : List Transition) (t : Transition)
    → NoRemovalStep t
    → All NoRemovalStep ts
    → All NoRemovalStep (ts ++ t ∷ [])
snoc ts t h all = All-append NoRemovalStep ts (t ∷ []) all (h, tt)

module _ (p : PriorResource) (e : SnapshotEntry) where
  reset_evidence-NoRemovals : (res : Result) → NoRemovals res → NoRemovals (reset_evidence p res)
  unfolding reset_evidence
  reset_evidence-NoRemovals res h = ground (arith, snoc res.transitions (reset_transition p) refl h)

  change_path-NoRemovals : (res : Result) → NoRemovals res → NoRemovals (change_path p e res)
  unfolding change_path
  change_path-NoRemovals res h = ground (
    arith,
    snoc res.transitions (path_transition move p e) refl h,
    snoc res.transitions (path_transition rename p e) refl h,
  )

  change_attributes-NoRemovals :
      (res : Result) → NoRemovals res → NoRemovals (change_attributes p e res)
  unfolding change_attributes
  change_attributes-NoRemovals res h = snoc res.transitions (update_transition p e) refl h

  change-NoRemovals : (res : Result) → NoRemovals res → NoRemovals (change p e res)
  unfolding change
  change-NoRemovals res h =
      let moved = change_path-NoRemovals (mark_mutated res) h in
      ground (
        arith,
        moved,
        change_attributes-NoRemovals (mark_mutated res) h,
        change_attributes-NoRemovals (change_path p e (mark_mutated res)) moved,
      )

  apply_matched-NoRemovals : (res : Result) → NoRemovals res → NoRemovals (apply_matched p e res)
  unfolding apply_matched leave_unchanged
  apply_matched-NoRemovals res h =
      let seen = reset_evidence-NoRemovals res h in
      ground (
        arith,
        snoc (reset_evidence p res).transitions (unchanged_transition p e) refl seen,
        change-NoRemovals (reset_evidence p res) seen,
      )

take_resolution-NoRemovals :
    (cfg : Config) (e : SnapshotEntry) (s : RunState) (r : IdentityResolution)
    → NoRemovals s.result
    → NoRemovals (take_resolution cfg e s r).result
unfolding take_resolution add_resource add_conflict
take_resolution-NoRemovals cfg e s (matched p reason) h = apply_matched-NoRemovals p e s.result h
take_resolution-NoRemovals cfg e s (new_resource reason) h =
    snoc s.result.transitions (add_transition (cfg.new_id s.ids) e reason) refl h
take_resolution-NoRemovals cfg e s (unresolved reason) h =
    snoc s.result.transitions (conflict_transition e reason) refl h
take_resolution-NoRemovals cfg e s (Resolve.conflict reason) h =
    snoc s.result.transitions (conflict_transition e reason) refl h

take_entries-NoRemovals :
    (ix : PriorIndex) (cfg : Config) (now : ℕ) (s : RunState) (es : List SnapshotEntry)
    → NoRemovals s.result
    → NoRemovals (take_entries ix cfg now s es).result
unfolding take_entries
take_entries-NoRemovals ix cfg now s [] h = h
take_entries-NoRemovals ix cfg now s (e ∷ es) h =
    take_entries-NoRemovals ix cfg now (take_resolution cfg e s (resolve ix e cfg now)) es
      (take_resolution-NoRemovals cfg e s (resolve ix e cfg now) h)

pub observe_entries-no_removal :
    (prior : List PriorResource) (entries : List SnapshotEntry) (cfg : Config) (now : ℕ)
    → All NoRemovalStep (observe_entries prior entries cfg now).result.transitions
unfolding observe_entries
observe_entries-no_removal prior entries cfg now = take_entries-NoRemovals _ cfg now _ entries tt

-- `Reconcile` under any verdict but COMPLETE writes no removal evidence and removes nothing.
pub reconcile-no_removal :
    (prior : List PriorResource) (entries : List SnapshotEntry) (acceptance : AcceptanceState)
    (cfg : Config) (now : ℕ) (snapshot_id : Str)
    → is_complete acceptance ≡ false
    → All
        (λ t. is_removal_step t.kind ≡ false)
        (reconcile prior entries acceptance cfg now snapshot_id).transitions
unfolding reconcile
reconcile-no_removal prior entries acceptance cfg now snapshot_id h =
    rw h
      (elim (is_failed acceptance)
        as (λ b.
          NoRemovals (if b then empty_result else (observe_entries prior entries cfg now).result)) [
            | true ↦ tt
            | false ↦ observe_entries-no_removal prior entries cfg now
          ])

-- PRESENT, and not taken for an entry.
abbrev pub is_missed : List Str → PriorResource → Bool
is_missed observed p = is_present p.resource_presence && not (contains observed p.resource_id)

take_missing-transitions :
    (cfg : Config) (now : ℕ) (snapshot_id : Str) (observed : List Str) (ps : List PriorResource)
    (res : Result)
    → (take_missing cfg now snapshot_id observed ps res).transitions
      ≡ res.transitions
        ++ map (λ p. missing_transition p cfg now snapshot_id) (select (is_missed observed) ps)
unfolding take_missing miss select
take_missing-transitions cfg now snapshot_id observed [] res = sym (append-nil res.transitions)
take_missing-transitions cfg now snapshot_id observed (p ∷ ps) res =
    let rest =
      map (λ q. missing_transition q cfg now snapshot_id) (select (is_missed observed) ps) in
    ground (
      arith,
      take_missing-transitions cfg now snapshot_id observed ps res,
      take_missing-transitions cfg now snapshot_id observed ps (miss cfg now snapshot_id p res),
      append_assoc res.transitions (missing_transition p cfg now snapshot_id ∷ []) rest,
    )

-- Some entry resolves to the resource.
abbrev pub is_match_of : Str → IdentityResolution → Bool
is_match_of id (matched p reason) = str_eq p.resource_id id
is_match_of id _ = false

abbrev pub is_matched : List PriorResource → List SnapshotEntry → Config → ℕ → Str → Bool
is_matched prior entries cfg now id =
    any (λ e. is_match_of id (resolve (index_of prior entries) e cfg now)) entries

take_resolution-observed :
    (cfg : Config) (e : SnapshotEntry) (s : RunState) (r : IdentityResolution) (id : Str)
    → contains (take_resolution cfg e s r).observed id
      ≡ (is_match_of id r || contains s.observed id)
unfolding take_resolution contains
take_resolution-observed cfg e s (matched p reason) id = refl
take_resolution-observed cfg e s (new_resource reason) id = refl
take_resolution-observed cfg e s (unresolved reason) id = refl
take_resolution-observed cfg e s (Resolve.conflict reason) id = refl

take_entries-observed :
    (ix : PriorIndex) (cfg : Config) (now : ℕ) (s : RunState) (es : List SnapshotEntry) (id : Str)
    → contains (take_entries ix cfg now s es).observed id
      ≡ (any (λ e. is_match_of id (resolve ix e cfg now)) es || contains s.observed id)
unfolding take_entries any
take_entries-observed ix cfg now s [] id = refl
take_entries-observed ix cfg now s (e ∷ es) id =
    let r = resolve ix e cfg now in
    take_entries-observed ix cfg now (take_resolution cfg e s r) es id
    ∙ ground (arith, take_resolution-observed cfg e s r id)

observe_entries-observed :
    (prior : List PriorResource) (entries : List SnapshotEntry) (cfg : Config) (now : ℕ) (id : Str)
    → contains (observe_entries prior entries cfg now).observed id
      ≡ is_matched prior entries cfg now id
unfolding observe_entries contains
observe_entries-observed prior entries cfg now id =
    take_entries-observed (index_of prior entries) cfg now _ entries id ∙ ground arith

select-ext {ℓ} :
    {A : Type ℓ} (p q : A → Bool) (xs : List A) → ((x : A) → p x ≡ q x) → select p xs ≡ select q xs
unfolding select
select-ext p q [] h = refl
select-ext p q (x ∷ xs) h = ground (arith, h x, select-ext p q xs h)

-- What the loop over the missing resources emits, by the loop's own variable.
pub reconcile-missed :
    (prior : List PriorResource) (entries : List SnapshotEntry) (cfg : Config) (now : ℕ)
    (snapshot_id : Str)
    → let s = observe_entries prior entries cfg now in
      (reconcile prior entries AcceptanceState.complete cfg now snapshot_id).transitions
      ≡ s.result.transitions
        ++ map (λ p. missing_transition p cfg now snapshot_id) (select (is_missed s.observed) prior)
unfolding reconcile
reconcile-missed prior entries cfg now snapshot_id =
    let s = observe_entries prior entries cfg now in
    take_missing-transitions cfg now snapshot_id s.observed prior s.result

-- A COMPLETE snapshot first emits what its entries say, with no removal step among it, and then
-- exactly one step of removal evidence for each PRESENT resource that no entry resolves to, in the
-- order of the inventory.
pub reconcile-complete :
    (prior : List PriorResource) (entries : List SnapshotEntry) (cfg : Config) (now : ℕ)
    (snapshot_id : Str)
    → let s = observe_entries prior entries cfg now in
      All (λ t. is_removal_step t.kind ≡ false) s.result.transitions
      × ((reconcile prior entries AcceptanceState.complete cfg now snapshot_id).transitions
          ≡ s.result.transitions
            ++ map
                (λ p. missing_transition p cfg now snapshot_id)
                (select
                  (λ p.
                    is_present p.resource_presence
                    && not (is_matched prior entries cfg now p.resource_id))
                  prior))
reconcile-complete prior entries cfg now snapshot_id =
    let s = observe_entries prior entries cfg now in
    (
      observe_entries-no_removal prior entries cfg now,
      reconcile-missed prior entries cfg now snapshot_id
          ∙ ap
              (λ ps. s.result.transitions ++ map (λ p. missing_transition p cfg now snapshot_id) ps)
              (select-ext (is_missed s.observed) _ prior (λ p.
                ap (λ b. is_present p.resource_presence && not b)
                  (observe_entries-observed prior entries cfg now p.resource_id))),
    )
