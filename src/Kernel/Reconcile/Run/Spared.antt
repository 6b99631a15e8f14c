-- ===== src/Kernel/Reconcile/Run/Spared.antt =====
-- What an entry was taken for is spared by the removal steps of its snapshot.
use mathlib.Core.List.{Memᴰ}
use index_core.Base.{
  Str, str_eq_refl, contains, ℕ, ◌≡◌, refl, sym, ap, ◌∙◌, ◌≢◌, inl, inr, true, List, [], ◌∷◌, map,
  select, All, subst, All-map, All-append, Bool-cases, String, arith,
}
use index_core.Domain.Enums.{AcceptanceState}
use index_core.Domain.Entities.{SnapshotEntry}
use index_core.Kernel.Reconcile.Types.{Config, PriorResource, Transition}
use index_core.Kernel.Reconcile.Index.{PriorIndex}
use index_core.Kernel.Reconcile.Index.Lookup.{index_of}
use index_core.Kernel.Reconcile.Resolve.{
  IdentityResolution, matched, new_resource, unresolved, resolve,
}
use index_core.Kernel.Reconcile.Resolve
use index_core.Kernel.Reconcile.Run.Removals.{
  is_removal_step, NoRemovalStep, is_missed, reconcile-no_removal, reconcile-missed,
  observe_entries-no_removal,
}
use index_core.Kernel.Reconcile.Missing.{missing_transition}
use index_core.Kernel.Reconcile.Run.{
  RunState, take_resolution, take_entries, observe_entries, reconcile,
}

contains-take_resolution :
    (cfg : Config) (e : SnapshotEntry) (s : RunState) (r : IdentityResolution) (id : Str)
    → contains s.observed id ≡ true
    → contains (take_resolution cfg e s r).observed id ≡ true
unfolding take_resolution contains
contains-take_resolution cfg e s (matched p reason) id h = ground (arith, h)
contains-take_resolution cfg e s (new_resource reason) id h = h
contains-take_resolution cfg e s (unresolved reason) id h = h
contains-take_resolution cfg e s (Resolve.conflict reason) id h = h

contains-take_entries :
    (ix : PriorIndex) (cfg : Config) (now : ℕ) (s : RunState) (es : List SnapshotEntry) (id : Str)
    → contains s.observed id ≡ true
    → contains (take_entries ix cfg now s es).observed id ≡ true
unfolding take_entries
contains-take_entries ix cfg now s [] id h = h
contains-take_entries ix cfg now s (e ∷ es) id h =
    contains-take_entries ix cfg now (take_resolution cfg e s (resolve ix e cfg now)) es id
      (contains-take_resolution cfg e s (resolve ix e cfg now) id h)

take_matched-contains :
    (cfg : Config) (e : SnapshotEntry) (s : RunState) (p : PriorResource) (reason : String)
    → contains (take_resolution cfg e s (matched p reason)).observed p.resource_id ≡ true
unfolding take_resolution contains
take_matched-contains cfg e s p reason = ground (arith, str_eq_refl p.resource_id)

take_entries-contains :
    (ix : PriorIndex) (cfg : Config) (now : ℕ) (s : RunState) (es : List SnapshotEntry)
    {e : SnapshotEntry} (p : PriorResource) (reason : String)
    → Memᴰ e es
    → resolve ix e cfg now ≡ matched p reason
    → contains (take_entries ix cfg now s es).observed p.resource_id ≡ true
unfolding take_entries
take_entries-contains ix cfg now s [] p reason m h = elim m [ ]
take_entries-contains ix cfg now s (x ∷ es) p reason (Memᴰ.head q) h =
    let r = ap (λ y. resolve ix y cfg now) (sym q) ∙ h in
    contains-take_entries ix cfg now (take_resolution cfg x s (resolve ix x cfg now)) es
      p.resource_id
      (subst (λ v. contains (take_resolution cfg x s v).observed p.resource_id ≡ true) (sym r)
        (take_matched-contains cfg x s p reason))
take_entries-contains ix cfg now s (x ∷ es) p reason (Memᴰ.tail m) h =
    take_entries-contains ix cfg now (take_resolution cfg x s (resolve ix x cfg now)) es p reason m
      h

abbrev SparesRemoved : Str → Transition → Type 0
SparesRemoved id t = is_removal_step t.kind ≡ true → t.resource_id ≢ id

missing_transition-resource_id :
    (p : PriorResource) (cfg : Config) (now : ℕ) (snapshot_id : Str)
    → (missing_transition p cfg now snapshot_id).resource_id ≡ p.resource_id
unfolding missing_transition
missing_transition-resource_id p cfg now snapshot_id = ground arith

missed-spares :
    (cfg : Config) (now : ℕ) (snapshot_id id : Str) (observed : List Str) (ps : List PriorResource)
    → contains observed id ≡ true
    → All
        (SparesRemoved id)
        (map (λ p. missing_transition p cfg now snapshot_id) (select (is_missed observed) ps))
unfolding select
missed-spares cfg now snapshot_id id observed [] h = tt
missed-spares cfg now snapshot_id id observed (p ∷ ps) h =
    let rest = missed-spares cfg now snapshot_id id observed ps h in
    elim (Bool-cases (is_missed observed p)) [
      | inl missed ↦ rw missed (
        (λ _ same. ground (
          arith,
          missing_transition-resource_id p cfg now snapshot_id,
          ap (contains observed)
              (sym (missing_transition-resource_id p cfg now snapshot_id) ∙ same),
        )),
        rest,
      )
      | inr kept ↦ rw kept rest
    ]

no_removal-spares :
    (id : Str) (ts : List Transition) → All NoRemovalStep ts → All (SparesRemoved id) ts
no_removal-spares id ts h = All-map (λ t none_here removes. cc) ts h

complete-spares :
    (prior : List PriorResource) (entries : List SnapshotEntry) (cfg : Config) (now : ℕ)
    (snapshot_id : Str) {e : SnapshotEntry} (p : PriorResource) (reason : String)
    → Memᴰ e entries
    → resolve (index_of prior entries) e cfg now ≡ matched p reason
    → All
        (SparesRemoved p.resource_id)
        (reconcile prior entries AcceptanceState.complete cfg now snapshot_id).transitions
unfolding observe_entries
complete-spares prior entries cfg now snapshot_id p reason m h =
    let calm = observe_entries-no_removal prior entries cfg now in
    let made = reconcile-missed prior entries cfg now snapshot_id in
    let s = observe_entries prior entries cfg now in
    let seen = take_entries-contains (index_of prior entries) cfg now _ entries p reason m h in
    subst (All (SparesRemoved p.resource_id)) (sym made) (
      All-append (SparesRemoved p.resource_id) s.result.transitions _
        (no_removal-spares p.resource_id s.result.transitions calm)
        (missed-spares cfg now snapshot_id p.resource_id s.observed prior seen))

-- What an entry was taken for gathers no removal evidence from that snapshot, whichever verdict it
-- has: no removal step of the result names the resource's id.
pub matched-not_removed :
    (prior : List PriorResource) (entries : List SnapshotEntry) (acceptance : AcceptanceState)
    (cfg : Config) (now : ℕ) (snapshot_id : Str) {e : SnapshotEntry} (p : PriorResource)
    (reason : String)
    → Memᴰ e entries
    → resolve (index_of prior entries) e cfg now ≡ matched p reason
    → All
        (λ t. is_removal_step t.kind ≡ true → t.resource_id ≢ p.resource_id)
        (reconcile prior entries acceptance cfg now snapshot_id).transitions
matched-not_removed prior entries acceptance cfg now snapshot_id p reason m h =
    elim acceptance
      as (λ a.
        All (SparesRemoved p.resource_id)
          (reconcile prior entries a cfg now snapshot_id).transitions) [
            | AcceptanceState.complete ↦
                complete-spares prior entries cfg now snapshot_id p reason m h
            | AcceptanceState.partial ↦ no_removal-spares p.resource_id _ (
                reconcile-no_removal prior entries AcceptanceState.partial cfg now snapshot_id refl)
            | AcceptanceState.failed ↦
                no_removal-spares p.resource_id _ (
                  reconcile-no_removal prior entries AcceptanceState.failed cfg now snapshot_id
                    refl)
            | AcceptanceState.stale ↦
                no_removal-spares p.resource_id _ (
                  reconcile-no_removal prior entries AcceptanceState.stale cfg now snapshot_id refl)
            | AcceptanceState.suspicious ↦ no_removal-spares p.resource_id _ (
                reconcile-no_removal prior entries AcceptanceState.suspicious cfg now snapshot_id
                  refl)
          ]
