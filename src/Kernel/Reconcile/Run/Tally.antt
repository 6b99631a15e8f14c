-- ===== src/Kernel/Reconcile/Run/Tally.antt =====
-- The counts of a result are the numbers of its transitions.
use index_core.Base.{
  Str, ℕ, ◌+◌, ◌≡◌, ◌⊎◌, Bool, true, false, ◌||◌, List, [], ◌∷◌, ◌++◌, arith, count_if,
  count_if-snoc, any, any-snoc, if◌then◌else◌, length, length-append, String, contains, not,
}
use index_core.Domain.Enums.{AcceptanceState, is_present}
use index_core.Domain.Entities.{SnapshotEntry}
use index_core.Kernel.Reconcile.Types.{
  Config, PriorResource, Kind, add, update, rename, move, unchanged, missing_evidence,
  removal_candidate, confirm_removed, conflict, generation_producing, Transition, Result,
  empty_result,
}
use index_core.Kernel.Reconcile.Index.{PriorIndex}
use index_core.Kernel.Reconcile.Resolve.{
  IdentityResolution, matched, new_resource, unresolved, resolve,
}
use index_core.Kernel.Reconcile.Resolve
use index_core.Kernel.Reconcile.Missing.{missing_kind, missing_transition}
use index_core.Kernel.Reconcile.Run.{
  reset_transition, path_transition, update_transition, unchanged_transition, add_transition,
  conflict_transition, observe, path_changed, attrs_changed, mark_mutated, reset_evidence,
  change_path, change_attributes, leave_unchanged, change, apply_matched, RunState, add_resource,
  add_conflict, take_resolution, take_entries, miss, take_missing, observe_entries, reconcile,
}

abbrev pub is_add : Kind → Bool
is_add add = true
is_add _ = false

abbrev pub is_update : Kind → Bool
is_update update = true
is_update _ = false

abbrev pub is_rename : Kind → Bool
is_rename rename = true
is_rename _ = false

abbrev pub is_move : Kind → Bool
is_move move = true
is_move _ = false

abbrev pub is_confirm : Kind → Bool
is_confirm confirm_removed = true
is_confirm _ = false

abbrev pub is_unchanged : Kind → Bool
is_unchanged unchanged = true
is_unchanged _ = false

abbrev pub is_evidence : Kind → Bool
is_evidence missing_evidence = true
is_evidence removal_candidate = true
is_evidence _ = false

abbrev pub is_conflict : Kind → Bool
is_conflict conflict = true
is_conflict _ = false

-- How many transitions of the result are of a kind.
abbrev pub of_kind : (Kind → Bool) → Result → ℕ
of_kind test res = count_if (λ t. test t.kind) res.transitions

pub record IsTallied (res : Result) : Type 0 where
  pub added : res.counts.added ≡ of_kind is_add res
  pub updated : res.counts.updated ≡ of_kind is_update res
  pub renamed : res.counts.renamed ≡ of_kind is_rename res
  pub moved : res.counts.moved ≡ of_kind is_move res
  pub removed : res.counts.removed ≡ of_kind is_confirm res
  pub unchanged : res.counts.unchanged ≡ of_kind is_unchanged res
  pub evidence : res.counts.missing_evidence ≡ of_kind is_evidence res
  pub conflict : res.counts.conflict ≡ of_kind is_conflict res
  pub conflicts : res.counts.conflict ≡ length res.conflicts
  pub mutates : res.mutates_canonical ≡ any (λ t. generation_producing t.kind) res.transitions

empty_result-IsTallied : IsTallied empty_result
unfolding count_if any
empty_result-IsTallied = ground arith

abbrev CountsOne : (Kind → Bool) → List Transition → Transition → Type 0
CountsOne test ts t =
    count_if (λ u. test u.kind) (ts ++ t ∷ [])
    ≡ count_if (λ u. test u.kind) ts + (if test t.kind then 1 else 0)

-- What one more transition adds to each of the counts.
record Emitted (ts : List Transition) (t : Transition) : Type 0 where
  added : CountsOne is_add ts t
  updated : CountsOne is_update ts t
  renamed : CountsOne is_rename ts t
  moved : CountsOne is_move ts t
  removed : CountsOne is_confirm ts t
  unchanged : CountsOne is_unchanged ts t
  evidence : CountsOne is_evidence ts t
  conflict : CountsOne is_conflict ts t
  mutates :
      any (λ u. generation_producing u.kind) (ts ++ t ∷ [])
      ≡ (any (λ u. generation_producing u.kind) ts || generation_producing t.kind)

emitted : (ts : List Transition) (t : Transition) → Emitted ts t
emitted ts t = record {
  added = count_if-snoc (λ u. is_add u.kind) ts t;
  updated = count_if-snoc (λ u. is_update u.kind) ts t;
  renamed = count_if-snoc (λ u. is_rename u.kind) ts t;
  moved = count_if-snoc (λ u. is_move u.kind) ts t;
  removed = count_if-snoc (λ u. is_confirm u.kind) ts t;
  unchanged = count_if-snoc (λ u. is_unchanged u.kind) ts t;
  evidence = count_if-snoc (λ u. is_evidence u.kind) ts t;
  conflict = count_if-snoc (λ u. is_conflict u.kind) ts t;
  mutates = any-snoc (λ u. generation_producing u.kind) ts t;
}

module _ (p : PriorResource) (e : SnapshotEntry) where
  reset_evidence-IsTallied : (res : Result) → IsTallied res → IsTallied (reset_evidence p res)
  unfolding reset_evidence
  reset_evidence-IsTallied res h = ground (arith, emitted res.transitions (reset_transition p))

  leave_unchanged-IsTallied : (res : Result) → IsTallied res → IsTallied (leave_unchanged p e res)
  unfolding leave_unchanged
  leave_unchanged-IsTallied res h =
      ground (arith, emitted res.transitions (unchanged_transition p e))

  -- The flag that `change` sets early is true of the transition that it appends.
  change_path-IsTallied :
      (res : Result) → IsTallied res → IsTallied (change_path p e (mark_mutated res))
  unfolding change_path
  change_path-IsTallied res h = ground (
    arith,
    emitted res.transitions (path_transition move p e),
    emitted res.transitions (path_transition rename p e),
  )

  change_attributes-IsTallied :
      (res : Result) → IsTallied res → IsTallied (change_attributes p e (mark_mutated res))
  unfolding change_attributes
  change_attributes-IsTallied res h =
      ground (arith, emitted res.transitions (update_transition p e))

  change_path-mutates :
      (res : Result) → (change_path p e (mark_mutated res)).mutates_canonical ≡ true
  unfolding change_path
  change_path-mutates res = ground arith

  mark_mutated_same : (res : Result) → res.mutates_canonical ≡ true → mark_mutated res ≡ res
  mark_mutated_same res h = ground arith

  change-IsTallied :
      (res : Result)
      → (path_changed p e ≡ true) ⊎ (attrs_changed p e ≡ true)
      → IsTallied res
      → IsTallied (change p e res)
  unfolding change
  change-IsTallied res some_change h = ground (
    arith,
    change_path-IsTallied res h,
    change_attributes-IsTallied res h,
    mark_mutated_same (change_path p e (mark_mutated res)) (change_path-mutates res),
    change_attributes-IsTallied (change_path p e (mark_mutated res)) (change_path-IsTallied res h),
  )

  apply_matched-IsTallied : (res : Result) → IsTallied res → IsTallied (apply_matched p e res)
  unfolding apply_matched
  apply_matched-IsTallied res h =
      let seen = reset_evidence-IsTallied res h in
      ground (
        arith,
        leave_unchanged-IsTallied (reset_evidence p res) seen,
        change-IsTallied (reset_evidence p res),
      )

add_resource-IsTallied :
    (id : Str) (e : SnapshotEntry) (reason : String) (res : Result)
    → IsTallied res
    → IsTallied (add_resource id e reason res)
unfolding add_resource
add_resource-IsTallied id e reason res h =
    ground (arith, emitted res.transitions (add_transition id e reason))

add_conflict-IsTallied :
    (e : SnapshotEntry) (reason : String) (res : Result)
    → IsTallied res
    → IsTallied (add_conflict e reason res)
unfolding add_conflict
add_conflict-IsTallied e reason res h = ground (
  arith,
  emitted res.transitions (conflict_transition e reason),
  length-append res.conflicts
      (record { entry_local_id = e.entry_local_id; resource_id = []; reason = reason } ∷ []),
)

observe-IsTallied :
    (id : Str) (e : SnapshotEntry) (res : Result) → IsTallied res → IsTallied (observe id e res)
observe-IsTallied id e res h = ground arith

take_resolution-IsTallied :
    (cfg : Config) (e : SnapshotEntry) (s : RunState) (r : IdentityResolution)
    → IsTallied s.result
    → IsTallied (take_resolution cfg e s r).result
unfolding take_resolution
take_resolution-IsTallied cfg e s (matched p reason) h =
    observe-IsTallied p.resource_id e _ (apply_matched-IsTallied p e s.result h)
take_resolution-IsTallied cfg e s (new_resource reason) h =
    add_resource-IsTallied (cfg.new_id s.ids) e reason s.result h
take_resolution-IsTallied cfg e s (unresolved reason) h = add_conflict-IsTallied e reason s.result h
take_resolution-IsTallied cfg e s (Resolve.conflict reason) h =
    add_conflict-IsTallied e reason s.result h

take_entries-IsTallied :
    (ix : PriorIndex) (cfg : Config) (now : ℕ) (s : RunState) (es : List SnapshotEntry)
    → IsTallied s.result
    → IsTallied (take_entries ix cfg now s es).result
unfolding take_entries
take_entries-IsTallied ix cfg now s [] h = h
take_entries-IsTallied ix cfg now s (e ∷ es) h =
    take_entries-IsTallied ix cfg now (take_resolution cfg e s (resolve ix e cfg now)) es
      (take_resolution-IsTallied cfg e s (resolve ix e cfg now) h)

-- R9 emits nothing but evidence and confirmed removals.
missing_transition-kind :
    (p : PriorResource) (cfg : Config) (now : ℕ) (snapshot_id : Str)
    → (is_evidence (missing_transition p cfg now snapshot_id).kind ≡ true)
      ⊎ ((missing_transition p cfg now snapshot_id).kind ≡ confirm_removed)
unfolding missing_transition missing_kind
missing_transition-kind p cfg now snapshot_id = ground arith

miss-IsTallied :
    (cfg : Config) (now : ℕ) (snapshot_id : Str) (p : PriorResource) (res : Result)
    → IsTallied res
    → IsTallied (miss cfg now snapshot_id p res)
unfolding miss
miss-IsTallied cfg now snapshot_id p res h = ground (
  arith,
  missing_transition-kind p cfg now snapshot_id,
  emitted res.transitions (missing_transition p cfg now snapshot_id),
)

take_missing-IsTallied :
    (cfg : Config) (now : ℕ) (snapshot_id : Str) (observed : List Str) (ps : List PriorResource)
    (res : Result)
    → IsTallied res
    → IsTallied (take_missing cfg now snapshot_id observed ps res)
unfolding take_missing
take_missing-IsTallied cfg now snapshot_id observed [] res h = h
take_missing-IsTallied cfg now snapshot_id observed (p ∷ ps) res h =
    take_missing-IsTallied cfg now snapshot_id observed ps _
      (elim (not (is_present p.resource_presence) || contains observed p.resource_id)
        as (λ b. IsTallied (if b then res else miss cfg now snapshot_id p res)) [
          | true ↦ h
          | false ↦ miss-IsTallied cfg now snapshot_id p res h
        ])

-- For every inventory, entries, verdict and policy, each count of the result is the number of its
-- transitions of that kind, and the result mutates the canonical state exactly if one of its
-- transitions produces a generation.
pub reconcile-IsTallied :
    (prior : List PriorResource) (entries : List SnapshotEntry) (acceptance : AcceptanceState)
    (cfg : Config) (now : ℕ) (snapshot_id : Str)
    → IsTallied (reconcile prior entries acceptance cfg now snapshot_id)
unfolding reconcile observe_entries
reconcile-IsTallied prior entries acceptance cfg now snapshot_id =
    let s = observe_entries prior entries cfg now in
    let seen : IsTallied s.result =
      take_entries-IsTallied _ cfg now _ entries empty_result-IsTallied in
    ground (
      arith,
      empty_result-IsTallied,
      seen,
      take_missing-IsTallied cfg now snapshot_id s.observed prior s.result seen,
    )
