-- ===== src/Kernel/Reconcile/Run.antt =====
-- `Reconcile` and `applyMatched` of internal/kernel/reconcile/reconcile.go: every entry of a
-- snapshot is resolved against the inventory, and what was not observed gathers removal evidence.
pub mod Tally
pub mod Removals
pub mod Spared
use index_core.Base.{
  Str, str_eq, contains, ℕ, ◌+◌, ℤ, pos, ltb_ℤ, Bool, true, false, ◌&&◌, ◌||◌, not, Option, none,
  some, is_some, List, [], ◌∷◌, ◌++◌, path_dir, if◌then◌else◌, String,
}
use index_core.Domain.Enums.{AcceptanceState, is_present, is_complete, is_failed}
use index_core.Domain.Entities.{SnapshotEntry}
use index_core.Kernel.Reconcile.Types.{
  Config, PriorResource, deref_str, has_missing_evidence, canonical_path_of, Kind, add, update,
  rename, move, unchanged, reset_removal_evidence, missing_evidence, removal_candidate,
  confirm_removed, conflict, generation_producing, Transition, transition, Observation, Counts,
  Conflict, Result, empty_result,
}
use index_core.Kernel.Reconcile.Paths.{entry_path, equal_int64, equal_time}
use index_core.Kernel.Reconcile.Index.{PriorIndex, build_prior_index, index_observation}
use index_core.Kernel.Reconcile.Resolve.{
  IdentityResolution, matched, new_resource, unresolved, resolve,
}
use index_core.Kernel.Reconcile.Resolve
use index_core.Kernel.Reconcile.Missing.{missing_transition}

-- `res.Transitions = append(res.Transitions, t)`.
abbrev pub emit : Transition → Result → Result
emit t res = record res { transitions = res.transitions ++ t ∷ [] }

abbrev pub observe : Str → SnapshotEntry → Result → Result
observe id e res = record res {
  observations = res.observations ++ record { resource_id = id; entry = e } ∷ [];
}

unfoldable pub path_changed : PriorResource → SnapshotEntry → Bool
path_changed p e =
    not (str_eq (canonical_path_of p) []) && not (str_eq (canonical_path_of p) (entry_path e))

unfoldable pub parent_changed : PriorResource → SnapshotEntry → Bool
parent_changed p e = not (str_eq (path_dir (canonical_path_of p)) (path_dir (entry_path e)))

unfoldable pub attrs_changed : PriorResource → SnapshotEntry → Bool
attrs_changed p e =
    not (equal_int64 p.size e.size)
    || not (equal_time p.mtime e.mtime)
    || not (str_eq (deref_str p.content_hash) (deref_str e.content_hash))
    || not (str_eq (deref_str p.content_type) (deref_str e.content_type))

unfoldable pub has_any_evidence : PriorResource → Bool
has_any_evidence p =
    has_missing_evidence p
    || is_some p.missing_since
    || ltb_ℤ (pos 0) p.consecutive_complete_missing

abbrev pub reset_transition : PriorResource → Transition
reset_transition p = record (transition reset_removal_evidence p.resource_id) {
  prior = some p;
  reason = "observed again; reset removal evidence";
}

abbrev pub path_transition : Kind → PriorResource → SnapshotEntry → Transition
path_transition k p e = record (transition k p.resource_id) {
  prior = some p;
  entry = some e;
  new_path = some (entry_path e);
  reason = "path change";
}

abbrev pub update_transition : PriorResource → SnapshotEntry → Transition
update_transition p e = record (transition update p.resource_id) {
  prior = some p;
  entry = some e;
  reason = "attribute change";
}

abbrev pub unchanged_transition : PriorResource → SnapshotEntry → Transition
unchanged_transition p e = record (transition unchanged p.resource_id) {
  prior = some p;
  entry = some e;
}

abbrev pub add_transition : Str → SnapshotEntry → String → Transition
add_transition id e reason = record (transition add id) { entry = some e; reason = reason }

abbrev pub conflict_transition : SnapshotEntry → String → Transition
conflict_transition e reason = record (transition conflict []) { entry = some e; reason = reason }

-- The reset that comes first when a resource is seen again.
unfoldable pub reset_evidence : PriorResource → Result → Result
reset_evidence p res = if has_any_evidence p then emit (reset_transition p) res else res

unfoldable pub change_path : PriorResource → SnapshotEntry → Result → Result
change_path p e res =
    if parent_changed p e
    then record (emit (path_transition move p e) res) {
      counts = record (res.counts) { moved = res.counts.moved + 1 };
    }
    else record (emit (path_transition rename p e) res) {
      counts = record (res.counts) { renamed = res.counts.renamed + 1 };
    }

unfoldable pub change_attributes : PriorResource → SnapshotEntry → Result → Result
change_attributes p e res = record (emit (update_transition p e) res) {
  counts = record (res.counts) { updated = res.counts.updated + 1 };
}

unfoldable pub leave_unchanged : PriorResource → SnapshotEntry → Result → Result
leave_unchanged p e res = record (emit (unchanged_transition p e) res) {
  counts = record (res.counts) { unchanged = res.counts.unchanged + 1 };
}

abbrev pub mark_mutated : Result → Result
mark_mutated res = record res { mutates_canonical = true }

-- The two halves of a change, path first.
unfoldable pub change : PriorResource → SnapshotEntry → Result → Result
change p e res =
    let moved = if path_changed p e then change_path p e (mark_mutated res) else mark_mutated res in
    if attrs_changed p e then change_attributes p e moved else moved

unfoldable pub apply_matched : PriorResource → SnapshotEntry → Result → Result
apply_matched p e res =
    let seen = reset_evidence p res in
    if not (path_changed p e) && not (attrs_changed p e)
    then leave_unchanged p e seen
    else change p e seen

-- The loop's variables: the result, the ids observed so far, and the ids handed out.
pub record RunState : Type 0 where
  pub result : Result
  pub observed : List Str
  pub ids : ℕ

abbrev start : RunState
start = record { result = empty_result; observed = []; ids = 0 }

unfoldable pub add_resource : Str → SnapshotEntry → String → Result → Result
add_resource id e reason res = observe id e (record (emit (add_transition id e reason) res) {
  counts = record (res.counts) { added = res.counts.added + 1 };
  mutates_canonical = true;
})

unfoldable pub add_conflict : SnapshotEntry → String → Result → Result
add_conflict e reason res = record (emit (conflict_transition e reason) res) {
  counts = record (res.counts) { conflict = res.counts.conflict + 1 };
  conflicts =
      res.conflicts
      ++ record { entry_local_id = e.entry_local_id; resource_id = []; reason = reason } ∷ [];
}

-- What an entry's resolution does; CONFLICT and UNRESOLVED are one case.
unfoldable pub take_resolution : Config → SnapshotEntry → RunState → IdentityResolution → RunState
take_resolution cfg e s (matched p reason) = record s {
  result = observe p.resource_id e (apply_matched p e s.result);
  observed = p.resource_id ∷ s.observed;
}
take_resolution cfg e s (new_resource reason) = record s {
  result = add_resource (cfg.new_id s.ids) e reason s.result;
  ids = s.ids + 1;
}
take_resolution cfg e s (unresolved reason) = record s { result = add_conflict e reason s.result }
take_resolution cfg e s (Resolve.conflict reason) = record s {
  result = add_conflict e reason s.result;
}

unfoldable pub take_entries : PriorIndex → Config → ℕ → RunState → List SnapshotEntry → RunState
take_entries ix cfg now s [] = s
take_entries ix cfg now s (e ∷ es) =
    take_entries ix cfg now (take_resolution cfg e s (resolve ix e cfg now)) es

-- R9 at one resource that the snapshot did not hold.
unfoldable pub miss : Config → ℕ → Str → PriorResource → Result → Result
miss cfg now snapshot_id p res =
    let t = missing_transition p cfg now snapshot_id in
    emit t (record res {
      mutates_canonical = res.mutates_canonical || generation_producing t.kind;
      counts = elim t.kind [
        | confirm_removed ↦ record (res.counts) { removed = res.counts.removed + 1 }
        | _ ↦ record (res.counts) { missing_evidence = res.counts.missing_evidence + 1 }
      ];
    })

unfoldable pub take_missing : Config → ℕ → Str → List Str → List PriorResource → Result → Result
take_missing cfg now snapshot_id observed [] res = res
take_missing cfg now snapshot_id observed (p ∷ ps) res =
    take_missing cfg now snapshot_id observed ps (
      if not (is_present p.resource_presence) || contains observed p.resource_id
      then res
      else miss cfg now snapshot_id p res)

-- The run over the entries.
unfoldable pub observe_entries : List PriorResource → List SnapshotEntry → Config → ℕ → RunState
observe_entries prior entries cfg now =
    take_entries (index_observation (build_prior_index prior) entries) cfg now start entries

unfoldable pub reconcile :
    List PriorResource → List SnapshotEntry → AcceptanceState → Config → ℕ → Str → Result
reconcile prior entries acceptance cfg now snapshot_id =
    if is_failed acceptance
    then empty_result
    else let s = observe_entries prior entries cfg now in
      if is_complete acceptance
      then take_missing cfg now snapshot_id s.observed prior s.result
      else s.result
