-- ===== src/Store/Admission.antt =====
-- Stage 1: the transactions that give a snapshot its place in the queue of its root, from
-- snapshot_create_admit.go, repo_admission.go, pending.go and coordinator.go of
-- internal/store/postgres. `validate_fetch` is validateScopedFetch, which reads the fence that the
-- snapshot's provenance may hold.
use index_core.Base.{
  Str, str_eq, ℕ, Bool, true, false, ◌&&◌, not, Option, none, some, List, [], ◌∷◌, ◌++◌, any,
  if◌then◌else◌,
}
use index_core.Domain.Enums.{
  SnapshotLifecycleState, is_draft, is_submitted, is_reconciled, is_pending,
}
use index_core.Domain.Entities.{SnapshotEntry}
use index_core.Domain.Records.{Snapshot, Admission}
use index_core.Store.Tables.{
  Database, Tx, done, aborted, ◌>>=◌, ◌>>◌, require, scan, not_found, binding_mismatch,
  not_submitted, not_draft, terminal_snapshot, unique_violation,
}
use index_core.Store.Tables.Rows.{
  find_root, find_snapshot, allocate_admission, mark_snapshot_submitted,
}
use index_core.Store.Tables.Aggregates.{min_of}
use index_core.Store.Terminal.{terminal_snapshot_receipt}

abbrev pub is_open_draft : SnapshotLifecycleState → Bool
is_open_draft SnapshotLifecycleState.draft = true
is_open_draft (SnapshotLifecycleState.other []) = true
is_open_draft _ = false

abbrev pub local_id_taken : SnapshotEntry → SnapshotEntry → Bool
local_id_taken new e =
    str_eq e.snapshot_id new.snapshot_id && str_eq e.entry_local_id new.entry_local_id

-- The loop over the entries, each of which is given the id of the snapshot.
unfoldable pub insert_entries : Str → List SnapshotEntry → Database → Tx Database
insert_entries id [] db = done db
insert_entries id (e ∷ es) db =
    let new = record e { snapshot_id = id } in
    require (not (any (local_id_taken new) db.entries)) unique_violation >>= λ _.
    insert_entries id es (record db { entries = db.entries ++ new ∷ [] })

-- The stub has no verdict, whatever the caller's record says.
abbrev pub stub : Snapshot → Snapshot
stub s = record s {
  lifecycle_state = SnapshotLifecycleState.draft;
  acceptance_state = none;
  scope_shrink_corroboration = none;
}

unfoldable pub create_draft_snapshot : Snapshot → List SnapshotEntry → Database → Tx Database
create_draft_snapshot snap entries db = do
  require (is_open_draft snap.lifecycle_state) not_draft
  root ← scan not_found (find_root snap.root_id db.roots)
  require (not (any (λ s. str_eq s.snapshot_id snap.snapshot_id) db.snapshots)) unique_violation
  insert_entries snap.snapshot_id entries (record db { snapshots = db.snapshots ++ stub snap ∷ [] })

-- The PENDING admission of a snapshot, the earliest first.
unfoldable pub pending_admission : Str → Str → List Admission → Option ℕ
pending_admission root_id snapshot_id rows =
    min_of
      (λ a. str_eq a.root_id root_id && str_eq a.snapshot_id snapshot_id && is_pending a.status)
      (λ a. a.admission_seq) rows

module _ (validate_fetch : Database → Snapshot → Option ℕ → Tx (Unit {0})) where
  unfoldable pub submit_and_admit_snapshot : Str → Str → ℕ → Database → Tx (Database × ℕ)
  submit_and_admit_snapshot root_id snapshot_id clock db = do
    root ← scan not_found (find_root root_id db.roots)
    snap ← scan not_found (find_snapshot snapshot_id db.snapshots)
    require (str_eq snap.root_id root_id) binding_mismatch
    require (is_draft snap.lifecycle_state) not_draft
    validate_fetch db snap none
    db₁ ← mark_snapshot_submitted snapshot_id db
    allocate_admission root_id snapshot_id clock db₁

  unfoldable pub admit_snapshot : Str → Str → ℕ → Database → Tx (Database × ℕ)
  admit_snapshot root_id snapshot_id clock db = do
    root ← scan not_found (find_root root_id db.roots)
    snap ← scan not_found (find_snapshot snapshot_id db.snapshots)
    require (str_eq snap.root_id root_id) binding_mismatch
    require (is_submitted snap.lifecycle_state) not_submitted
    validate_fetch db snap none
    allocate_admission root_id snapshot_id clock db

  -- A snapshot without a pending admission gets one; for the coordinator only one without history.
  unfoldable pub admit_new : Bool → Str → Snapshot → ℕ → Database → Tx (Database × ℕ × Bool)
  admit_new handoff root_id snap clock db = do
    require (not (handoff && any (λ a. str_eq a.snapshot_id snap.snapshot_id) db.admissions))
        terminal_snapshot
    validate_fetch db snap none
    admitted ← allocate_admission root_id snap.snapshot_id clock db
    done (admitted.0, admitted.1, false)

  -- What the snapshot's state asks for: its terminal receipt, its pending admission or a new one.
  unfoldable pub resume : Bool → Str → ℕ → Snapshot → ℕ → Database → Tx (Database × ℕ × Bool)
  resume handoff root_id current snap clock db =
      if is_submitted snap.lifecycle_state
      then elim (pending_admission root_id snap.snapshot_id db.admissions) [
        | some seq ↦ done (db, seq, true)
        | none ↦ admit_new handoff root_id snap clock db
      ]
      else if handoff && is_reconciled snap.lifecycle_state
      then terminal_snapshot_receipt root_id snap.snapshot_id 0 current db
        >>= (λ r. done (db, r.0, true))
      else aborted not_submitted

  -- The flag of the result says that nothing was allocated.
  unfoldable pub admit_or_resume_snapshot :
      Bool → Str → Str → ℕ → Database → Tx (Database × ℕ × Bool)
  admit_or_resume_snapshot handoff root_id snapshot_id clock db = do
    root ← scan not_found (find_root root_id db.roots)
    snap ← scan not_found (find_snapshot snapshot_id db.snapshots)
    require (str_eq snap.root_id root_id) binding_mismatch
    resume handoff root_id root.current_generation snap clock db
