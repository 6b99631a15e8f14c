-- ===== src/Store/Tables/Rows.antt =====
-- The statements of internal/store/postgres/repo_*.go on the tables. An INSERT aborts where the
-- primary key exists already, and a bigint or integer column does not wrap: a value past its range
-- aborts. `clock` is now() of the transaction.
use index_core.Base.{
  Str, str_eq, ℕ, ◌+◌, ◌^◌, ltb, ◌==◌, Bool, true, false, ◌&&◌, ◌||◌, not, Option, none, some, List,
  [], ◌∷◌, ◌++◌, any, if◌then◌else◌,
}
use index_core.Domain.Enums.{
  SnapshotLifecycleState, AcceptanceState, ScopeShrinkCorroboration, AdmissionStatus,
  SnapshotIdentityKind, revision_token, deterministic_digest, is_draft, is_submitted, is_pending,
  is_applied,
}
use index_core.Domain.Entities.{SnapshotIdentity}
use index_core.Domain.Records.{
  ResourceRoot, Generation, Snapshot, Admission, AppliedSnapshot, JournalEvent, ReconcileResult,
}
use index_core.Store.Tables.{
  Database, Tx, done, ◌>>=◌, ◌>>◌, require, scan, not_found, unique_violation, out_of_range,
}
use index_core.Store.Tables.Aggregates.{max_of, min_of}

unfoldable pub find_root : Str → List ResourceRoot → Option ResourceRoot
find_root root_id [] = none
find_root root_id (r ∷ rs) =
    let rest = find_root root_id rs in if str_eq r.root_id root_id then some r else rest

-- `GetSnapshot`, and the other queries of one snapshot.
unfoldable pub find_snapshot : Str → List Snapshot → Option Snapshot
find_snapshot id [] = none
find_snapshot id (s ∷ ss) =
    let rest = find_snapshot id ss in if str_eq s.snapshot_id id then some s else rest

unfoldable pub update_root :
    (ResourceRoot → ResourceRoot) → Str → List ResourceRoot → List ResourceRoot
update_root f root_id [] = []
update_root f root_id (r ∷ rs) =
    (if str_eq r.root_id root_id then f r else r) ∷ update_root f root_id rs

unfoldable pub update_snapshot : (Snapshot → Snapshot) → Str → List Snapshot → List Snapshot
update_snapshot f id [] = []
update_snapshot f id (s ∷ ss) =
    (if str_eq s.snapshot_id id then f s else s) ∷ update_snapshot f id ss

abbrev pub of_root : Str → Admission → Bool
of_root root_id a = str_eq a.root_id root_id

abbrev pub pending_of : Str → Admission → Bool
pending_of root_id a = str_eq a.root_id root_id && is_pending a.status

abbrev pub admission_at : Str → ℕ → Admission → Bool
admission_at root_id seq a = str_eq a.root_id root_id && (a.admission_seq == seq)

unfoldable pub find_admission : Str → ℕ → List Admission → Option Admission
find_admission root_id seq [] = none
find_admission root_id seq (a ∷ rows) =
    let rest = find_admission root_id seq rows in
    if admission_at root_id seq a then some a else rest

-- The tail that `AllocateAdmission`, `AdmitSnapshot` and the others share: the counter of the root,
-- then the PENDING row.
unfoldable pub allocate_admission : Str → Str → ℕ → Database → Tx (Database × ℕ)
allocate_admission root_id snapshot_id clock db = do
  root ← scan not_found (find_root root_id db.roots)
  let seq = root.latest_admission_seq + 1
  require (ltb seq (2 ^ 63)) out_of_range
  require (not (any (admission_at root_id seq) db.admissions)) unique_violation
  done (
    record db {
      roots =
          update_root (λ r. record r { latest_admission_seq = seq; updated_at = clock }) root_id
            db.roots;
      admissions =
          db.admissions
          ++ (record {
            root_id = root_id;
            admission_seq = seq;
            snapshot_id = snapshot_id;
            status = AdmissionStatus.pending;
            applied_generation = none;
          }
              ∷ []);
    },
    seq,
  )

-- `SELECT min(admission_seq) ... status = 'PENDING'`.
unfoldable pub head_seq : Str → List Admission → Option ℕ
head_seq root_id rows = min_of (pending_of root_id) (λ a. a.admission_seq) rows

unfoldable pub set_status : Str → ℕ → AdmissionStatus → Option ℕ → List Admission → List Admission
set_status root_id seq status gen [] = []
set_status root_id seq status gen (a ∷ rows) =
    (if admission_at root_id seq a
      then record a { status = status; applied_generation = gen }
      else a)
    ∷ set_status root_id seq status gen rows

unfoldable pub set_admission_status : Str → ℕ → AdmissionStatus → Option ℕ → Database → Database
set_admission_status root_id seq status gen db = record db {
  admissions = set_status root_id seq status gen db.admissions;
}

unfoldable pub applied_max : Str → List Admission → ℕ
applied_max root_id rows =
    elim (max_of (λ a. of_root root_id a && is_applied a.status) (λ a. a.admission_seq) rows) [
      | none ↦ 0
      | some n ↦ n
    ]

unfoldable pub set_snapshot_lifecycle_state : Str → SnapshotLifecycleState → Database → Database
set_snapshot_lifecycle_state id state db = record db {
  snapshots = update_snapshot (λ s. record s { lifecycle_state = state }) id db.snapshots;
}

unfoldable pub mark_snapshot_submitted : Str → Database → Tx Database
mark_snapshot_submitted id db = do
  s ← scan not_found (find_snapshot id db.snapshots)
  require (is_draft s.lifecycle_state) not_found
  done (set_snapshot_lifecycle_state id SnapshotLifecycleState.submitted db)

abbrev pub with_verdict : AcceptanceState → Option ScopeShrinkCorroboration → Snapshot → Snapshot
with_verdict acceptance corroboration s = record s {
  acceptance_state = some acceptance;
  scope_shrink_corroboration = corroboration;
  lifecycle_state = SnapshotLifecycleState.evaluated;
}

unfoldable pub set_snapshot_evaluated :
    Str → AcceptanceState → Option ScopeShrinkCorroboration → Database → Tx Database
set_snapshot_evaluated id acceptance corroboration db = do
  s ← scan not_found (find_snapshot id db.snapshots)
  require (is_submitted s.lifecycle_state) not_found
  done (record db {
    snapshots = update_snapshot (with_verdict acceptance corroboration) id db.snapshots;
  })

unfoldable pub same_kind : SnapshotIdentityKind → SnapshotIdentityKind → Bool
same_kind revision_token revision_token = true
same_kind deterministic_digest deterministic_digest = true
same_kind _ _ = false

unfoldable pub same_identity : SnapshotIdentity → SnapshotIdentity → Bool
same_identity a b =
    same_kind a.kind b.kind
    && str_eq a.namespace b.namespace
    && str_eq a.version b.version
    && str_eq a.value b.value

-- The primary key of the application history.
abbrev pub applied_at : Str → SnapshotIdentity → ℕ → AppliedSnapshot → Bool
applied_at root_id id gen a =
    str_eq a.root_id root_id && same_identity a.identity id && (a.applied_generation == gen)

unfoldable pub applied_exists_at_generation : Str → SnapshotIdentity → ℕ → Database → Bool
applied_exists_at_generation root_id id gen db =
    any (applied_at root_id id gen) db.applied_snapshots

unfoldable pub insert_applied_snapshot : AppliedSnapshot → Database → Tx Database
insert_applied_snapshot a db = do
  require (not (any (applied_at a.root_id a.identity a.applied_generation) db.applied_snapshots))
      unique_violation
  done (record db { applied_snapshots = db.applied_snapshots ++ (a ∷ []) })

unfoldable pub max_applied_generation : Str → SnapshotIdentity → Database → ℕ
max_applied_generation root_id id db =
    elim (max_of (λ a. str_eq a.root_id root_id && same_identity a.identity id)
      (λ a. a.applied_generation) db.applied_snapshots) [ none ↦ 0 | some n ↦ n ]

abbrev pub generation_at : Str → ℕ → Generation → Bool
generation_at root_id gen g = str_eq g.root_id root_id && (g.generation_number == gen)

unfoldable pub insert_generation : Generation → Database → Tx Database
insert_generation g db = do
  require (not (any (generation_at g.root_id g.generation_number) db.generations)) unique_violation
  done (record db { generations = db.generations ++ (g ∷ []) })

abbrev pub event_of : Str → JournalEvent → Bool
event_of root_id e = str_eq e.root_id root_id

abbrev pub event_in : Str → ℕ → JournalEvent → Bool
event_in root_id gen e = str_eq e.root_id root_id && (e.generation_number == gen)

-- 0 where the journal of the root is empty.
unfoldable pub max_event_seq : Str → List JournalEvent → ℕ
max_event_seq root_id rows = elim (max_of (event_of root_id) (λ e. e.event_seq) rows) [
  | none ↦ 0
  | some n ↦ n
]

unfoldable pub next_event_seq : Str → List JournalEvent → ℕ
next_event_seq root_id rows = elim (max_of (event_of root_id) (λ e. e.event_seq) rows) [
  | none ↦ 1
  | some n ↦ n + 1
]

unfoldable pub next_intra_generation_seq : Str → ℕ → List JournalEvent → ℕ
next_intra_generation_seq root_id gen rows =
    elim (max_of (event_in root_id gen) (λ e. e.intra_generation_seq) rows) [
      | none ↦ 1
      | some n ↦ n + 1
    ]

-- The two unique keys of the journal.
abbrev pub collides : JournalEvent → JournalEvent → Bool
collides new e =
    str_eq e.root_id new.root_id
    && ((e.event_seq == new.event_seq)
        || (e.generation_number == new.generation_number)
          && (e.intra_generation_seq == new.intra_generation_seq))

-- A Go counter that wraps is negative, which the CHECK of its column refuses.
unfoldable pub append_journal_event : JournalEvent → Database → Tx Database
append_journal_event e db = do
  require (ltb e.event_seq (2 ^ 63) && ltb e.intra_generation_seq (2 ^ 31)) out_of_range
  require (not (any (collides e) db.journal)) unique_violation
  done (record db { journal = db.journal ++ (e ∷ []) })

unfoldable pub insert_result : ReconcileResult → Database → Database
insert_result r db = record db { results = db.results ++ (r ∷ []) }
