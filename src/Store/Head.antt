-- ===== src/Store/Head.antt =====
-- `ReconcileHead` and `MarkAdmissionFailed` of internal/store/postgres/tx.go: stage 2 for a caller that
-- evaluates the snapshot itself and computes the plan. `compute` is that caller's `ApplyFunc`; a plan
-- is a decision of the kernel with its events.
use index_core.Base.{
  Str, codes, ℕ, leb, ◌==◌, Bool, true, false, not, Option, none, some, List, if◌then◌else◌,
}
use index_core.Domain.Enums.{
  AdmissionStatus, SnapshotLifecycleState, ReconcileOutcome, AcceptanceState, is_deleted, is_failed,
}
use index_core.Domain.Entities.{SnapshotIdentity}
use index_core.Domain.Records.{ResourceRoot, Snapshot}
use index_core.Kernel.Reconcile.Types.{PriorResource, Result}
use index_core.Store.Commit.{Env, ReconcileInput, reject, commit_noop, commit_applied}
use index_core.Store.Prior.{load_prior_resources}
use index_core.Store.Tables.{
  Database, Tx, done, ◌>>=◌, ◌>>◌, require, scan, not_found, not_head, cas_conflict,
}
use index_core.Store.Tables.Rows.{
  find_root, find_snapshot, head_seq, applied_max, set_admission_status,
  applied_exists_at_generation, insert_result,
}
use index_core.Store.Terminal.{TxOutcome, has_number, superseded}

abbrev pub is_evaluated : SnapshotLifecycleState → Bool
is_evaluated SnapshotLifecycleState.evaluated = true
is_evaluated _ = false

abbrev pub has_failed : Option AcceptanceState → Bool
has_failed none = false
has_failed (some a) = is_failed a

abbrev pub expected_or : Option ℕ → ℕ → ℕ
expected_or none current = current
expected_or (some n) current = n

module _ (env : Env) (compute : List PriorResource → Snapshot → ℕ → Tx Result) where
  -- The generation that the caller expects must be the current one, whether the plan mutates or not.
  unfoldable pub apply_head :
      ReconcileInput
      → SnapshotIdentity
      → Option ℕ
      → Snapshot
      → ℕ
      → ℕ
      → Database
      → Tx (Database × TxOutcome)
  apply_head inp identity expected snap current clock db = do
    res ← compute (load_prior_resources inp.root_id db) snap current
    require (expected_or expected current == current) cas_conflict
    commit_applied env inp current snap.observed_at clock identity res db

  unfoldable pub reconcile_evaluated :
      ReconcileInput
      → SnapshotIdentity
      → Option ℕ
      → Snapshot
      → ℕ
      → ℕ
      → Database
      → Tx (Database × TxOutcome)
  reconcile_evaluated inp identity expected snap current clock db =
      if not (is_evaluated snap.lifecycle_state)
      then done (reject inp current (codes "snapshot is not in EVALUATED state") db)
      else if has_failed snap.acceptance_state
      then done (reject inp current (codes "snapshot acceptance_state is FAILED") db)
      else if applied_exists_at_generation inp.root_id identity current db
      then done (commit_noop inp current db)
      else if leb inp.admission_seq (applied_max inp.root_id db.admissions)
      then done (reject inp current superseded db)
      else apply_head inp identity expected snap current clock db

  unfoldable pub reconcile_live :
      ReconcileInput
      → SnapshotIdentity
      → Option ℕ
      → ResourceRoot
      → ℕ
      → Database
      → Tx (Database × TxOutcome)
  reconcile_live inp identity expected root clock db =
      if is_deleted root.lifecycle_state
      then done (reject inp root.current_generation (codes "root is DELETED") db)
      else scan not_found (find_snapshot inp.snapshot_id db.snapshots) >>= (λ snap.
        reconcile_evaluated inp identity expected snap root.current_generation clock db)

  unfoldable pub reconcile_head :
      ReconcileInput → SnapshotIdentity → Option ℕ → ℕ → Database → Tx (Database × TxOutcome)
  reconcile_head inp identity expected clock db = do
    root ← scan not_found (find_root inp.root_id db.roots)
    require (has_number (head_seq inp.root_id db.admissions) inp.admission_seq) not_head
    reconcile_live inp identity expected root clock db

abbrev pub failure_row : Str → ℕ → Str → Database → Database
failure_row root_id seq reason db =
    insert_result
      (record {
        root_id = root_id;
        admission_seq = seq;
        generation_number = none;
        outcome = ReconcileOutcome.failed;
        rejection_reason = some reason;
      })
      db

unfoldable pub mark_admission_failed : Str → ℕ → Str → Database → Database
mark_admission_failed root_id seq reason db =
    failure_row root_id seq reason (set_admission_status root_id seq AdmissionStatus.failed none db)
