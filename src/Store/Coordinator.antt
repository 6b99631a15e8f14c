-- ===== src/Store/Coordinator.antt =====
-- Stage 2 of internal/store/postgres/coordinator.go: the reconcile transaction on the head of a
-- root's queue, and the coordinator's two entry points. A function of the code that runs two
-- transactions returns the tables beside its result, since the first one stays committed.
pub mod Ended
pub mod Outcomes
pub mod Decisions
use index_core.Base.{
  codes, str_eq, ℕ, ltb, leb, ◌==◌, pos, false, not, Option, none, some, List, length, count_if,
  if◌then◌else◌,
}
use index_core.Domain.Enums.{
  ScopeShrinkCorroboration, is_present, is_failed, is_deleted, is_submitted, is_reconciled,
}
use index_core.Domain.Entities.{SnapshotEntry, SnapshotIdentity, DirectoryCoverage}
use index_core.Domain.Records.{ResourceRoot, Snapshot}
use index_core.Kernel.Identity.{directory_digest}
use index_core.Kernel.Pipeline as Pipeline
use index_core.Kernel.Pipeline.{evaluate_snapshot, is_full}
use index_core.Kernel.Reconcile.Types as Types
use index_core.Kernel.Reconcile.Types.{Config, PriorResource, validate}
use index_core.Kernel.Reconcile.Run.{reconcile}
use index_core.Kernel.Reconcile.Directory.{reconcile_directory}
use index_core.Store.Commit.{Env, ReconcileInput, reject, stale_input, commit_noop, commit_applied}
use index_core.Store.Prior.{
  load_prior_resources, list_snapshot_entries, fresh_or_unknown, assurance_or_unknown,
}
use index_core.Store.Shrink.{significant_shrink, derive_qualified_corroboration}
use index_core.Store.Tables.{
  Database, Tx, done, aborted, ◌>>=◌, ◌>>◌, require, scan, binding_mismatch, not_head,
  not_submitted, scoped_fetch_stale, invalid_coverage, query_failed,
}
use index_core.Store.Tables.Rows.{
  find_root, find_snapshot, find_admission, head_seq, applied_max, set_snapshot_evaluated,
  applied_exists_at_generation,
}
use index_core.Store.Terminal.{TxOutcome, has_number, terminal_snapshot_receipt}

-- `snap.ObservedAt`, or the clock where that is the zero time.
abbrev pub decision_time : Snapshot → ℕ → ℕ
decision_time snap clock = if snap.observed_at == 0 then clock else snap.observed_at

unfoldable pub pipeline_evidence : Snapshot → ℕ → ℕ → ScopeShrinkCorroboration → Pipeline.Evidence
pipeline_evidence snap entry_count prior_present corroboration = record {
  traversal_status = snap.traversal_status;
  skipped_scopes = snap.skipped_scopes;
  skipped_known_empty = snap.skipped_scopes_known_empty;
  has_error_summary = is_full snap.error_summary;
  freshness = fresh_or_unknown snap.freshness_evidence;
  assurance = assurance_or_unknown snap.collector_completeness_assurance;
  used_cache = false;
  entry_count = pos entry_count;
  prior_present = pos prior_present;
  corroboration = corroboration;
}

abbrev pub identity_of : Env → Option DirectoryCoverage → SnapshotIdentity → SnapshotIdentity
identity_of env none id = id
identity_of env (some coverage) id = directory_digest env.digest env.decimal id coverage

module _ (env : Env) where
  -- The evaluation against the inventory that is read under the lock.
  unfoldable pub evaluate_head :
      ReconcileInput
      → Snapshot
      → List PriorResource
      → List SnapshotEntry
      → Option DirectoryCoverage
      → Config
      → ℕ
      → Database
      → Pipeline.Result
  evaluate_head inp snap prior entries coverage cfg clock db =
      let prior_present = count_if (λ p. is_present p.resource_presence) prior in
      let corroboration =
        if significant_shrink env.float64 (pos prior_present) (pos (length entries))
        then derive_qualified_corroboration env.text_less inp.root_id inp.admission_seq
            inp.snapshot_id entries db
        else ScopeShrinkCorroboration.shrink_none in
      let eval =
        evaluate_snapshot env.digest env.float64 entries prior
          (pipeline_evidence snap (length entries) prior_present corroboration) cfg
          (decision_time snap clock) in
      record eval { identity = identity_of env coverage eval.identity }

  unfoldable pub decide :
      Snapshot
      → List PriorResource
      → List SnapshotEntry
      → Option DirectoryCoverage
      → Pipeline.Result
      → Config
      → ℕ
      → Types.Result
  decide snap prior entries none eval cfg clock =
      reconcile prior entries eval.acceptance cfg (decision_time snap clock) snap.snapshot_id
  decide snap prior entries (some coverage) eval cfg clock =
      reconcile_directory prior entries coverage.path cfg (decision_time snap clock)
        snap.snapshot_id

  -- From the verdict on: FAILED, the identity of the current generation, out of order, or applied.
  unfoldable pub settle :
      ReconcileInput
      → Snapshot
      → ℕ
      → List PriorResource
      → List SnapshotEntry
      → Option DirectoryCoverage
      → Config
      → ℕ
      → Pipeline.Result
      → Database
      → Tx (Database × TxOutcome)
  settle inp snap current prior entries coverage cfg clock eval db =
      if is_failed eval.acceptance
      then done (reject inp current (codes "snapshot acceptance_state is FAILED") db)
      else if applied_exists_at_generation inp.root_id eval.identity current db
      then done (commit_noop inp current db)
      else if leb inp.admission_seq (applied_max inp.root_id db.admissions)
      then done (stale_input inp current db)
      else commit_applied env inp current snap.observed_at clock eval.identity
          (decide snap prior entries coverage eval cfg clock) db

  unfoldable pub conclude :
      ReconcileInput
      → Snapshot
      → ℕ
      → List PriorResource
      → List SnapshotEntry
      → Option DirectoryCoverage
      → Config
      → ℕ
      → Database
      → Tx (Database × TxOutcome)
  conclude inp snap current prior entries coverage cfg clock db = do
    let eval = evaluate_head inp snap prior entries coverage cfg clock db
    evaluated ← set_snapshot_evaluated inp.snapshot_id eval.acceptance (some eval.corroboration) db
    settle inp snap current prior entries coverage cfg clock eval evaluated

  -- Directory coverage that does not hold makes the input stale.
  unfoldable pub conclude_covered :
      ReconcileInput
      → Snapshot
      → ℕ
      → List PriorResource
      → List SnapshotEntry
      → Tx (Option DirectoryCoverage)
      → Config
      → ℕ
      → Database
      → Tx (Database × TxOutcome)
  conclude_covered inp snap current prior entries (done coverage) cfg clock db =
      conclude inp snap current prior entries coverage cfg clock db
  conclude_covered inp snap current prior entries (aborted invalid_coverage) cfg clock db =
      done (stale_input inp current db)
  conclude_covered inp snap current prior entries (aborted e) cfg clock db = aborted e

  -- And so does a scoped fetch whose fence is stale.
  unfoldable pub conclude_fenced :
      ReconcileInput
      → Snapshot
      → ℕ
      → Tx (Unit {0})
      → Config
      → ℕ
      → Database
      → Tx (Database × TxOutcome)
  conclude_fenced inp snap current (done ok) cfg clock db =
      let entries = list_snapshot_entries env.text_less inp.snapshot_id db in
      conclude_covered inp snap current (load_prior_resources inp.root_id db) entries
        (env.directory_coverage db snap entries current) cfg clock db
  conclude_fenced inp snap current (aborted scoped_fetch_stale) cfg clock db =
      done (stale_input inp current db)
  conclude_fenced inp snap current (aborted e) cfg clock db = aborted e

  unfoldable pub reconcile_admitted :
      ReconcileInput → ResourceRoot → Snapshot → Config → ℕ → Database → Tx (Database × TxOutcome)
  reconcile_admitted inp root snap cfg clock db =
      if is_deleted root.lifecycle_state
      then done (reject inp root.current_generation (codes "root is DELETED") db)
      else if not (is_submitted snap.lifecycle_state)
      then aborted not_submitted
      else conclude_fenced inp snap root.current_generation
          (env.validate_scoped_fetch db snap (some inp.admission_seq)) cfg clock db

  -- The snapshot must be bound to the head of the queue.
  unfoldable pub reconcile_bound :
      ReconcileInput → ResourceRoot → Snapshot → Config → ℕ → Database → Tx (Database × TxOutcome)
  reconcile_bound inp root snap cfg clock db = do
    require (has_number (head_seq inp.root_id db.admissions) inp.admission_seq) not_head
    a ← scan query_failed (find_admission inp.root_id inp.admission_seq db.admissions)
    require (str_eq a.snapshot_id inp.snapshot_id) binding_mismatch
    reconcile_admitted inp root snap cfg clock db

  unfoldable pub resolve_head :
      ReconcileInput → ResourceRoot → Snapshot → Config → ℕ → Database → Tx (Database × TxOutcome)
  resolve_head inp root snap cfg clock db =
      if is_reconciled snap.lifecycle_state
      then terminal_snapshot_receipt inp.root_id inp.snapshot_id inp.admission_seq
          root.current_generation db
        >>= (λ r. done (db, r.1))
      else reconcile_bound inp root snap cfg clock db

  unfoldable pub reconcile_head_safe :
      ReconcileInput → Config → ℕ → Database → Tx (Database × TxOutcome)
  reconcile_head_safe inp cfg clock db = do
    require (ltb 0 inp.admission_seq) binding_mismatch
    root ← scan query_failed (find_root inp.root_id db.roots)
    snap ← scan binding_mismatch (find_snapshot inp.snapshot_id db.snapshots)
    require (str_eq snap.root_id inp.root_id) binding_mismatch
    resolve_head inp root snap cfg clock db
