-- ===== src/Store/Fifo/Steps.antt =====
-- The transactions that write the admission table or its counters, but for `MarkAdmissionFailed` and
-- the lease of `ClaimHead`, as a step relation.
use index_core.Base.{Str, ℕ, Bool, ◌≡◌, List, Option}
use index_core.Domain.Enums.{RootLifecycleState}
use index_core.Domain.Entities.{SnapshotEntry, SnapshotIdentity}
use index_core.Domain.Records.{Snapshot}
use index_core.Kernel.Reconcile.Types.{Config, PriorResource, Result}
use index_core.Store.Admission.{
  create_draft_snapshot, submit_and_admit_snapshot, admit_snapshot, admit_or_resume_snapshot,
}
use index_core.Store.Commit.{Env, ReconcileInput}
use index_core.Store.Coordinator.{reconcile_head_safe}
use index_core.Store.Head
use index_core.Store.RootAdmin.{RootLifecycleResult, transition_root_lifecycle}
use index_core.Store.Tables.{Database, Tx, done}
use index_core.Store.Terminal.{TxOutcome}

-- One committed draft, admission, reconcile of a head by the coordinator or by `ReconcileHead`, or
-- change of a root's lifecycle.
pub data Step (env : Env) (marshal : RootLifecycleState → Str) : Database → Database → Type 0 where
  create_draft :
      {db later : Database} (snap : Snapshot) (entries : List SnapshotEntry)
      → create_draft_snapshot snap entries db ≡ done later
      → Step env marshal db later
  submit :
      {db : Database} {r : Database × ℕ} (root_id snapshot_id : Str) (clock : ℕ)
      → submit_and_admit_snapshot env.validate_scoped_fetch root_id snapshot_id clock db ≡ done r
      → Step env marshal db r.0
  admit :
      {db : Database} {r : Database × ℕ} (root_id snapshot_id : Str) (clock : ℕ)
      → admit_snapshot env.validate_scoped_fetch root_id snapshot_id clock db ≡ done r
      → Step env marshal db r.0
  resumed :
      {db : Database} {r : Database × ℕ × Bool} (handoff : Bool) (root_id snapshot_id : Str)
      (clock : ℕ)
      → admit_or_resume_snapshot env.validate_scoped_fetch handoff root_id snapshot_id clock db
        ≡ done r
      → Step env marshal db r.0
  reconcile_head :
      {db : Database} {r : Database × TxOutcome} (inp : ReconcileInput) (cfg : Config) (clock : ℕ)
      → reconcile_head_safe env inp cfg clock db ≡ done r
      → Step env marshal db r.0
  reconcile_evaluated_head :
      {db : Database} {r : Database × TxOutcome}
      (compute : List PriorResource → Snapshot → ℕ → Tx Result) (inp : ReconcileInput)
      (identity : SnapshotIdentity) (expected : Option ℕ) (clock : ℕ)
      → Head.reconcile_head env compute inp identity expected clock db ≡ done r
      → Step env marshal db r.0
  change_root :
      {db : Database} {r : Database × RootLifecycleResult} (root_id : Str)
      (next : RootLifecycleState) (clock : ℕ)
      → transition_root_lifecycle marshal root_id next clock db ≡ done r
      → Step env marshal db r.0

pub data Steps (env : Env) (marshal : RootLifecycleState → Str) (start : Database)
    : Database → Type 0 where
  started : Steps env marshal start start
  taken :
      {db later : Database}
      → Steps env marshal start db
      → Step env marshal db later
      → Steps env marshal start later
