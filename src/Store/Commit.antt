-- ===== src/Store/Commit.antt =====
-- How a reconcile transaction of internal/store/postgres/coordinator.go and tx.go ends: rejected,
-- stale, without effect or applied, with the writes of each in the source's order.
pub mod Effects
use index_core.Base.{
  Str, ℕ, ◌+◌, ◌^◌, ltb, ◌==◌, ℤ, Bool, true, false, Option, none, some, List, [], ◌∷◌, ◌++◌, map,
  if◌then◌else◌, String,
}
use index_core.Domain.Enums.{AdmissionStatus, SnapshotLifecycleState, ReconcileOutcome}
use index_core.Domain.Entities.{SnapshotEntry, SnapshotIdentity, DirectoryCoverage}
use index_core.Domain.Records.{Snapshot}
use index_core.Kernel.Completeness.{Float64}
use index_core.Kernel.Reconcile.Types.{Counts, Result}
use index_core.Store.Inventory.{apply_transitions}
use index_core.Store.Plan.{PlannedEvent, plan_events}
use index_core.Store.Prior.{observation_row}
use index_core.Store.Tables.{
  Database, Tx, done, ◌>>=◌, ◌>>◌, require, scan, cas_conflict, out_of_range,
}
use index_core.Store.Tables.Rows.{
  find_root, update_root, set_admission_status, set_snapshot_lifecycle_state,
  insert_applied_snapshot, insert_generation, next_event_seq, next_intra_generation_seq,
  append_journal_event, insert_result,
}
use index_core.Store.Terminal.{TxOutcome, unchanged_outcome, superseded}

pub record ReconcileInput : Type 0 where
  pub root_id : Str
  pub admission_seq : ℕ
  pub snapshot_id : Str

-- What the transaction takes from elsewhere: SHA-256, encoding/json and strconv, float64, the
-- collation, and the checks of scoped_fetch_fence.go and directory_coverage.go.
pub record Env : Type 1 where
  pub digest : Str → Str
  pub decimal : ℤ → Str
  pub marshal : String → Str
  pub marshal_counts : Counts → Str
  pub float64 : Float64
  pub text_less : Str → Str → Bool
  pub validate_scoped_fetch : Database → Snapshot → Option ℕ → Tx (Unit {0})
  pub directory_coverage :
      Database → Snapshot → List SnapshotEntry → ℕ → Tx (Option DirectoryCoverage)

abbrev pub reason_of : Str → Option Str
reason_of [] = none
reason_of (c ∷ s) = some (c ∷ s)

abbrev pub keeps_generation : ReconcileOutcome → Bool
keeps_generation ReconcileOutcome.reconciled = true
keeps_generation ReconcileOutcome.noop = true
keeps_generation _ = false

unfoldable pub record_result : ReconcileInput → ℕ → ReconcileOutcome → Str → Database → Database
record_result inp gen outcome reason db =
    insert_result
      (record {
        root_id = inp.root_id;
        admission_seq = inp.admission_seq;
        generation_number = if keeps_generation outcome then some gen else none;
        outcome = outcome;
        rejection_reason = reason_of reason;
      })
      db

-- The three writes that end an admission.
unfoldable pub finish :
    ReconcileInput
    → AdmissionStatus
    → Option ℕ
    → SnapshotLifecycleState
    → ℕ
    → ReconcileOutcome
    → Str
    → Database
    → Database
finish inp status applied state gen outcome reason db = record_result inp gen outcome reason (
    set_snapshot_lifecycle_state inp.snapshot_id state
      (set_admission_status inp.root_id inp.admission_seq status applied db))

abbrev pub refused : AdmissionStatus → ℕ → TxOutcome
refused status gen = record {
  status = status;
  snapshot_lifecycle = SnapshotLifecycleState.rejected;
  generation = gen;
  applied_generation = gen;
  mutated = false;
}

unfoldable pub reject : ReconcileInput → ℕ → Str → Database → Database × TxOutcome
reject inp gen reason db = (
  finish inp AdmissionStatus.rejected none SnapshotLifecycleState.rejected gen
      ReconcileOutcome.rejected reason db,
  refused AdmissionStatus.rejected gen,
)

unfoldable pub stale_input : ReconcileInput → ℕ → Database → Database × TxOutcome
stale_input inp gen db = (
  finish inp AdmissionStatus.stale_input none SnapshotLifecycleState.rejected gen
      ReconcileOutcome.stale_input superseded db,
  refused AdmissionStatus.stale_input gen,
)

unfoldable pub commit_noop : ReconcileInput → ℕ → Database → Database × TxOutcome
commit_noop inp gen db = (
  finish inp AdmissionStatus.noop (some gen) SnapshotLifecycleState.reconciled gen
      ReconcileOutcome.noop [] db,
  unchanged_outcome AdmissionStatus.noop gen,
)

-- `UPDATE index_root SET current_generation = current_generation + 1 ... AND current_generation = $2`.
unfoldable pub advance_generation : Str → ℕ → ℕ → Database → Tx Database
advance_generation root_id expected clock db = do
  root ← scan cas_conflict (find_root root_id db.roots)
  require (root.current_generation == expected) cas_conflict
  require (ltb (root.current_generation + 1) (2 ^ 63)) out_of_range
  done (record db {
    roots =
        update_root
          (λ r. record r { current_generation = r.current_generation + 1; updated_at = clock })
          root_id db.roots;
  })

-- The loop that assigns the sequence numbers in memory.
unfoldable pub append_events : Str → ℕ → ℕ → ℕ → List PlannedEvent → Database → Tx Database
append_events root_id gen seq intra [] db = done db
append_events root_id gen seq intra (e ∷ es) db =
    append_journal_event
      (record {
        root_id = root_id;
        event_seq = seq;
        generation_number = gen;
        intra_generation_seq = intra;
        event_type = e.event_type;
        resource_id = e.resource_id;
        payload = e.payload;
      })
      db
    >>= append_events root_id gen (seq + 1) (intra + 1) es

unfoldable pub append_plan : Str → ℕ → List PlannedEvent → Database → Tx Database
append_plan root_id gen events db =
    append_events root_id gen (next_event_seq root_id db.journal)
      (next_intra_generation_seq root_id gen db.journal) events db

-- `plan.Apply`.
unfoldable pub apply_plan : ReconcileInput → ℕ → ℕ → ℕ → Result → Database → Database
apply_plan inp observed_at gen clock res db = record db {
  resources = apply_transitions inp.root_id gen clock db.resources res.transitions;
  observations =
      db.observations ++ map (observation_row inp.snapshot_id observed_at) res.observations;
}

-- The generation that a mutating decision writes at, and its row.
unfoldable pub produce_generation : Env → ReconcileInput → ℕ → ℕ → Result → Database → Tx Database
produce_generation env inp expected clock res db = do
  advanced ← advance_generation inp.root_id expected clock db
  insert_generation
      (record {
        root_id = inp.root_id;
        generation_number = expected + 1;
        produced_by_snapshot_id = some inp.snapshot_id;
        produced_by_admission_seq = some inp.admission_seq;
        summary = env.marshal_counts res.counts;
      })
      advanced

-- Canonical writes and, with them, the journal.
unfoldable pub write_plan : Env → ReconcileInput → ℕ → ℕ → ℕ → Result → Database → Tx Database
write_plan env inp current observed_at clock res db =
    if res.mutates_canonical
    then produce_generation env inp current clock res db >>= (λ produced.
      append_plan inp.root_id (current + 1) (plan_events env.marshal res.transitions)
        (apply_plan inp observed_at (current + 1) clock res produced))
    else done (apply_plan inp observed_at current clock res db)

unfoldable pub commit_applied :
    Env
    → ReconcileInput
    → ℕ
    → ℕ
    → ℕ
    → SnapshotIdentity
    → Result
    → Database
    → Tx (Database × TxOutcome)
commit_applied env inp current observed_at clock identity res db = do
  let gen = if res.mutates_canonical then current + 1 else current
  written ← write_plan env inp current observed_at clock res db
  recorded ←
      insert_applied_snapshot
        (record {
          root_id = inp.root_id;
          identity = identity;
          snapshot_id = inp.snapshot_id;
          applied_generation = gen;
          applied_admission_seq = inp.admission_seq;
        })
        (set_snapshot_lifecycle_state inp.snapshot_id SnapshotLifecycleState.reconciled (
          set_admission_status inp.root_id inp.admission_seq AdmissionStatus.applied (some gen)
            written))
  done (
    record_result inp gen ReconcileOutcome.reconciled [] recorded,
    record {
      status = AdmissionStatus.applied;
      snapshot_lifecycle = SnapshotLifecycleState.reconciled;
      generation = current;
      applied_generation = gen;
      mutated = res.mutates_canonical;
    },
  )
