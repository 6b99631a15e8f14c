-- ===== src/Store/Commit/Effects.antt =====
-- What a commit writes, table by table.
use index_core.Base.{
  Str, str_eq, Bool-cases, inl, inr, ℕ, ◌+◌, ◌≡◌, sym, ◌∙◌, true, false, some, List, [], ◌∷◌, ◌++◌,
  if◌then◌else◌, arith,
}
use index_core.Domain.Enums.{AdmissionStatus, SnapshotLifecycleState, ReconcileOutcome}
use index_core.Domain.Entities.{SnapshotIdentity}
use index_core.Domain.Records.{ResourceRoot, Generation, AppliedSnapshot, JournalEvent}
use index_core.Kernel.Reconcile.Types.{Result}
use index_core.Store.Commit.{
  Env, ReconcileInput, append_events, append_plan, advance_generation, produce_generation,
  write_plan, apply_plan, commit_applied, record_result,
}
use index_core.Store.Plan.{PlannedEvent, plan_events}
use mathlib.Core.List.{append-nil, append_assoc}
use index_core.Store.Tables.Commits.{bind-done}
use index_core.Store.Tables.{Database, done, ◌>>=◌}
use index_core.Store.Tables.Rows.{
  find_root, update_root, append_journal_event, insert_generation, set_admission_status,
  set_snapshot_lifecycle_state, insert_applied_snapshot, next_event_seq, next_intra_generation_seq,
}
use index_core.Store.Terminal.{TxOutcome}

-- The events of a plan with their numbers.
abbrev pub numbered : Str → ℕ → ℕ → ℕ → List PlannedEvent → List JournalEvent
numbered root_id gen seq intra [] = []
numbered root_id gen seq intra (e ∷ es) =
    record {
      root_id = root_id;
      event_seq = seq;
      generation_number = gen;
      intra_generation_seq = intra;
      event_type = e.event_type;
      resource_id = e.resource_id;
      payload = e.payload;
    }
    ∷ numbered root_id gen (seq + 1) (intra + 1) es

append_journal_event-done :
    (e : JournalEvent) (db : Database) {d : Database}
    → append_journal_event e db ≡ done d
    → d ≡ record db { journal = db.journal ++ e ∷ [] }
unfolding append_journal_event
append_journal_event-done e db h = ground (arith, h)

append_events-done :
    (root_id : Str) (gen seq intra : ℕ) (events : List PlannedEvent) (db : Database) {d : Database}
    → append_events root_id gen seq intra events db ≡ done d
    → d ≡ record db { journal = db.journal ++ numbered root_id gen seq intra events }
unfolding append_events
append_events-done root_id gen seq intra [] db {d} e =
    let same : db ≡ d = ground (arith, e) in sym same ∙ rw append-nil
append_events-done root_id gen seq intra (ev ∷ events) db e =
    let (mid, one, rest) = bind-done _ _ e in
    append_events-done root_id gen (seq + 1) (intra + 1) events mid rest
    ∙ rw (append_journal_event-done _ db one, append_assoc)

abbrev pub generation_row : Env → ReconcileInput → ℕ → Result → Generation
generation_row env inp current res = record {
  root_id = inp.root_id;
  generation_number = current + 1;
  produced_by_snapshot_id = some inp.snapshot_id;
  produced_by_admission_seq = some inp.admission_seq;
  summary = env.marshal_counts res.counts;
}

produce_generation-done :
    (env : Env) (inp : ReconcileInput) (current clock : ℕ) (res : Result) (db : Database)
    {d : Database}
    → produce_generation env inp current clock res db ≡ done d
    → d ≡ record db {
      roots =
          update_root
            (λ r. record r { current_generation = r.current_generation + 1; updated_at = clock })
            inp.root_id
            db.roots;
      generations = db.generations ++ generation_row env inp current res ∷ [];
    }
unfolding produce_generation advance_generation insert_generation
produce_generation-done env inp current clock res db e = ground (arith, e)

-- The generation that a decision is applied at.
abbrev pub applied_at_generation : ℕ → Result → ℕ
applied_at_generation current res = if res.mutates_canonical then current + 1 else current

abbrev pub bump : ℕ → ResourceRoot → ResourceRoot
bump clock r = record r { current_generation = r.current_generation + 1; updated_at = clock }

pub find_root-bump :
    (root_id : Str) (clock : ℕ) (rows : List ResourceRoot) (root : ResourceRoot)
    → find_root root_id rows ≡ some root
    → find_root root_id (update_root (bump clock) root_id rows) ≡ some (bump clock root)
unfolding find_root update_root
find_root-bump root_id clock [] root e = ground (arith, e)
find_root-bump root_id clock (r ∷ rows) root e = elim (Bool-cases (str_eq r.root_id root_id)) [
  | inl here ↦ ground (arith, e, here)
  | inr past ↦
      ground (arith, e, past, find_root-bump root_id clock rows root (ground (arith, e, past)))
]

-- The tables after a plan that mutates is written.
abbrev pub mutated_by : Env → ReconcileInput → ℕ → ℕ → ℕ → Result → Database → Database
mutated_by env inp current observed_at clock res db =
    record (apply_plan inp observed_at (current + 1) clock res db) {
      roots = update_root (bump clock) inp.root_id db.roots;
      generations = db.generations ++ generation_row env inp current res ∷ [];
      journal =
          db.journal
          ++ numbered inp.root_id (current + 1) (next_event_seq inp.root_id db.journal)
              (next_intra_generation_seq inp.root_id (current + 1) db.journal)
              (plan_events env.marshal res.transitions);
    }

-- The tables after any plan is written.
abbrev pub planned : Env → ReconcileInput → ℕ → ℕ → ℕ → Result → Database → Database
planned env inp current observed_at clock res db =
    if res.mutates_canonical
    then mutated_by env inp current observed_at clock res db
    else apply_plan inp observed_at current clock res db

module _ (env : Env) (inp : ReconcileInput) (current observed_at clock : ℕ) (res : Result) where
  mutation-done :
      (db : Database) {d : Database}
      → (produce_generation env inp current clock res db >>= (λ produced.
          append_plan inp.root_id
            (current + 1)
            (plan_events env.marshal res.transitions)
            (apply_plan inp observed_at (current + 1) clock res produced)))
        ≡ done d
      → d ≡ mutated_by env inp current observed_at clock res db
  unfolding append_plan apply_plan
  mutation-done db e =
      let (mid, one, rest) = bind-done (produce_generation env inp current clock res db) _ e in
      append_events-done inp.root_id (current + 1) _ _ _ _ rest
      ∙ rw (produce_generation-done env inp current clock res db one)

  pub write_plan-done :
      (db : Database) {d : Database}
      → write_plan env inp current observed_at clock res db ≡ done d
      → d ≡ planned env inp current observed_at clock res db
  unfolding write_plan
  write_plan-done db {d} e =
      let quiet = apply_plan inp observed_at current clock res db in
      elim res.mutates_canonical
          as (λ b.
            (if b
                then produce_generation env inp current clock res db >>= (λ produced.
                  append_plan inp.root_id (current + 1) (plan_events env.marshal res.transitions)
                    (apply_plan inp observed_at (current + 1) clock res produced))
                else done quiet)
              ≡ done d
            → d ≡ (if b then mutated_by env inp current observed_at clock res db else quiet)) [
              | true ↦ λ h. mutation-done db h
              | false ↦ λ h. ground (arith, h)
            ]
        e

  abbrev pub history_row : SnapshotIdentity → AppliedSnapshot
  history_row identity = record {
    root_id = inp.root_id;
    identity = identity;
    snapshot_id = inp.snapshot_id;
    applied_generation = applied_at_generation current res;
    applied_admission_seq = inp.admission_seq;
  }

  -- And after the admission, the snapshot, the history and the result are.
  abbrev pub closed : SnapshotIdentity → Database → Database
  closed identity d =
      let gen = applied_at_generation current res in
      let ended =
        set_snapshot_lifecycle_state inp.snapshot_id SnapshotLifecycleState.reconciled (
          set_admission_status inp.root_id inp.admission_seq AdmissionStatus.applied (some gen)
            d) in
      record_result inp gen ReconcileOutcome.reconciled []
        (record ended { applied_snapshots = ended.applied_snapshots ++ history_row identity ∷ [] })

  abbrev pub applied_outcome : TxOutcome
  applied_outcome = record {
    status = AdmissionStatus.applied;
    snapshot_lifecycle = SnapshotLifecycleState.reconciled;
    generation = current;
    applied_generation = applied_at_generation current res;
    mutated = res.mutates_canonical;
  }

  insert_applied_snapshot-done :
      (a : AppliedSnapshot) (db : Database) {d : Database}
      → insert_applied_snapshot a db ≡ done d
      → d ≡ record db { applied_snapshots = db.applied_snapshots ++ a ∷ [] }
  unfolding insert_applied_snapshot
  insert_applied_snapshot-done a db e = ground (arith, e)

  -- Everything that an applied input writes.
  pub commit_applied-done :
      (identity : SnapshotIdentity) (db : Database) {r : Database × TxOutcome}
      → commit_applied env inp current observed_at clock identity res db ≡ done r
      → r ≡ (closed identity (planned env inp current observed_at clock res db), applied_outcome)
  unfolding commit_applied
  commit_applied-done identity db {r} e =
      let gen = applied_at_generation current res in
      let (written, one, rest) =
        bind-done (write_plan env inp current observed_at clock res db) _ e in
      let (recorded, two, last) =
        bind-done
          (insert_applied_snapshot (history_row identity) (
            set_snapshot_lifecycle_state inp.snapshot_id SnapshotLifecycleState.reconciled (
              set_admission_status inp.root_id inp.admission_seq AdmissionStatus.applied (some gen)
                written)))
          _ rest in
      let out : (record_result inp gen ReconcileOutcome.reconciled [] recorded, applied_outcome)
          ≡ r =
        ground (arith, last) in
      sym out
      ∙ rw (insert_applied_snapshot-done (history_row identity) _ two, write_plan-done db one)
