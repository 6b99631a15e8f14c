-- ===== src/Store/Fifo/Departures.antt =====
-- What a committed reconcile does to the queues.
use index_core.Base.{
  Str, str_eq, str_eq_iff, ℕ, ◌≡◌, refl, sym, ap, subst, ◌∙◌, ◌⊎◌, inl, inr, true, false, Option,
  none, some, List, [], ◌∷◌, if◌then◌else◌, arith, Bool-cases,
}
use index_core.Domain.Enums.{
  AdmissionStatus, SnapshotLifecycleState, ReconcileOutcome, is_pending, is_reconciled,
}
use index_core.Domain.Records.{ResourceRoot, Snapshot, Admission}
use index_core.Kernel.Pipeline as Pipeline
use index_core.Kernel.Reconcile.Types.{Config, Result}
use index_core.Store.Commit.{
  Env, ReconcileInput, finish, reject, stale_input, commit_noop, record_result, apply_plan,
}
use index_core.Domain.Entities.{SnapshotIdentity}
use index_core.Store.Commit.Effects.{
  bump, planned, mutated_by, applied_at_generation, closed, commit_applied-done,
}
use index_core.Store.Coordinator.{reconcile_head_safe}
use index_core.Store.Coordinator.Ended.{
  Ended, EndedAt, Leads, evaluated_as, receipt, rejected, failed_verdict, fenced, superseded_by,
  without_effect, applied, reconcile_head_safe-Ended,
}
use index_core.Store.Fifo.{Queue, queue_of, Ascends, AtMost, IsFifo}
use index_core.Store.Fifo.Rows.{
  without, without-Above, head_seq-front, queue-set_status, queue-set_status_other,
  Ascends-set_status, AtMost-set_status, Fronts, front-found,
}
use index_core.Store.Tables.{Database, done}
use index_core.Store.Tables.Commits.{Commits-done}
use index_core.Store.Tables.Rows.{
  find_root, find_snapshot, update_root, head_seq, set_status, set_admission_status,
  set_snapshot_lifecycle_state, insert_result,
}
use index_core.Store.Terminal.{TxOutcome, has_number, terminal_snapshot_receipt}

-- The table of roots after a commit: no counter has moved.
abbrev pub KeepsCounter : Str → List ResourceRoot → List ResourceRoot → Type 0
KeepsCounter root_id old new =
    (root : ResourceRoot)
    → find_root root_id old ≡ some root
    → (later : ResourceRoot) × (find_root root_id new ≡ some later)
      × (later.latest_admission_seq ≡ root.latest_admission_seq)

module _ (f : ResourceRoot → ResourceRoot)
    (same_id : (r : ResourceRoot) → (f r).root_id ≡ r.root_id)
    (same_counter : (r : ResourceRoot) → (f r).latest_admission_seq ≡ r.latest_admission_seq)
    (root_id other : Str) where
  pub update_root-KeepsCounter :
      (rows : List ResourceRoot) → KeepsCounter root_id rows (update_root f other rows)
  unfolding find_root update_root
  update_root-KeepsCounter [] root e = ground (arith, e)
  update_root-KeepsCounter (r ∷ rows) root e = elim (Bool-cases (str_eq r.root_id root_id)) [
    | inl here ↦
        let same : r ≡ root = ground (arith, e, here) in
        (
          if str_eq r.root_id other then f r else r,
          ground (arith, here, same_id r),
          ground (arith, same, same_counter r),
        )
    | inr past ↦
        let (later, found, same) = update_root-KeepsCounter rows root (ground (arith, e, past)) in
        (later, ground (arith, past, found, same_id r), same)
  ]

-- What a commit does to the queues: the admission has a terminal status.
pub record Departs (inp : ReconcileInput) (db later : Database) : Type 0 where
  pub status : AdmissionStatus
  pub terminal : is_pending status ≡ false
  pub gen : Option ℕ
  pub admissions :
      later.admissions ≡ set_status inp.root_id inp.admission_seq status gen db.admissions
  pub roots : (root_id : Str) → KeepsCounter root_id db.roots later.roots

pub head_seq-some :
    (inp : ReconcileInput) (o : Option ℕ)
    → has_number o inp.admission_seq ≡ true
    → o ≡ some inp.admission_seq
head_seq-some inp none h = ground (arith, h)
head_seq-some inp (some n) h = ground (arith, h)

front-without :
    (q : Queue) {seq : ℕ} (row : Admission) {id : Str}
    → row.snapshot_id ≡ id
    → Fronts seq row q
    → q ≡ (seq, id) ∷ without seq q
front-without [] row e h = elim h [ ]
front-without (t ∷ q) {seq} row {id} e h =
    let same : t ≡ (seq, id) = h.0 ∙ ap (λ s. (seq, s)) e in
    ground (arith, same, without-Above seq q h.1)

module _ (inp : ReconcileInput) (db later : Database) (d : Departs inp db later) where
  pub Departs-IsFifo : (root_id : Str) → IsFifo root_id db → IsFifo root_id later
  Departs-IsFifo root_id s =
      let (root, rooted, same) = d.roots root_id s.root s.rooted in
      record {
        root = root;
        rooted = rooted;
        ascending = subst (Ascends root_id 0) (sym d.admissions) (
            Ascends-set_status root_id db.admissions 0 inp.root_id inp.admission_seq d.status d.gen
              s.ascending);
        counted = subst (AtMost root_id root.latest_admission_seq) (sym d.admissions) (
            AtMost-set_status root_id db.admissions root.latest_admission_seq inp.root_id
              inp.admission_seq d.status d.gen
              (subst (λ n. AtMost root_id n db.admissions) (sym same) s.counted));
      }

  pub Departs-other :
      (root_id : Str)
      → str_eq root_id inp.root_id ≡ false
      → queue_of root_id later.admissions ≡ queue_of root_id db.admissions
  Departs-other root_id other =
      ap (queue_of root_id) d.admissions
      ∙ queue-set_status_other root_id db.admissions inp.root_id inp.admission_seq d.status d.gen
          other

  pub Departs-front :
      {root : ResourceRoot}
      → IsFifo inp.root_id db
      → Leads inp root db
      → queue_of inp.root_id db.admissions
        ≡ (inp.admission_seq, inp.snapshot_id) ∷ queue_of inp.root_id later.admissions
  Departs-front s h =
      let rows = db.admissions in
      let seq = inp.admission_seq in
      let first =
        sym (head_seq-front inp.root_id rows 0 s.ascending)
        ∙ head_seq-some inp (head_seq inp.root_id rows) h.first in
      let named = (str_eq_iff h.row.snapshot_id inp.snapshot_id).0 h.bound in
      front-without (queue_of inp.root_id rows) h.row named
        (front-found inp.root_id rows 0 seq h.row s.ascending first h.found)
      ∙ ap (λ q. (seq, inp.snapshot_id) ∷ q)
          (sym (
            ap (queue_of inp.root_id) d.admissions
            ∙ queue-set_status inp.root_id rows seq d.status d.gen d.terminal))

-- An ending that writes the admission's status, the snapshot's state and a result.
pub finish-Departs :
    (inp : ReconcileInput) (status : AdmissionStatus) (gen : Option ℕ)
    (state : SnapshotLifecycleState) (at : ℕ) (outcome : ReconcileOutcome) (reason : Str)
    (db d : Database)
    → is_pending status ≡ false
    → d.admissions ≡ db.admissions
    → d.roots ≡ db.roots
    → Departs inp db (finish inp status gen state at outcome reason d)
unfolding finish record_result insert_result set_snapshot_lifecycle_state set_admission_status
finish-Departs inp status gen state at outcome reason db d terminal rows roots = record {
  status = status;
  terminal = terminal;
  gen = gen;
  admissions = ap (set_status inp.root_id inp.admission_seq status gen) rows;
  roots = λ root_id root e. (root, ap (find_root root_id) roots ∙ e, refl);
}

module _ (env : Env) (inp : ReconcileInput) (current observed_at clock : ℕ) (res : Result)
    (db : Database) where
  abbrev loud : Database
  loud = mutated_by env inp current observed_at clock res db

  abbrev quiet : Database
  quiet = apply_plan inp observed_at current clock res db

  planned-admissions : (planned env inp current observed_at clock res db).admissions ≡ db.admissions
  unfolding apply_plan
  planned-admissions =
      elim res.mutates_canonical as (λ b. (if b then loud else quiet).admissions ≡ db.admissions) [
        | true ↦ refl
        | false ↦ refl
      ]

  planned-roots :
      (root_id : Str)
      → KeepsCounter root_id db.roots (planned env inp current observed_at clock res db).roots
  unfolding apply_plan
  planned-roots root_id =
      elim res.mutates_canonical
        as (λ b. KeepsCounter root_id db.roots (if b then loud else quiet).roots) [
          | true ↦
              update_root-KeepsCounter (bump clock) (λ r. refl) (λ r. refl) root_id inp.root_id
                db.roots
          | false ↦ λ root e. (root, e, refl)
        ]

  pub applied-Departs :
      (identity : SnapshotIdentity)
      → Departs inp db (
          closed env inp current observed_at clock res identity
            (planned env inp current observed_at clock res db))
  unfolding record_result insert_result set_snapshot_lifecycle_state set_admission_status
  applied-Departs identity =
      let gen = some (applied_at_generation current res) in
      record {
        status = AdmissionStatus.applied;
        terminal = refl;
        gen = gen;
        admissions =
            ap (set_status inp.root_id inp.admission_seq AdmissionStatus.applied gen)
              planned-admissions;
        roots = planned-roots;
      }

-- The verdict on the snapshot concerns neither admissions nor roots.
Departs-evaluated :
    (inp : ReconcileInput) (db : Database) (eval : Pipeline.Result) {later : Database}
    → Departs inp (evaluated_as inp eval db) later
    → Departs inp db later
Departs-evaluated inp db eval d = record {
  status = d.status;
  terminal = d.terminal;
  gen = d.gen;
  admissions = d.admissions;
  roots = d.roots;
}

-- The snapshot is RECONCILED, and the outcome is the receipt that the tables hold of it.
pub record Answered (inp : ReconcileInput) (db : Database) (outcome : TxOutcome) : Type 0 where
  pub root : ResourceRoot
  pub rooted : find_root inp.root_id db.roots ≡ some root
  pub snap : Snapshot
  pub stored : find_snapshot inp.snapshot_id db.snapshots ≡ some snap
  pub reconciled : is_reconciled snap.lifecycle_state ≡ true
  pub generation : ℕ
  pub answer :
      terminal_snapshot_receipt inp.root_id inp.snapshot_id inp.admission_seq
        root.current_generation db
      ≡ done (generation, outcome)

-- A committed reconcile answers from a receipt and changes nothing, or ends the head of the queue.
Ended-Departs :
    (env : Env) (inp : ReconcileInput) (root : ResourceRoot) (db : Database)
    {r : Database × TxOutcome}
    → Ended env inp root db r
    → ((r.0 ≡ db) × Answered inp db r.1) ⊎ (Leads inp root db × Departs inp db r.0)
unfolding reject stale_input commit_noop
Ended-Departs env inp root db (receipt {snap} {r} rooted stored ended e) = inl (
  refl,
  record {
    root = root;
    rooted = rooted;
    snap = snap;
    stored = stored;
    reconciled = ended;
    generation = r.0;
    answer = e;
  },
)
Ended-Departs env inp root db (rejected reason h) =
    inr (h, finish-Departs inp _ _ _ _ _ _ db db refl refl refl)
Ended-Departs env inp root db (failed_verdict reason eval h) =
    inr (h, finish-Departs inp _ _ _ _ _ _ db (evaluated_as inp eval db) refl refl refl)
Ended-Departs env inp root db (fenced h) =
    inr (h, finish-Departs inp _ _ _ _ _ _ db db refl refl refl)
Ended-Departs env inp root db (superseded_by eval h) =
    inr (h, finish-Departs inp _ _ _ _ _ _ db (evaluated_as inp eval db) refl refl refl)
Ended-Departs env inp root db (without_effect eval h ok e) =
    inr (h, finish-Departs inp _ _ _ _ _ _ db (evaluated_as inp eval db) refl refl refl)
Ended-Departs env inp root db (applied observed_at clock eval res h ok new later e) =
    let d = evaluated_as inp eval db in
    let written =
      commit_applied-done env inp root.current_generation observed_at clock res eval.identity d e in
    let departs =
      applied-Departs env inp root.current_generation observed_at clock res d eval.identity in
    inr (
      h,
      subst (Departs inp db) (sym (ap (λ x. x.0) written)) (Departs-evaluated inp db eval departs),
    )

module _ (env : Env) (inp : ReconcileInput) (cfg : Config) (clock : ℕ) (db : Database)
    {r : Database × TxOutcome} (run : reconcile_head_safe env inp cfg clock db ≡ done r) where
  reconcile_head_safe-Departs :
      ((r.0 ≡ db) × Answered inp db r.1)
      ⊎ ((root : ResourceRoot) × Leads inp root db × Departs inp db r.0)
  reconcile_head_safe-Departs =
      let (root, ended) =
        Commits-done (EndedAt env inp db) _ r run
          (reconcile_head_safe-Ended env inp cfg clock db) in
      elim (Ended-Departs env inp root db ended) [
        | inl same ↦ inl same
        | inr (h, d) ↦ inr (root, h, d)
      ]

  -- Where the admissions of a root are in order, a committed reconcile either takes its own snapshot off
  -- the front of the queue, which leaves the rest of the queue as it was and in order, or changes no
  -- table; the latter only for a snapshot that is RECONCILED already, with the outcome of the receipt
  -- that the tables hold of it.
  pub reconcile_head_safe-dequeues :
      IsFifo inp.root_id db
      → ((r.0 ≡ db) × Answered inp db r.1)
        ⊎ ((queue_of inp.root_id db.admissions
              ≡ (inp.admission_seq, inp.snapshot_id) ∷ queue_of inp.root_id r.0.admissions)
            × IsFifo inp.root_id r.0)
  reconcile_head_safe-dequeues s = elim reconcile_head_safe-Departs [
    | inl same ↦ inl same
    | inr (root, h, d) ↦
        inr (Departs-front inp db r.0 d s h, Departs-IsFifo inp db r.0 d inp.root_id s)
  ]

  pub reconcile_head_safe-IsFifo : (root_id : Str) → IsFifo root_id db → IsFifo root_id r.0
  reconcile_head_safe-IsFifo root_id s = elim reconcile_head_safe-Departs [
    | inl (same, answered) ↦ subst (IsFifo root_id) (sym same) s
    | inr (root, h, d) ↦ Departs-IsFifo inp db r.0 d root_id s
  ]

  pub reconcile_head_safe-other :
      (root_id : Str)
      → str_eq root_id inp.root_id ≡ false
      → queue_of root_id r.0.admissions ≡ queue_of root_id db.admissions
  reconcile_head_safe-other root_id other = elim reconcile_head_safe-Departs [
    | inl (same, answered) ↦ ap (λ d. queue_of root_id d.admissions) same
    | inr (root, h, d) ↦ Departs-other inp db r.0 d root_id other
  ]
