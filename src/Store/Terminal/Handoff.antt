-- ===== src/Store/Terminal/Handoff.antt =====
-- An input that is handed in again after it was finished: the terminal handoff of
-- internal/store/postgres/coordinator.go.
use index_core.Base.{
  Str, str_eq, str_eq_refl, ℕ, ◌+◌, ◌≤◌, ltb, ◌==◌, ◌≡◌, refl, sym, ap, subst, ◌∙◌, Bool, true,
  false, ◌&&◌, ◌||◌, none, some, List, [], ◌∷◌, ◌++◌, any, any-snoc, any-none, any-imp, select,
  select-append, if◌then◌else◌, arith,
}
use index_core.Domain.Enums.{
  AdmissionStatus, SnapshotLifecycleState, ReconcileOutcome, is_reconciled, is_failed,
}
use index_core.Domain.Records.{
  ResourceRoot, Generation, Snapshot, Admission, AppliedSnapshot, ReconcileResult,
}
use index_core.Kernel.Pipeline as Pipeline
use index_core.Kernel.Reconcile.Types.{Config, Result}
use index_core.Store.Commit.{
  Env, ReconcileInput, reject, stale_input, commit_noop, finish, record_result, apply_plan,
}
use index_core.Store.Commit.Effects.{
  mutated_by, closed, bump, history_row, generation_row, find_root-bump, commit_applied-done,
}
use index_core.Store.Coordinator.{reconcile_head_safe, resolve_head}
use index_core.Store.Coordinator.Ended.{
  Ended, EndedAt, Leads, evaluated_as, receipt, rejected, failed_verdict, fenced, superseded_by,
  without_effect, applied, reconcile_head_safe-Ended,
}
use index_core.Store.Tables.{Database, done}
use index_core.Store.Tables.Commits.{Commits-done}
use index_core.Store.Tables.Rows.{
  find_root, find_snapshot, update_root, update_snapshot, set_status, admission_at, generation_at,
  with_verdict, set_admission_status, set_snapshot_lifecycle_state, insert_result,
  applied_exists_at_generation, applied_at,
}
use index_core.Store.Terminal.{
  TxOutcome, terminal_snapshot_receipt, receipt_of, unchanged_outcome, is_outcome, has_number,
  is_blank, result_at, history_of, produced_by,
}
use index_core.Store.Terminal.Receipts.{
  IsFinished, receipt-applied, receipt-noop, find_snapshot-update, select-set_status,
}

-- An input that no transaction has finished: its snapshot has one admission, and no result, history or
-- generation names the input. The generation of the root is recorded.
pub record IsFresh (inp : ReconcileInput) (db : Database) : Type 0 where
  pub snap : Snapshot
  pub stored : find_snapshot inp.snapshot_id db.snapshots ≡ some snap
  pub open_state : is_reconciled snap.lifecycle_state ≡ false
  pub row : Admission
  pub alone : select (λ a. str_eq a.snapshot_id inp.snapshot_id) db.admissions ≡ row ∷ []
  pub here : admission_at inp.root_id inp.admission_seq row ≡ true
  pub root : ResourceRoot
  pub rooted : find_root inp.root_id db.roots ≡ some root
  pub counted : inp.admission_seq ≤ root.latest_admission_seq
  pub produced :
      ((root.current_generation == 0)
        || any (generation_at inp.root_id root.current_generation) db.generations)
      ≡ true
  pub no_result : select (result_at inp.root_id inp.admission_seq) db.results ≡ []
  pub no_history : select (history_of inp.snapshot_id) db.applied_snapshots ≡ []
  pub no_product :
      select (produced_by inp.root_id inp.snapshot_id inp.admission_seq) db.generations ≡ []

-- What the endings that accept a snapshot share.
record Closes (inp : ReconcileInput) (eval : Pipeline.Result) (status : AdmissionStatus) (gen : ℕ)
    (result : ReconcileResult) (db later : Database) : Type 0 where
  snapshots :
      later.snapshots
      ≡ update_snapshot
          (λ s. record s { lifecycle_state = SnapshotLifecycleState.reconciled })
          inp.snapshot_id
          (update_snapshot
            (with_verdict eval.acceptance (some eval.corroboration))
            inp.snapshot_id
            db.snapshots)
  admissions :
      later.admissions ≡ set_status inp.root_id inp.admission_seq status (some gen) db.admissions
  results : later.results ≡ db.results ++ result ∷ []
  matches : result_at inp.root_id inp.admission_seq result ≡ true
  outcome_ok : is_outcome status result.outcome ≡ true
  result_gen : has_number result.generation_number gen ≡ true
  no_reason : is_blank result.rejection_reason ≡ true
  root : ResourceRoot
  rooted : find_root inp.root_id later.roots ≡ some root
  counted : inp.admission_seq ≤ root.latest_admission_seq
  reached : gen ≤ root.current_generation
  produced : ((gen == 0) || any (generation_at inp.root_id gen) later.generations) ≡ true

module _ (inp : ReconcileInput) (db later : Database) (f : IsFresh inp db)
    (owned : str_eq f.snap.root_id inp.root_id ≡ true) (eval : Pipeline.Result)
    (ok : is_failed eval.acceptance ≡ false) (status : AdmissionStatus) (gen : ℕ)
    (result : ReconcileResult) (c : Closes inp eval status gen result db later) where
  closed_snap : Snapshot
  closed_snap = record (with_verdict eval.acceptance (some eval.corroboration) f.snap) {
    lifecycle_state = SnapshotLifecycleState.reconciled;
  }

  closed_row : Admission
  closed_row = record f.row { status = status; applied_generation = some gen }

  closed_snap-stored : find_snapshot inp.snapshot_id later.snapshots ≡ some closed_snap
  unfolding closed_snap
  closed_snap-stored =
      ap (find_snapshot inp.snapshot_id) c.snapshots
      ∙ find_snapshot-update (λ s. record s { lifecycle_state = SnapshotLifecycleState.reconciled })
          (λ s. refl) inp.snapshot_id _ _
          (find_snapshot-update (with_verdict eval.acceptance (some eval.corroboration)) (λ s. refl)
            inp.snapshot_id db.snapshots f.snap f.stored)

  closed_row-admitted :
      select (λ a. str_eq a.snapshot_id inp.snapshot_id) later.admissions ≡ closed_row ∷ []
  unfolding closed_row set_status
  closed_row-admitted =
      ap (select (λ a. str_eq a.snapshot_id inp.snapshot_id)) c.admissions
      ∙ select-set_status inp.snapshot_id inp.root_id inp.admission_seq status (some gen)
          db.admissions
      ∙ rw (f.alone, set_status, f.here)

  result-recorded : select (result_at inp.root_id inp.admission_seq) later.results ≡ result ∷ []
  unfolding select
  result-recorded =
      ap (select (result_at inp.root_id inp.admission_seq)) c.results
      ∙ select-append (result_at inp.root_id inp.admission_seq) db.results (result ∷ [])
      ∙ rw (f.no_result, c.matches)

  closed-IsFinished : IsFinished inp.root_id inp.snapshot_id inp.admission_seq gen later
  unfolding closed_snap closed_row
  closed-IsFinished = record {
    snap = closed_snap;
    stored = closed_snap-stored;
    owned = owned;
    reconciled = refl;
    accepted = ground (arith, ok);
    row = closed_row;
    admitted = closed_row-admitted;
    row_root = ground (arith, f.here);
    row_seq = ground (arith, f.here);
    row_gen = refl;
    root = c.root;
    rooted = c.rooted;
    counted = c.counted;
    reached = c.reached;
    produced = c.produced;
    result = result;
    recorded = result-recorded;
    outcome_ok = c.outcome_ok;
    result_gen = c.result_gen;
    no_reason = c.no_reason;
  }

history-one :
    (id : Str) (rows : List AppliedSnapshot) (row : AppliedSnapshot)
    → history_of id row ≡ true
    → select (history_of id) rows ≡ []
    → (select (history_of id) rows ++ select (history_of id) (row ∷ [])) ≡ row ∷ []
unfolding select
history-one id rows row own none_before = ground (arith, own, none_before)

-- A finished input is answered from its receipt.
answers :
    (env : Env) (inp : ReconcileInput) (cfg : Config) (clock gen : ℕ) (later : Database)
    (positive : ltb 0 inp.admission_seq ≡ true)
    (f : IsFinished inp.root_id inp.snapshot_id inp.admission_seq gen later) {out : ℕ × TxOutcome}
    → terminal_snapshot_receipt inp.root_id inp.snapshot_id inp.admission_seq
        f.root.current_generation later
      ≡ done out
    → reconcile_head_safe env inp cfg clock later ≡ done (later, out.1)
unfolding reconcile_head_safe resolve_head
answers env inp cfg clock gen later positive f e =
    ground (arith, positive, e, f.rooted, f.stored, f.owned, f.reconciled)

module _ (env : Env) (inp : ReconcileInput) (cfg again_cfg : Config) (clock again_clock : ℕ)
    (db : Database) (f : IsFresh inp db) (root : ResourceRoot) (h : Leads inp root db)
    (eval : Pipeline.Result) (ok : is_failed eval.acceptance ≡ false) where
  abbrev current : ℕ
  current = root.current_generation

  abbrev before : Database
  before = evaluated_as inp eval db

  fresh_owned : str_eq f.snap.root_id inp.root_id ≡ true
  fresh_owned =
      let same : f.snap ≡ h.snap = ground (arith, f.stored, h.stored) in
      ground (arith, same, h.owned)

  fresh_root : f.root ≡ root
  fresh_root = ground (arith, f.rooted, h.rooted)

  module _ (known : applied_exists_at_generation inp.root_id eval.identity current db ≡ true) where
    abbrev ended : Database
    ended = (commit_noop inp current before).0

    abbrev noop_result : ReconcileResult
    noop_result = record {
      root_id = inp.root_id;
      admission_seq = inp.admission_seq;
      generation_number = some current;
      outcome = ReconcileOutcome.noop;
      rejection_reason = none;
    }

    noop-Closes : Closes inp eval AdmissionStatus.noop current noop_result db ended
    unfolding commit_noop finish record_result insert_result set_snapshot_lifecycle_state
        set_admission_status
    noop-Closes = record {
      snapshots = refl;
      admissions = refl;
      results = refl;
      matches = ground (arith, str_eq_refl inp.root_id);
      outcome_ok = refl;
      result_gen = ground arith;
      no_reason = refl;
      root = root;
      rooted = h.rooted;
      counted = subst (λ r. inp.admission_seq ≤ r.latest_admission_seq) fresh_root f.counted;
      reached = omega arith;
      produced =
          subst
            (λ r.
              ((r.current_generation == 0)
                || any (generation_at inp.root_id r.current_generation) db.generations)
              ≡ true)
            fresh_root f.produced;
    }

    noop-again :
        reconcile_head_safe env inp again_cfg again_clock ended
        ≡ done (commit_noop inp current before)
    unfolding closed-IsFinished closed_row applied_exists_at_generation receipt_of commit_noop
        finish record_result insert_result set_snapshot_lifecycle_state set_admission_status
    noop-again =
        let fin =
          closed-IsFinished inp db ended f fresh_owned eval ok AdmissionStatus.noop current
            noop_result noop-Closes in
        answers env inp again_cfg again_clock current ended h.positive fin (
          receipt-noop inp.root_id inp.snapshot_id inp.admission_seq current ended h.positive fin
            {out = (inp.admission_seq, unchanged_outcome AdmissionStatus.noop current)} refl
            (any-none (history_of inp.snapshot_id) db.applied_snapshots f.no_history)
            (any-imp (applied_at inp.root_id eval.identity current)
              (λ x. str_eq x.root_id inp.root_id && (x.applied_generation == current))
              db.applied_snapshots (λ x e. ground (arith, e)) known)
            f.no_product (ground (arith, f.here)))

  module _ (observed_at : ℕ) (res : Result) where
    abbrev gen_if : Bool → ℕ
    gen_if b = if b then current + 1 else current

    abbrev written_if : Bool → Database
    written_if b =
        if b
        then mutated_by env inp current observed_at clock res before
        else apply_plan inp observed_at current clock res before

    abbrev outcome_if : Bool → TxOutcome
    outcome_if b = record {
      status = AdmissionStatus.applied;
      snapshot_lifecycle = SnapshotLifecycleState.reconciled;
      generation = current;
      applied_generation = gen_if b;
      mutated = b;
    }

    abbrev made_if : Bool → List Generation
    made_if b = if b then generation_row env inp current res ∷ [] else []

    -- The tables of a plan that a receipt reads, for a plan that mutates or does not.
    record Plans (b : Bool) : Type 0 where
      same_snapshots : (written_if b).snapshots ≡ before.snapshots
      same_admissions : (written_if b).admissions ≡ db.admissions
      same_results : (written_if b).results ≡ db.results
      same_history : (written_if b).applied_snapshots ≡ db.applied_snapshots
      new_root : ResourceRoot
      new_rooted : find_root inp.root_id (written_if b).roots ≡ some new_root
      new_counted : inp.admission_seq ≤ new_root.latest_admission_seq
      new_reached : gen_if b ≤ new_root.current_generation
      new_produced :
          ((gen_if b == 0) || any (generation_at inp.root_id (gen_if b)) (written_if b).generations)
          ≡ true
      products :
          select
            (produced_by inp.root_id inp.snapshot_id inp.admission_seq)
            (written_if b).generations
          ≡ made_if b
      receipt_made :
          (row : Admission)
          → row.admission_seq ≡ inp.admission_seq
          → row.status ≡ AdmissionStatus.applied
          → receipt_of inp.snapshot_id row (gen_if b) (made_if b)
            ≡ done (inp.admission_seq, outcome_if b)

    plans : (b : Bool) → Plans b
    unfolding apply_plan receipt_of select any find_root update_root
    plans true = record {
      same_snapshots = refl;
      same_admissions = refl;
      same_results = refl;
      same_history = refl;
      new_root = bump clock root;
      new_rooted = find_root-bump inp.root_id clock db.roots root h.rooted;
      new_counted = subst (λ r. inp.admission_seq ≤ r.latest_admission_seq) fresh_root f.counted;
      new_reached = omega arith;
      new_produced = ground (
        arith,
        any-snoc (generation_at inp.root_id (current + 1)) db.generations
            (generation_row env inp current res),
        str_eq_refl inp.root_id,
      );
      products =
          select-append (produced_by inp.root_id inp.snapshot_id inp.admission_seq) db.generations
            (generation_row env inp current res ∷ [])
          ∙ ground (arith, f.no_product, str_eq_refl inp.root_id, str_eq_refl inp.snapshot_id);
      receipt_made = λ row e t. ground (arith, e, t, str_eq_refl inp.snapshot_id);
    }
    plans false = record {
      same_snapshots = refl;
      same_admissions = refl;
      same_results = refl;
      same_history = refl;
      new_root = root;
      new_rooted = h.rooted;
      new_counted = subst (λ r. inp.admission_seq ≤ r.latest_admission_seq) fresh_root f.counted;
      new_reached = omega arith;
      new_produced =
          subst
            (λ r.
              ((r.current_generation == 0)
                || any (generation_at inp.root_id r.current_generation) db.generations)
              ≡ true)
            fresh_root f.produced;
      products = f.no_product;
      receipt_made = λ row e t. ground (arith, e, t);
    }

    abbrev kind : Bool
    kind = res.mutates_canonical

    abbrev applied_db : Database
    applied_db = closed env inp current observed_at clock res eval.identity (written_if kind)

    abbrev applied_result : ReconcileResult
    applied_result = record {
      root_id = inp.root_id;
      admission_seq = inp.admission_seq;
      generation_number = some (gen_if kind);
      outcome = ReconcileOutcome.reconciled;
      rejection_reason = none;
    }

    applied-Closes :
        Closes inp eval AdmissionStatus.applied (gen_if kind) applied_result db applied_db
    unfolding record_result insert_result set_snapshot_lifecycle_state set_admission_status
    applied-Closes =
        let p = plans kind in
        record {
          snapshots =
              ap
                (update_snapshot
                  (λ s. record s { lifecycle_state = SnapshotLifecycleState.reconciled })
                  inp.snapshot_id)
                p.same_snapshots;
          admissions =
              ap
                (set_status inp.root_id inp.admission_seq AdmissionStatus.applied
                  (some (gen_if kind)))
                p.same_admissions;
          results = ap (λ rs. rs ++ applied_result ∷ []) p.same_results;
          matches = ground (arith, str_eq_refl inp.root_id);
          outcome_ok = refl;
          result_gen = ground arith;
          no_reason = refl;
          root = p.new_root;
          rooted = p.new_rooted;
          counted = p.new_counted;
          reached = p.new_reached;
          produced = p.new_produced;
        }

    applied-again :
        reconcile_head_safe env inp again_cfg again_clock applied_db
        ≡ done (applied_db, outcome_if kind)
    unfolding closed-IsFinished closed_row record_result insert_result set_snapshot_lifecycle_state
        set_admission_status
    applied-again =
        let p = plans kind in
        let seq = inp.admission_seq in
        let row = history_row env inp current observed_at clock res eval.identity in
        let fin =
          closed-IsFinished inp db applied_db f fresh_owned eval ok AdmissionStatus.applied
            (gen_if kind) applied_result applied-Closes in
        answers env inp again_cfg again_clock (gen_if kind) applied_db h.positive fin (
          receipt-applied inp.root_id inp.snapshot_id seq (gen_if kind) applied_db h.positive fin
            row (made_if kind) {out = (seq, outcome_if kind)} refl
            (select-append (history_of inp.snapshot_id) (written_if kind).applied_snapshots
                (row ∷ [])
              ∙ ap
                  (λ hs.
                    select (history_of inp.snapshot_id) hs
                    ++ select (history_of inp.snapshot_id) (row ∷ []))
                  p.same_history
              ∙ history-one inp.snapshot_id db.applied_snapshots row (str_eq_refl inp.snapshot_id)
                  f.no_history)
            (str_eq_refl inp.root_id) refl refl p.products
            (p.receipt_made fin.row (ground (arith, f.here)) refl))

module _ (env : Env) (inp : ReconcileInput) (cfg again_cfg : Config) (clock again_clock : ℕ)
    (db : Database) (f : IsFresh inp db) where
  Ended-again :
      (root : ResourceRoot) (r : Database × TxOutcome)
      → is_reconciled r.1.snapshot_lifecycle ≡ true
      → Ended env inp root db r
      → reconcile_head_safe env inp again_cfg again_clock r.0 ≡ done r
  unfolding reject stale_input
  Ended-again root r good (receipt {snap = snap} rooted stored closed_state e) =
      let same : f.snap ≡ snap = ground (arith, f.stored, stored) in
      let no : ⊥ = ground (arith, same, f.open_state, closed_state) in elim no [ ]
  Ended-again root r good (rejected reason h) = let no : ⊥ = ground (arith, good) in elim no [ ]
  Ended-again root r good (failed_verdict reason eval h) =
      let no : ⊥ = ground (arith, good) in elim no [ ]
  Ended-again root r good (fenced h) = let no : ⊥ = ground (arith, good) in elim no [ ]
  Ended-again root r good (superseded_by eval h) = let no : ⊥ = ground (arith, good) in elim no [ ]
  Ended-again root r good (without_effect eval h ok known) =
      noop-again env inp cfg again_cfg clock again_clock db f root h eval ok known
  Ended-again root r good (applied observed_at at eval res h ok new ordered e) =
      let before = evaluated_as inp eval db in
      let written =
        commit_applied-done env inp root.current_generation observed_at at res eval.identity before
          e in
      subst (λ x. reconcile_head_safe env inp again_cfg again_clock x.0 ≡ done x) (sym written)
        (applied-again env inp cfg again_cfg at again_clock db f root h eval ok observed_at res)

  -- A fresh input that a reconcile commits as applied or without effect can be handed in again, under
  -- any configuration and at any time: the transaction gives the same outcome once more, with the same
  -- generations and the same mutation flag, and changes no table.
  pub reconcile_head_safe-again :
      {r : Database × TxOutcome}
      → reconcile_head_safe env inp cfg clock db ≡ done r
      → is_reconciled r.1.snapshot_lifecycle ≡ true
      → reconcile_head_safe env inp again_cfg again_clock r.0 ≡ done r
  reconcile_head_safe-again {r} run good =
      let (root, ended) =
        Commits-done (EndedAt env inp db) _ r run
          (reconcile_head_safe-Ended env inp cfg clock db) in
      Ended-again root r good ended
