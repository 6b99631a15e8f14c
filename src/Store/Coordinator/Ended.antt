-- ===== src/Store/Coordinator/Ended.antt =====
-- The ways in which the reconcile transaction commits.
use index_core.Base.{
  Str, str_eq, ℕ, ltb, leb, ◌≡◌, subst, sym, true, false, not, Option, some, List, arith,
  if◌then◌else◌,
}
use index_core.Domain.Enums.{is_deleted, is_reconciled, is_submitted, is_failed}
use index_core.Domain.Entities.{SnapshotEntry, DirectoryCoverage}
use index_core.Domain.Records.{ResourceRoot, Snapshot, Admission}
use index_core.Kernel.Pipeline as Pipeline
use index_core.Kernel.Reconcile.Types.{Config, PriorResource, Result}
use index_core.Store.Commit.{Env, ReconcileInput, reject, stale_input, commit_noop, commit_applied}
use index_core.Store.Coordinator.{
  reconcile_head_safe, resolve_head, reconcile_bound, reconcile_admitted, conclude_fenced,
  conclude_covered, conclude, settle, decide, evaluate_head,
}
use index_core.Store.Tables.{
  Database, Tx, done, aborted, not_submitted, binding_mismatch, not_head, query_failed, require,
  scan, ◌>>◌, scoped_fetch_stale, invalid_coverage, ◌>>=◌,
}
use index_core.Store.Tables.Commits.{
  Commits, Commits-intro, Commits-map, Commits-bind, Commits-require, Commits-scan, Commits-if,
}
use index_core.Store.Tables.Rows.{
  find_root, find_snapshot, find_admission, head_seq, applied_max, update_snapshot, with_verdict,
  set_snapshot_evaluated, applied_exists_at_generation,
}
use index_core.Store.Terminal.{TxOutcome, has_number, terminal_snapshot_receipt}

-- The input is the head of its root's queue, and bound to its snapshot, which is of that root.
pub record Leads (inp : ReconcileInput) (root : ResourceRoot) (db : Database) : Type 0 where
  pub positive : ltb 0 inp.admission_seq ≡ true
  pub rooted : find_root inp.root_id db.roots ≡ some root
  pub snap : Snapshot
  pub stored : find_snapshot inp.snapshot_id db.snapshots ≡ some snap
  pub owned : str_eq snap.root_id inp.root_id ≡ true
  pub row : Admission
  pub first : has_number (head_seq inp.root_id db.admissions) inp.admission_seq ≡ true
  pub found : find_admission inp.root_id inp.admission_seq db.admissions ≡ some row
  pub bound : str_eq row.snapshot_id inp.snapshot_id ≡ true

-- The tables once the snapshot has its verdict.
abbrev pub evaluated_as : ReconcileInput → Pipeline.Result → Database → Database
evaluated_as inp eval db = record db {
  snapshots =
      update_snapshot (with_verdict eval.acceptance (some eval.corroboration)) inp.snapshot_id
        db.snapshots;
}

set_snapshot_evaluated-done :
    (inp : ReconcileInput) (eval : Pipeline.Result) (db : Database) {d : Database}
    → set_snapshot_evaluated inp.snapshot_id eval.acceptance (some eval.corroboration) db ≡ done d
    → d ≡ evaluated_as inp eval db
unfolding set_snapshot_evaluated
set_snapshot_evaluated-done inp eval db e = ground (arith, e)

pub data Ended (env : Env) (inp : ReconcileInput) (root : ResourceRoot) (db : Database)
    : Database × TxOutcome → Type 0 where
  receipt :
      {snap : Snapshot} {r : ℕ × TxOutcome}
      → find_root inp.root_id db.roots ≡ some root
      → find_snapshot inp.snapshot_id db.snapshots ≡ some snap
      → is_reconciled snap.lifecycle_state ≡ true
      → terminal_snapshot_receipt inp.root_id inp.snapshot_id inp.admission_seq
          root.current_generation db
        ≡ done r
      → Ended env inp root db (db, r.1)
  rejected :
      (reason : Str)
      → Leads inp root db
      → Ended env inp root db (reject inp root.current_generation reason db)
  failed_verdict :
      (reason : Str) (eval : Pipeline.Result)
      → Leads inp root db
      → Ended env inp root db (reject inp root.current_generation reason (evaluated_as inp eval db))
  fenced : Leads inp root db → Ended env inp root db (stale_input inp root.current_generation db)
  superseded_by :
      (eval : Pipeline.Result)
      → Leads inp root db
      → Ended env inp root db (stale_input inp root.current_generation (evaluated_as inp eval db))
  without_effect :
      (eval : Pipeline.Result)
      → Leads inp root db
      → is_failed eval.acceptance ≡ false
      → applied_exists_at_generation inp.root_id eval.identity root.current_generation db ≡ true
      → Ended env inp root db (commit_noop inp root.current_generation (evaluated_as inp eval db))
  applied :
      (observed_at clock : ℕ) (eval : Pipeline.Result) (res : Result) {r : Database × TxOutcome}
      → Leads inp root db
      → is_failed eval.acceptance ≡ false
      → applied_exists_at_generation inp.root_id eval.identity root.current_generation db ≡ false
      → leb inp.admission_seq (applied_max inp.root_id db.admissions) ≡ false
      → commit_applied env inp root.current_generation observed_at clock eval.identity res
          (evaluated_as inp eval db)
        ≡ done r
      → Ended env inp root db r

abbrev pub EndedAt : Env → ReconcileInput → Database → Database × TxOutcome → Type 0
EndedAt env inp db r = (root : ResourceRoot) × Ended env inp root db r

module _ (env : Env) (inp : ReconcileInput) (root : ResourceRoot) (db : Database) where
  abbrev Ends : Tx (Database × TxOutcome) → Type 0
  Ends = Commits (Ended env inp root db)

  abbrev E : Database × TxOutcome → Type 0
  E = Ended env inp root db

  module _ (h : Leads inp root db) (snap : Snapshot) (cfg : Config) (clock : ℕ) where
    abbrev current : ℕ
    current = root.current_generation

    settle-Ended :
        (prior : List PriorResource) (entries : List SnapshotEntry)
        (coverage : Option DirectoryCoverage) (eval : Pipeline.Result)
        → Ends (
            settle env inp snap current prior entries coverage cfg clock eval
              (evaluated_as inp eval db))
    unfolding settle applied_exists_at_generation
    settle-Ended prior entries coverage eval =
        let d = evaluated_as inp eval db in
        let res = decide env snap prior entries coverage eval cfg clock in
        let run = commit_applied env inp current snap.observed_at clock eval.identity res d in
        let known = applied_exists_at_generation inp.root_id eval.identity current d in
        let old = leb inp.admission_seq (applied_max inp.root_id d.admissions) in
        let ordered = if old then done (stale_input inp current d) else run in
        let fresh = if known then done (commit_noop inp current d) else ordered in
        Commits-if E (is_failed eval.acceptance) (done (reject inp current _ d)) fresh
          (λ f. failed_verdict _ eval h)
          (λ ok.
            Commits-if E known (done (commit_noop inp current d)) ordered
              (λ e. without_effect eval h ok e)
              (λ e.
                Commits-if E old (done (stale_input inp current d)) run (λ l. superseded_by eval h)
                  (λ l.
                    Commits-intro E run
                      (λ r c. applied snap.observed_at clock eval res h ok e l c))))

    conclude-Ended :
        (prior : List PriorResource) (entries : List SnapshotEntry)
        (coverage : Option DirectoryCoverage)
        → Ends (conclude env inp snap current prior entries coverage cfg clock db)
    unfolding conclude
    conclude-Ended prior entries coverage =
        let eval = evaluate_head env inp snap prior entries coverage cfg clock db in
        Commits-bind E
          (set_snapshot_evaluated inp.snapshot_id eval.acceptance (some eval.corroboration) db)
          (settle env inp snap current prior entries coverage cfg clock eval)
          (λ d e.
            subst (λ x. Ends (settle env inp snap current prior entries coverage cfg clock eval x))
              (sym (set_snapshot_evaluated-done inp eval db e))
              (settle-Ended prior entries coverage eval))

    conclude_covered-Ended :
        (prior : List PriorResource) (entries : List SnapshotEntry)
        (coverage : Tx (Option DirectoryCoverage))
        → Ends (conclude_covered env inp snap current prior entries coverage cfg clock db)
    unfolding conclude_covered
    conclude_covered-Ended prior entries (done coverage) = conclude-Ended prior entries coverage
    conclude_covered-Ended prior entries (aborted invalid_coverage) = fenced h
    conclude_covered-Ended prior entries (aborted e) = tt

    conclude_fenced-Ended :
        (fence : Tx (Unit {0})) → Ends (conclude_fenced env inp snap current fence cfg clock db)
    unfolding conclude_fenced
    conclude_fenced-Ended (done ok) = conclude_covered-Ended _ _ _
    conclude_fenced-Ended (aborted scoped_fetch_stale) = fenced h
    conclude_fenced-Ended (aborted e) = tt

  reconcile_admitted-Ended :
      (h : Leads inp root db) (snap : Snapshot) (cfg : Config) (clock : ℕ)
      → Ends (reconcile_admitted env inp root snap cfg clock db)
  unfolding reconcile_admitted
  reconcile_admitted-Ended h snap cfg clock =
      let fence = env.validate_scoped_fetch db snap (some inp.admission_seq) in
      let run = conclude_fenced env inp snap root.current_generation fence cfg clock db in
      let open_run =
        if not (is_submitted snap.lifecycle_state) then aborted not_submitted else run in
      Commits-if E (is_deleted root.lifecycle_state) _ open_run (λ d. rejected _ h)
        (λ l.
          Commits-if E (not (is_submitted snap.lifecycle_state)) (aborted not_submitted) run
            (λ n. tt) (λ s. conclude_fenced-Ended h snap cfg clock fence))

  module _ (positive : ltb 0 inp.admission_seq ≡ true)
      (rooted : find_root inp.root_id db.roots ≡ some root) (snap : Snapshot)
      (stored : find_snapshot inp.snapshot_id db.snapshots ≡ some snap)
      (owned : str_eq snap.root_id inp.root_id ≡ true) (cfg : Config) (clock : ℕ) where
    reconcile_bound-Ended : Ends (reconcile_bound env inp root snap cfg clock db)
    unfolding reconcile_bound
    reconcile_bound-Ended =
        let rest : Tx (Database × TxOutcome) = reconcile_admitted env inp root snap cfg clock db in
        let bind : Admission → Tx (Database × TxOutcome) =
          λ a. require (str_eq a.snapshot_id inp.snapshot_id) binding_mismatch >> rest in
        let here = find_admission inp.root_id inp.admission_seq db.admissions in
        Commits-require E (has_number (head_seq inp.root_id db.admissions) inp.admission_seq)
          not_head (scan query_failed here >>= bind)
          (λ first. Commits-scan E here query_failed bind (λ row found.
            Commits-require E (str_eq row.snapshot_id inp.snapshot_id) binding_mismatch rest
              (λ bound.
                reconcile_admitted-Ended
                  (record {
                    positive = positive;
                    rooted = rooted;
                    snap = snap;
                    stored = stored;
                    owned = owned;
                    row = row;
                    first = first;
                    found = found;
                    bound = bound;
                  })
                  snap cfg clock)))

    resolve_head-Ended : Ends (resolve_head env inp root snap cfg clock db)
    unfolding resolve_head
    resolve_head-Ended =
        let look =
          terminal_snapshot_receipt inp.root_id inp.snapshot_id inp.admission_seq
            root.current_generation db in
        let read : ℕ × TxOutcome → Tx (Database × TxOutcome) = λ r. done (db, r.1) in
        Commits-if E (is_reconciled snap.lifecycle_state) (look >>= read)
          (reconcile_bound env inp root snap cfg clock db)
          (λ ended. Commits-bind E look read (λ r e. receipt rooted stored ended e))
          (λ open_. reconcile_bound-Ended)

-- Every commit of the reconcile transaction is one of these.
pub reconcile_head_safe-Ended :
    (env : Env) (inp : ReconcileInput) (cfg : Config) (clock : ℕ) (db : Database)
    → Commits (EndedAt env inp db) (reconcile_head_safe env inp cfg clock db)
unfolding reconcile_head_safe
reconcile_head_safe-Ended env inp cfg clock db =
    let P = EndedAt env inp db in
    let resolve : ResourceRoot → Snapshot → Tx (Database × TxOutcome) =
      λ root snap. resolve_head env inp root snap cfg clock db in
    let own : ResourceRoot → Snapshot → Tx (Database × TxOutcome) = λ root snap.
      require (str_eq snap.root_id inp.root_id) binding_mismatch >> resolve root snap in
    let shot = find_snapshot inp.snapshot_id db.snapshots in
    let load : ResourceRoot → Tx (Database × TxOutcome) =
      λ root. scan binding_mismatch shot >>= own root in
    let lock = find_root inp.root_id db.roots in
    Commits-require P (ltb 0 inp.admission_seq) binding_mismatch (scan query_failed lock >>= load)
      (λ positive. Commits-scan P lock query_failed load (λ root rooted.
        Commits-scan P shot binding_mismatch (own root) (λ snap stored.
          Commits-require P (str_eq snap.root_id inp.root_id) binding_mismatch (resolve root snap)
            (λ owned.
              Commits-map (λ r ended. (root, ended)) (resolve root snap)
                (resolve_head-Ended env inp root db positive rooted snap stored owned cfg clock)))))
