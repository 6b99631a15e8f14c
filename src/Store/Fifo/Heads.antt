-- ===== src/Store/Fifo/Heads.antt =====
-- `ReconcileHead` of tx.go takes the front ticket off the queue of its root, and `MarkAdmissionFailed`
-- takes one off wherever it stands.
use index_core.Base.{
  Str, str_eq, str_eq_iff, ℕ, leb, ◌==◌, ◌≡◌, refl, sym, ap, subst, ◌∙◌, inl, inr, true, not,
  Option, none, List, ◌∷◌, arith, Bool-cases,
}
use index_core.Domain.Enums.{AdmissionStatus, is_deleted}
use index_core.Domain.Entities.{SnapshotIdentity}
use index_core.Domain.Records.{ResourceRoot, Snapshot}
use index_core.Kernel.Reconcile.Types.{PriorResource, Result}
use index_core.Store.Commit.{Env, ReconcileInput, reject, commit_noop, commit_applied}
use index_core.Store.Commit.Effects.{commit_applied-done}
use index_core.Store.Fifo.{queue_of, IsFifo}
use index_core.Store.Fifo.Departures.{
  Departs, Departs-IsFifo, Departs-other, finish-Departs, applied-Departs, head_seq-some,
}
use index_core.Store.Fifo.Moves.{Moves, stays, departs, Refines}
use index_core.Store.Fifo.Rows.{
  without, without-Above, head_seq-front, queue-front, queue-set_status,
}
use index_core.Store.Head.{
  reconcile_head, reconcile_live, reconcile_evaluated, apply_head, is_evaluated, has_failed,
  expected_or, mark_admission_failed,
}
use index_core.Store.Prior.{load_prior_resources}
use index_core.Store.Tables.{Database, Tx, done, not_found, not_head, cas_conflict}
use index_core.Store.Tables.Commits.{
  Commits, Commits-intro, Commits-bind, Commits-require, Commits-scan, Commits-if, Commits-done,
}
use index_core.Store.Tables.Rows.{
  find_root, find_snapshot, head_seq, applied_max, applied_exists_at_generation,
  set_admission_status, insert_result,
}
use index_core.Store.Terminal.{TxOutcome, has_number}

module _ (env : Env) (compute : List PriorResource → Snapshot → ℕ → Tx Result)
    (inp : ReconcileInput) (identity : SnapshotIdentity) (expected : Option ℕ) (clock : ℕ)
    (db : Database) where
  abbrev D : Database × TxOutcome → Type 0
  D r = Departs inp db r.0

  commit_applied-Departs :
      (current observed_at : ℕ) (res : Result)
      → Commits D (commit_applied env inp current observed_at clock identity res db)
  commit_applied-Departs current observed_at res =
      let run = commit_applied env inp current observed_at clock identity res db in
      Commits-intro D run (λ r e.
        subst D (sym (commit_applied-done env inp current observed_at clock res identity db e))
          (applied-Departs env inp current observed_at clock res db identity))

  apply_head-Departs :
      (snap : Snapshot) (current : ℕ)
      → Commits D (apply_head env compute inp identity expected snap current clock db)
  unfolding apply_head
  apply_head-Departs snap current =
      Commits-bind D (compute (load_prior_resources inp.root_id db) snap current) _ (λ res made.
        Commits-require D (expected_or expected current == current) cas_conflict _
          (λ same. commit_applied-Departs current snap.observed_at res))

  reconcile_evaluated-Departs :
      (snap : Snapshot) (current : ℕ)
      → Commits D (reconcile_evaluated env compute inp identity expected snap current clock db)
  unfolding reconcile_evaluated reject commit_noop
  reconcile_evaluated-Departs snap current =
      Commits-if D (not (is_evaluated snap.lifecycle_state)) _ _
        (λ e. finish-Departs inp _ _ _ _ _ _ db db refl refl refl)
        (λ e.
          Commits-if D (has_failed snap.acceptance_state) _ _
            (λ f. finish-Departs inp _ _ _ _ _ _ db db refl refl refl)
            (λ f.
              Commits-if D (applied_exists_at_generation inp.root_id identity current db) _ _
                (λ g. finish-Departs inp _ _ _ _ _ _ db db refl refl refl)
                (λ g.
                  Commits-if D (leb inp.admission_seq (applied_max inp.root_id db.admissions)) _ _
                    (λ l. finish-Departs inp _ _ _ _ _ _ db db refl refl refl)
                    (λ l. apply_head-Departs snap current))))

  reconcile_live-Departs :
      (root : ResourceRoot)
      → Commits D (reconcile_live env compute inp identity expected root clock db)
  unfolding reconcile_live reject
  reconcile_live-Departs root =
      Commits-if D (is_deleted root.lifecycle_state) _ _
        (λ e. finish-Departs inp _ _ _ _ _ _ db db refl refl refl)
        (λ e.
          Commits-scan D (find_snapshot inp.snapshot_id db.snapshots) not_found _
            (λ snap stored. reconcile_evaluated-Departs snap root.current_generation))

  abbrev HeadDeparts : Database × TxOutcome → Type 0
  HeadDeparts r =
      (has_number (head_seq inp.root_id db.admissions) inp.admission_seq ≡ true)
      × Departs inp db r.0

  reconcile_head-Departs :
      {r : Database × TxOutcome}
      → reconcile_head env compute inp identity expected clock db ≡ done r
      → HeadDeparts r
  unfolding reconcile_head
  reconcile_head-Departs {r} e = Commits-done HeadDeparts _ r e (
      Commits-scan HeadDeparts (find_root inp.root_id db.roots) not_found _ (λ root rooted.
        let live = reconcile_live env compute inp identity expected root clock db in
        Commits-require HeadDeparts
          (has_number (head_seq inp.root_id db.admissions) inp.admission_seq) not_head live
          (λ first.
            Commits-intro HeadDeparts live
              (λ s made. (first, Commits-done D live s made (reconcile_live-Departs root))))))

  -- The departure of the front.
  reconcile_head-Moves :
      (r : Database × TxOutcome)
      → HeadDeparts r
      → IsFifo inp.root_id db
      → Moves (queue_of inp.root_id db.admissions) (queue_of inp.root_id r.0.admissions)
  reconcile_head-Moves r (first, d) s =
      let rows = db.admissions in
      let seq = inp.admission_seq in
      let leads =
        sym (head_seq-front inp.root_id rows 0 s.ascending)
        ∙ head_seq-some inp (head_seq inp.root_id rows) first in
      let (t, q, made, number, above) = queue-front inp.root_id rows 0 seq s.ascending leads in
      let rest : queue_of inp.root_id r.0.admissions ≡ q =
        ap (queue_of inp.root_id) d.admissions
        ∙ queue-set_status inp.root_id rows seq d.status d.gen d.terminal
        ∙ ap (without seq) made
        ∙ ground (arith, number, without-Above seq q above) in
      subst (λ x. Moves x (queue_of inp.root_id r.0.admissions)) (sym made)
        (subst (Moves (t ∷ q)) (sym rest) (departs t q))

  pub reconcile_head-Refines :
      {r : Database × TxOutcome}
      → reconcile_head env compute inp identity expected clock db ≡ done r
      → (root_id : Str) → IsFifo root_id db
      → Refines root_id db r.0
  reconcile_head-Refines {r} e root_id s =
      let both = reconcile_head-Departs e in
      (
        elim (Bool-cases (str_eq root_id inp.root_id)) [
          | inl same ↦
              let named = (str_eq_iff root_id inp.root_id).0 same in
              subst (λ o. Moves (queue_of o db.admissions) (queue_of o r.0.admissions)) (sym named)
                (reconcile_head-Moves r both (subst (λ o. IsFifo o db) named s))
          | inr apart ↦
              subst (Moves (queue_of root_id db.admissions))
                (sym (Departs-other inp db r.0 both.1 root_id apart)) (stays _)
        ],
        Departs-IsFifo inp db r.0 both.1 root_id s,
      )

-- A failed admission leaves the queue wherever it stands in it.
pub mark_admission_failed-queue :
    (root_id : Str) (seq : ℕ) (reason : Str) (db : Database)
    → queue_of root_id (mark_admission_failed root_id seq reason db).admissions
      ≡ without seq (queue_of root_id db.admissions)
unfolding mark_admission_failed set_admission_status insert_result
mark_admission_failed-queue root_id seq reason db =
    queue-set_status root_id db.admissions seq AdmissionStatus.failed none refl
