-- ===== src/Store/Terminal/Receipts.antt =====
-- When a terminal receipt is given, and what the writes of a commit do to the rows that it reads.
use index_core.Base.{
  Str, str_eq, ℕ, ◌≤◌, ltb, ◌==◌, ◌≡◌, refl, true, false, ◌&&◌, ◌||◌, Option, some, List, [], ◌∷◌,
  any, select, if◌then◌else◌, arith, Bool-cases, inl, inr,
}
use index_core.Domain.Enums.{AdmissionStatus, is_reconciled, is_applied, is_noop}
use index_core.Domain.Records.{
  ResourceRoot, Generation, Snapshot, Admission, AppliedSnapshot, ReconcileResult,
}
use index_core.Store.Tables.{Database, done}
use index_core.Store.Tables.Rows.{
  find_root, find_snapshot, update_snapshot, set_status, admission_at, generation_at,
}
use index_core.Store.Terminal.{
  TxOutcome, terminal_snapshot_receipt, check_history, receipt_of, is_accepted, is_outcome,
  has_number, is_blank, result_at, history_of, produced_by,
}

-- The rows of a finished input.
pub record IsFinished (root_id snapshot_id : Str) (seq gen : ℕ) (db : Database) : Type 0 where
  pub snap : Snapshot
  pub stored : find_snapshot snapshot_id db.snapshots ≡ some snap
  pub owned : str_eq snap.root_id root_id ≡ true
  pub reconciled : is_reconciled snap.lifecycle_state ≡ true
  pub accepted : is_accepted snap.acceptance_state ≡ true
  pub row : Admission
  pub admitted : select (λ a. str_eq a.snapshot_id snapshot_id) db.admissions ≡ row ∷ []
  pub row_root : str_eq row.root_id root_id ≡ true
  pub row_seq : row.admission_seq ≡ seq
  pub row_gen : row.applied_generation ≡ some gen
  pub root : ResourceRoot
  pub rooted : find_root root_id db.roots ≡ some root
  pub counted : seq ≤ root.latest_admission_seq
  pub reached : gen ≤ root.current_generation
  pub produced : ((gen == 0) || any (generation_at root_id gen) db.generations) ≡ true
  pub result : ReconcileResult
  pub recorded : select (result_at root_id seq) db.results ≡ result ∷ []
  pub outcome_ok : is_outcome row.status result.outcome ≡ true
  pub result_gen : has_number result.generation_number gen ≡ true
  pub no_reason : is_blank result.rejection_reason ≡ true

module _ (root_id snapshot_id : Str) (seq gen : ℕ) (db : Database) (positive : ltb 0 seq ≡ true)
    (f : IsFinished root_id snapshot_id seq gen db) where
  -- An input that was applied, at a generation that it produced or found.
  pub receipt-applied :
      (h : AppliedSnapshot) (made : List Generation) {out : ℕ × TxOutcome}
      → is_applied f.row.status ≡ true
      → select (history_of snapshot_id) db.applied_snapshots ≡ h ∷ []
      → str_eq h.root_id root_id ≡ true
      → h.applied_admission_seq ≡ seq
      → h.applied_generation ≡ gen
      → select (produced_by root_id snapshot_id seq) db.generations ≡ made
      → receipt_of snapshot_id f.row gen made ≡ done out
      → terminal_snapshot_receipt root_id snapshot_id seq f.root.current_generation db ≡ done out
  unfolding terminal_snapshot_receipt check_history
  receipt-applied h made status kept h_root h_seq h_gen made_by ended = ground (
    arith, positive, status, kept, h_root, h_seq, h_gen, made_by, ended, f.stored, f.owned,
    f.reconciled, f.accepted, f.admitted, f.row_root, f.row_seq, f.row_gen, f.rooted, f.counted,
    f.reached, f.produced, f.recorded, f.outcome_ok, f.result_gen, f.no_reason,
  )

  -- An input without effect has no history, and its generation has some.
  pub receipt-noop :
      {out : ℕ × TxOutcome}
      → is_noop f.row.status ≡ true
      → any (history_of snapshot_id) db.applied_snapshots ≡ false
      → any (λ h. str_eq h.root_id root_id && (h.applied_generation == gen)) db.applied_snapshots
        ≡ true
      → select (produced_by root_id snapshot_id seq) db.generations ≡ []
      → receipt_of snapshot_id f.row gen [] ≡ done out
      → terminal_snapshot_receipt root_id snapshot_id seq f.root.current_generation db ≡ done out
  unfolding terminal_snapshot_receipt check_history
  receipt-noop status no_history anchor made_by ended = ground (
    arith, positive, status, no_history, anchor, made_by, ended, f.stored, f.owned, f.reconciled,
    f.accepted, f.admitted, f.row_root, f.row_seq, f.row_gen, f.rooted, f.counted, f.reached,
    f.produced, f.recorded, f.outcome_ok, f.result_gen, f.no_reason,
  )

pub find_snapshot-update :
    (f : Snapshot → Snapshot) (same_id : (s : Snapshot) → (f s).snapshot_id ≡ s.snapshot_id)
    (id : Str) (rows : List Snapshot) (snap : Snapshot)
    → find_snapshot id rows ≡ some snap
    → find_snapshot id (update_snapshot f id rows) ≡ some (f snap)
unfolding find_snapshot update_snapshot
find_snapshot-update f same_id id [] snap e = ground (arith, e)
find_snapshot-update f same_id id (s ∷ rows) snap e = elim (Bool-cases (str_eq s.snapshot_id id)) [
  | inl here ↦ ground (arith, e, here, same_id s)
  | inr past ↦
      ground (arith, e, past, find_snapshot-update f same_id id rows snap (ground (arith, e, past)))
]

-- Selecting by snapshot and setting a status commute.
pub select-set_status :
    (id root_id : Str) (seq : ℕ) (status : AdmissionStatus) (gen : Option ℕ) (rows : List Admission)
    → select (λ a. str_eq a.snapshot_id id) (set_status root_id seq status gen rows)
      ≡ set_status root_id seq status gen (select (λ a. str_eq a.snapshot_id id) rows)
unfolding select set_status
select-set_status id root_id seq status gen [] = refl
select-set_status id root_id seq status gen (a ∷ rows) =
    let rest = select-set_status id root_id seq status gen rows in
    let new : Admission =
      if admission_at root_id seq a
      then record a { status = status; applied_generation = gen }
      else a in
    let same : str_eq new.snapshot_id id ≡ str_eq a.snapshot_id id = ground arith in
    elim (Bool-cases (str_eq a.snapshot_id id)) [
      | inl e ↦ rw (same, e, rest)
      | inr e ↦ rw (same, e, rest)
    ]
