-- ===== src/Store/Terminal.antt =====
-- internal/store/postgres/terminal_snapshot.go and consumed_stale_head.go: what the tables say of an
-- input that some transaction has finished already. Both only read.
pub mod Receipts
pub mod Handoff
use index_core.Base.{
  Str, codes, str_eq, ℕ, ◌-◌, ltb, leb, ◌==◌, Bool, true, false, ◌&&◌, ◌||◌, not, Option, none,
  some, List, [], ◌∷◌, any, select, if◌then◌else◌,
}
use index_core.Domain.Enums.{
  AdmissionStatus, SnapshotLifecycleState, AcceptanceState, ReconcileOutcome, is_failed,
  is_reconciled, is_rejected, is_applied, is_noop, is_stale_input,
}
use index_core.Domain.Records.{Generation, Admission, AppliedSnapshot, ReconcileResult}
use index_core.Store.Tables.{
  Database, Tx, done, aborted, ◌>>=◌, ◌>>◌, require, scan, query_failed, terminal_snapshot,
}
use index_core.Store.Tables.Rows.{find_root, find_snapshot, generation_at}

-- `ReconcileOutcome` of tx.go.
pub record TxOutcome : Type 0 where
  pub status : AdmissionStatus
  pub snapshot_lifecycle : SnapshotLifecycleState
  pub generation : ℕ
  pub applied_generation : ℕ
  pub mutated : Bool

-- Exactly one row: `LIMIT 2` shows a second one.
abbrev pub only : {A : Type 0} → List A → Tx A
only (x ∷ []) = done x
only _ = aborted terminal_snapshot

abbrev pub is_accepted : Option AcceptanceState → Bool
is_accepted none = false
is_accepted (some a) = not (is_failed a)

abbrev pub has_number : Option ℕ → ℕ → Bool
has_number none n = false
has_number (some m) n = m == n

abbrev pub has_text : Option Str → Str → Bool
has_text none s = false
has_text (some t) s = str_eq t s

abbrev pub is_blank : Option Str → Bool
is_blank none = true
is_blank (some s) = str_eq s []

abbrev pub is_outcome : AdmissionStatus → ReconcileOutcome → Bool
is_outcome AdmissionStatus.noop ReconcileOutcome.noop = true
is_outcome AdmissionStatus.noop _ = false
is_outcome _ ReconcileOutcome.reconciled = true
is_outcome _ _ = false

abbrev pub result_at : Str → ℕ → ReconcileResult → Bool
result_at root_id seq r = str_eq r.root_id root_id && (r.admission_seq == seq)

abbrev pub history_of : Str → AppliedSnapshot → Bool
history_of snapshot_id h = str_eq h.snapshot_id snapshot_id

abbrev pub produced_by : Str → Str → ℕ → Generation → Bool
produced_by root_id snapshot_id seq g =
    str_eq g.root_id root_id
    && (has_text g.produced_by_snapshot_id snapshot_id
        || has_number g.produced_by_admission_seq seq)

-- APPLIED has its history row; NOOP has none, and some row at its generation.
unfoldable pub check_history : Str → Str → Admission → ℕ → Database → Tx (Unit {0})
check_history root_id snapshot_id a gen db =
    if is_applied a.status
    then (do
      h ← only (select (history_of snapshot_id) db.applied_snapshots)
      require
          (str_eq h.root_id root_id
            && (h.applied_admission_seq == a.admission_seq)
            && (h.applied_generation == gen))
          terminal_snapshot)
    else require
        (not (any (history_of snapshot_id) db.applied_snapshots)
          && any (λ h. str_eq h.root_id root_id && (h.applied_generation == gen))
              db.applied_snapshots)
        terminal_snapshot

abbrev pub unchanged_outcome : AdmissionStatus → ℕ → TxOutcome
unchanged_outcome status gen = record {
  status = status;
  snapshot_lifecycle = SnapshotLifecycleState.reconciled;
  generation = gen;
  applied_generation = gen;
  mutated = false;
}

-- The original generations and the flag, from the generation that the input produced.
unfoldable pub receipt_of : Str → Admission → ℕ → List Generation → Tx (ℕ × TxOutcome)
receipt_of snapshot_id a gen [] = done (a.admission_seq, unchanged_outcome a.status gen)
receipt_of snapshot_id a gen (g ∷ []) = do
  require
      (is_applied a.status
        && (g.generation_number == gen)
        && ltb 0 g.generation_number
        && has_text g.produced_by_snapshot_id snapshot_id
        && has_number g.produced_by_admission_seq a.admission_seq)
      terminal_snapshot
  done (
    a.admission_seq,
    record (unchanged_outcome a.status gen) {
      generation = g.generation_number - 1;
      mutated = true;
    },
  )
receipt_of snapshot_id a gen _ = aborted terminal_snapshot

-- An expected sequence of 0 accepts any.
unfoldable pub terminal_snapshot_receipt : Str → Str → ℕ → ℕ → Database → Tx (ℕ × TxOutcome)
terminal_snapshot_receipt root_id snapshot_id expected current db = do
  snap ← scan query_failed (find_snapshot snapshot_id db.snapshots)
  require
      (str_eq snap.root_id root_id
        && is_reconciled snap.lifecycle_state
        && is_accepted snap.acceptance_state)
      terminal_snapshot
  a ← only (select (λ a. str_eq a.snapshot_id snapshot_id) db.admissions)
  gen ← scan terminal_snapshot a.applied_generation
  require
      (str_eq a.root_id root_id
        && ltb 0 a.admission_seq
        && ((expected == 0) || (a.admission_seq == expected))
        && leb gen current
        && (is_applied a.status || is_noop a.status))
      terminal_snapshot
  root ← scan query_failed (find_root root_id db.roots)
  require (leb a.admission_seq root.latest_admission_seq) terminal_snapshot
  require ((gen == 0) || any (generation_at root_id gen) db.generations) terminal_snapshot
  r ← only (select (result_at root_id a.admission_seq) db.results)
  require
      (is_outcome a.status r.outcome
        && has_number r.generation_number gen
        && is_blank r.rejection_reason)
      terminal_snapshot
  check_history root_id snapshot_id a gen db
  receipt_of snapshot_id a gen
      (select (produced_by root_id snapshot_id a.admission_seq) db.generations)

abbrev pub is_none : Option ℕ → Bool
is_none none = true
is_none (some n) = false

abbrev pub is_stale_outcome : ReconcileOutcome → Bool
is_stale_outcome ReconcileOutcome.stale_input = true
is_stale_outcome _ = false

abbrev pub superseded : Str
superseded = codes "superseded input"

-- `false` keeps the error of the lost race.
unfoldable pub consumed_stale_head : Str → ℕ → Str → Database → Tx Bool
consumed_stale_head root_id seq snapshot_id db = do
  require (ltb 0 seq) terminal_snapshot
  root ← scan query_failed (find_root root_id db.roots)
  snap ← scan query_failed (find_snapshot snapshot_id db.snapshots)
  require (str_eq snap.root_id root_id && leb seq root.latest_admission_seq) terminal_snapshot
  if not (is_rejected snap.lifecycle_state) then done false else do
    a ← only (select (λ a. str_eq a.snapshot_id snapshot_id) db.admissions)
    require
        (str_eq a.root_id root_id
          && (a.admission_seq == seq)
          && is_stale_input a.status
          && is_none a.applied_generation)
        terminal_snapshot
    r ← only (select (result_at root_id seq) db.results)
    require
        (is_stale_outcome r.outcome
          && is_none r.generation_number
          && has_text r.rejection_reason superseded)
        terminal_snapshot
    require
        (not (
            any
              (λ h.
                history_of snapshot_id h
                || str_eq h.root_id root_id && (h.applied_admission_seq == seq))
              db.applied_snapshots)
          && not (
              any
                (λ g.
                  has_text g.produced_by_snapshot_id snapshot_id
                  || str_eq g.root_id root_id && has_number g.produced_by_admission_seq seq)
                db.generations))
        terminal_snapshot
    done true
