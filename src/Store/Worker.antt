-- ===== src/Store/Worker.antt =====
-- `ProcessHead` and `ProcessSnapshot` of internal/store/postgres/coordinator.go, and pending.go. Both
-- run more than one transaction: what the first one commits stays, so the tables stand beside the
-- result. `selected` is the state in which the head was chosen, which another worker may have changed
-- since.
use index_core.Base.{
  Str, ℕ, Bool, true, false, Option, none, some, is_some, List, [], ◌∷◌, map, contains, select,
  str_ltb, sort_by, if◌then◌else◌,
}
use index_core.Domain.Enums.{is_pending}
use index_core.Domain.Records.{Admission}
use index_core.Kernel.Reconcile.Types.{Config, validate}
use index_core.Store.Admission.{admit_or_resume_snapshot}
use index_core.Store.Commit.{Env, ReconcileInput}
use index_core.Store.Coordinator.{reconcile_head_safe}
use index_core.Store.Tables.{
  Database, Tx, done, aborted, not_head, invalid_config, stale_head_consumed,
}
use index_core.Store.Tables.Rows.{head_seq, find_admission}
use index_core.Store.Terminal.{TxOutcome, consumed_stale_head}

-- The first PENDING row by sequence.
unfoldable pub pending_head : Str → Database → Option Admission
pending_head root_id db = elim (head_seq root_id db.admissions) [
  | none ↦ none
  | some seq ↦ find_admission root_id seq db.admissions
]

unfoldable pub distinct_roots : List Str → List Str
distinct_roots [] = []
distinct_roots (r ∷ rs) = let rest = distinct_roots rs in if contains rest r then rest else r ∷ rest

unfoldable pub pending_roots : Database → List Str
pending_roots db =
    sort_by str_ltb
      (distinct_roots (map (λ a. a.root_id) (select (λ a. is_pending a.status) db.admissions)))

abbrev pub input_of : Admission → ReconcileInput
input_of a = record {
  root_id = a.root_id;
  admission_seq = a.admission_seq;
  snapshot_id = a.snapshot_id;
}

abbrev pub committed : Database → Tx (Database × TxOutcome) → Database
committed db (done r) = r.0
committed db (aborted e) = db

abbrev pub outcome_of : Tx (Database × TxOutcome) → Tx TxOutcome
outcome_of (done r) = done r.1
outcome_of (aborted e) = aborted e

-- A lost race for the head: the receipt of the winner, if it is a stale input.
unfoldable pub after_race : Tx Bool → Tx TxOutcome
after_race (done true) = aborted stale_head_consumed
after_race (done false) = aborted not_head
after_race (aborted e) = aborted e

unfoldable pub process_result : Admission → Database → Tx (Database × TxOutcome) → Tx TxOutcome
process_result a later (aborted not_head) =
    after_race (consumed_stale_head a.root_id a.admission_seq a.snapshot_id later)
process_result a later (aborted e) = aborted e
process_result a later (done r) = done r.1

module _ (env : Env) where
  -- `later` is the state in which the receipt of a lost race is read. The flag says that there was a
  -- head.
  unfoldable pub process_head :
      Str → Config → ℕ → Database → Database → Database → Database × Tx TxOutcome × Bool
  process_head root_id cfg clock selected db later =
      if is_some (validate cfg)
      then (db, aborted invalid_config, false)
      else elim (pending_head root_id selected) [
        | none ↦ (db, aborted not_head, false)
        | some a ↦
            let run = reconcile_head_safe env (input_of a) cfg clock db in
            (committed db run, process_result a later run, true)
      ]

  -- The admission and the reconcile, with nothing of another worker in between.
  unfoldable pub process_snapshot : Str → Str → Config → ℕ → Database → Database × Tx TxOutcome
  process_snapshot root_id snapshot_id cfg clock db =
      if is_some (validate cfg)
      then (db, aborted invalid_config)
      else elim (admit_or_resume_snapshot env.validate_scoped_fetch true root_id snapshot_id clock
          db) [
            | aborted e ↦ (db, aborted e)
            | done admitted ↦
                let run =
                  reconcile_head_safe env
                    (record {
                      root_id = root_id;
                      admission_seq = admitted.1;
                      snapshot_id = snapshot_id;
                    })
                    cfg clock admitted.0 in
                (committed admitted.0 run, outcome_of run)
          ]
