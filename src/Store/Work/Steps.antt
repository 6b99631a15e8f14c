-- ===== src/Store/Work/Steps.antt =====
-- The transactions on a work row as one step relation, and the rows that it reaches.
use index_core.Base.{ℕ, ℤ, ◌≡◌, Bool, true, ◌&&◌, Option, List, [], ◌∷◌, if◌then◌else◌}
use index_core.Incremental.Model.{ErrorClass, DirtyScopeWork, DirtySignal}
use index_core.Incremental.Sets.{is_valid_priority, is_valid_source, is_valid_reason}
use index_core.Store.Work.{
  Outcome, ok, failed, invalid_enum, new_work_from_signal, apply_merge, write_work,
}
use index_core.Store.Work.Attempts.{
  Claim, claimed, put_aside, refused, claim_work, complete_success, complete_failure, recover_work,
}
use index_core.Store.Work.Scheduling.{budget_defer, retry_ready, resume_suspended, repair_blocked}

-- What `MergeSignal` validates before it opens a transaction; the scope key is in Incremental/Scope.
abbrev pub is_valid_signal : DirtySignal → Bool
is_valid_signal sig =
    is_valid_source sig.source && is_valid_reason sig.reason && is_valid_priority sig.priority

-- The row that a claim commits.
abbrev pub row_of : Claim → Outcome DirtyScopeWork
row_of (claimed wk) = ok wk
row_of (put_aside wk) = ok wk
row_of (refused e) = failed e

-- `applyMerge` and the write.
abbrev pub merge_work : DirtyScopeWork → DirtySignal → Bool → ℕ → Outcome DirtyScopeWork
merge_work wk sig active clock =
    if is_valid_signal sig
    then elim (apply_merge wk sig active) [ failed e ↦ failed e | ok w ↦ ok (write_work clock w) ]
    else failed invalid_enum

-- An operation with its arguments; `active` is what the root's lifecycle was under its lock, `watched`
-- whether the write of its watch row, where there is one, succeeds.
pub data Op : Type 0 where
  merge : DirtySignal → (active : Bool) → (clock : ℕ) → Op
  claim : (expected : ℕ) → (active watched : Bool) → (now clock : ℕ) → Op
  succeed : (seq : ℤ) → (watched : Bool) → (now clock : ℕ) → Op
  fail :
      (seq : ℤ)
      → ErrorClass
      → (retry_not_before : Option ℕ) → (watched : Bool) → (now clock : ℕ) → Op
  recover : (active : Bool) → (clock : ℕ) → Op
  postpone : (expected not_before clock : ℕ) → Op
  retry : (active : Bool) → (expected now : ℕ) → Op
  resume : (active : Bool) → (expected now : ℕ) → Op
  repair : (active : Bool) → (expected now : ℕ) → Op

unfoldable pub run : Op → DirtyScopeWork → Outcome DirtyScopeWork
run (merge sig active clock) wk = merge_work wk sig active clock
run (claim expected active watched now clock) wk =
    row_of (claim_work wk expected active watched now clock)
run (succeed seq watched now clock) wk = complete_success wk seq watched now clock
run (fail seq class retry_not_before watched now clock) wk =
    complete_failure wk seq class retry_not_before watched now clock
run (recover active clock) wk = recover_work wk active clock
run (postpone expected not_before clock) wk = budget_defer wk expected not_before clock
run (retry active expected now) wk = retry_ready wk active expected now
run (resume active expected now) wk = resume_suspended wk active expected now
run (repair active expected now) wk = repair_blocked wk active expected now

-- What is left of the row after some operations: one that fails is rolled back.
unfoldable pub run_all : List Op → DirtyScopeWork → DirtyScopeWork
run_all [] wk = wk
run_all (op ∷ ops) wk = run_all ops (elim (run op wk) [ ok w ↦ w | failed e ↦ wk ])

-- A row starts as a validated signal; then any operation that succeeds may follow.
pub data Reachable : DirtyScopeWork → Type 0 where
  signal :
      (sig : DirtySignal) (active : Bool) (clock : ℕ)
      → is_valid_signal sig ≡ true
      → Reachable (new_work_from_signal sig active clock)
  after : {wk next : DirtyScopeWork} (op : Op) → Reachable wk → run op wk ≡ ok next → Reachable next
