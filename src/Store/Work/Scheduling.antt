-- ===== src/Store/Work/Scheduling.antt =====
-- The transitions that change when a row may run. Each is one UPDATE whose WHERE names the version
-- and the state; a row that does not match is a conflict.
use index_core.Base.{ℕ, ltb, leb, ◌==◌, Bool, true, false, ◌&&◌, Option, none, some, if◌then◌else◌}
use index_core.Incremental.Model.{WorkState, DirtyScopeWork}
use index_core.Store.Work.{Outcome, ok, failed, cas_conflict, write_work, is_pending}
use index_core.Store.Work.Attempts.{is_retry_wait}

abbrev pub is_blocked : WorkState → Bool
is_blocked WorkState.blocked = true
is_blocked _ = false

abbrev pub is_suspended : WorkState → Bool
is_suspended WorkState.suspended = true
is_suspended _ = false

-- `pending_not_before IS NULL OR pending_not_before < $3`.
abbrev pub is_earlier : Option ℕ → ℕ → Bool
is_earlier none t = true
is_earlier (some u) t = ltb u t

-- `pending_not_before IS NOT NULL AND pending_not_before <= $3`.
abbrev pub is_elapsed : Option ℕ → ℕ → Bool
is_elapsed none t = false
is_elapsed (some u) t = leb u t

unfoldable pub budget_defer : DirtyScopeWork → ℕ → ℕ → ℕ → Outcome DirtyScopeWork
budget_defer wk expected not_before clock =
    if wk.version == expected
      && is_pending wk.work_state
      && is_earlier wk.pending.not_before not_before
    then ok (
        write_work clock
          (record wk { pending = record (wk.pending) { not_before = some not_before } }))
    else failed cas_conflict

unfoldable pub retry_ready : DirtyScopeWork → Bool → ℕ → ℕ → Outcome DirtyScopeWork
retry_ready wk active expected now =
    if active
      && wk.version == expected
      && is_retry_wait wk.work_state
      && is_elapsed wk.pending.not_before now
    then ok (
        write_work now (record wk {
          work_state = WorkState.pending;
          pending = record (wk.pending) { not_before = none };
        }))
    else failed cas_conflict

unfoldable pub resume_suspended : DirtyScopeWork → Bool → ℕ → ℕ → Outcome DirtyScopeWork
resume_suspended wk active expected now =
    if active && wk.version == expected && is_suspended wk.work_state
    then ok (write_work now (record wk { work_state = WorkState.pending }))
    else failed cas_conflict

unfoldable pub repair_blocked : DirtyScopeWork → Bool → ℕ → ℕ → Outcome DirtyScopeWork
repair_blocked wk active expected now =
    if active && wk.version == expected && is_blocked wk.work_state
    then ok (write_work now (record wk { work_state = WorkState.pending }))
    else failed cas_conflict
