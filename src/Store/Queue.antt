-- ===== src/Store/Queue.antt =====
-- `RecoverStaleInflight` of internal/store/postgres/incremental_recovery.go: the work table is the
-- list of its rows. The code visits a root's IN_FLIGHT rows by scope key; the rows do not depend on
-- one another, so the order of the list stands for it.
pub mod Recovery
use index_core.Base.{
  Str, str_eq, ℕ, ◌+◌, Bool, true, false, ◌&&◌, Option, none, some, List, [], ◌∷◌, if◌then◌else◌,
}
use index_core.Domain.Enums.{RootLifecycleState}
use index_core.Incremental.Model.{DirtyScopeWork}
use index_core.Store.Work.{StoreError, Outcome, ok, failed, not_found, is_in_flight}
use index_core.Store.Work.Attempts.{recover_work}

-- `activeFromLifecycle`.
abbrev pub is_active : RootLifecycleState → Bool
is_active RootLifecycleState.active = true
is_active _ = false

-- `WHERE root_id=$1 AND work_state='IN_FLIGHT'`.
abbrev pub is_stale_row : Str → DirtyScopeWork → Bool
is_stale_row root_id wk = str_eq wk.root_id root_id && is_in_flight wk.work_state

-- The rows after the recovery, and how many were recovered. One failure rolls all of it back.
unfoldable pub recover_rows :
    Str → Bool → ℕ → List DirtyScopeWork → Outcome (List DirtyScopeWork × ℕ)
recover_rows root_id active clock [] = ok ([], 0)
recover_rows root_id active clock (w ∷ ws) = elim (recover_rows root_id active clock ws) [
  | failed e ↦ failed e
  | ok (rest, n) ↦
      if is_stale_row root_id w
      then elim (recover_work w active clock) [ failed e ↦ failed e | ok r ↦ ok (r ∷ rest, n + 1) ]
      else ok (w ∷ rest, n)
]

-- The lifecycle is what the lock on the root row reads; none if there is no such root.
unfoldable pub recover_stale_inflight :
    Str → Option RootLifecycleState → ℕ → List DirtyScopeWork → Outcome (List DirtyScopeWork × ℕ)
recover_stale_inflight root_id none clock rows = failed not_found
recover_stale_inflight root_id (some lifecycle) clock rows =
    recover_rows root_id (is_active lifecycle) clock rows
