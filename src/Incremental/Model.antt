-- ===== src/Incremental/Model.antt =====
-- internal/incremental/state/model.go: the scope watches and the coalesced verification work. A
-- string type may hold a text that is none of its constants; `other` stands for such a text.
use index_core.Base.{
  Str, ℕ, leb, ltb, ℤ, Bool, true, false, ◌&&◌, not, Option, none, some, List, if◌then◌else◌,
}

pub data WatchState : Type 0 where
  hot warm cold disabled : WatchState
  other : Str → WatchState

-- Only HOT and WARM are polled periodically.
unfoldable pub scheduled : WatchState → Bool
scheduled WatchState.hot = true
scheduled WatchState.warm = true
scheduled _ = false

pub data WorkState : Type 0 where
  pending in_flight verified retry_wait blocked suspended : WorkState
  other : Str → WorkState

pub data Priority : Type 0 where
  urgent high normal low : Priority
  other : Str → Priority

unfoldable pub priority_rank : Priority → ℕ
priority_rank Priority.urgent = 4
priority_rank Priority.high = 3
priority_rank Priority.normal = 2
priority_rank Priority.low = 1
priority_rank (Priority.other s) = 0

unfoldable pub max_priority : Priority → Priority → Priority
max_priority a b = if leb (priority_rank b) (priority_rank a) then a else b

pub data TriggerSource : Type 0 where
  poll_schedule mutation_hint manual_operator provider_event recovery full_verify_backstop :
      TriggerSource
  other : Str → TriggerSource

pub data TriggerReason : Type 0 where
  possible_change delete_hint move_uncertain metadata_uncertain manual_verify drift_verify retry :
      TriggerReason
  other : Str → TriggerReason

pub data ErrorClass : Type 0 where
  transient_provider throttled auth_or_permission scope_too_large invalid_scope : ErrorClass
  root_inactive config_invalid internal : ErrorClass
  other : Str → ErrorClass

-- ROOT_INACTIVE is lifecycle, not a failure.
unfoldable pub is_provider_failure : ErrorClass → Bool
is_provider_failure ErrorClass.root_inactive = false
is_provider_failure _ = true

unfoldable pub target_work_state : ErrorClass → WorkState
target_work_state ErrorClass.transient_provider = WorkState.retry_wait
target_work_state ErrorClass.throttled = WorkState.retry_wait
target_work_state ErrorClass.internal = WorkState.retry_wait
target_work_state ErrorClass.auth_or_permission = WorkState.blocked
target_work_state ErrorClass.scope_too_large = WorkState.blocked
target_work_state ErrorClass.invalid_scope = WorkState.blocked
target_work_state ErrorClass.config_invalid = WorkState.blocked
target_work_state ErrorClass.root_inactive = WorkState.suspended
target_work_state (ErrorClass.other s) = WorkState.blocked

-- The scheduling half of a watch, which is all that the work queue reads and writes.
pub record ScopeWatchState : Type 0 where
  pub root_id : Str
  pub scope_key : Str
  pub watch_state : WatchState
  pub effective_interval_seconds : Option ℤ
  pub priority : Priority
  pub last_due_at : Option ℕ
  pub last_attempt_started_at : Option ℕ
  pub last_attempt_finished_at : Option ℕ
  pub last_success_at : Option ℕ
  pub next_due_at : Option ℕ
  pub consecutive_failures : ℤ
  pub last_error_class : Option ErrorClass
  pub deferred_until : Option ℕ
  pub updated_at : ℕ
  pub version : ℕ

-- `t != nil && t.After(now)`.
abbrev pub is_after : Option ℕ → ℕ → Bool
is_after none now = false
is_after (some t) now = ltb now t

unfoldable pub due : ScopeWatchState → ℕ → Bool
due w now = elim w.next_due_at [
  | none ↦ false
  | some t ↦ scheduled w.watch_state && not (ltb now t) && not (is_after w.deferred_until now)
]

-- The five columns that a claim moves from `pending_*` to `claimed_*`.
pub record Bucket : Type 0 where
  pub source_set : List TriggerSource
  pub reason_set : List TriggerReason
  pub priority : Option Priority
  pub first_seen_at : Option ℕ
  pub not_before : Option ℕ

pub record DirtyScopeWork : Type 0 where
  pub root_id : Str
  pub scope_key : Str
  pub work_state : WorkState
  pub signal_seq : ℤ
  pub claimed_signal_seq : Option ℤ
  pub claimed : Bucket
  pub pending : Bucket
  pub last_seen_at : ℕ
  pub attempt_count : ℤ
  pub consecutive_failures : ℤ
  pub last_attempt_started_at : Option ℕ
  pub last_attempt_finished_at : Option ℕ
  pub last_error_class : Option ErrorClass
  pub last_verified_at : Option ℕ
  pub last_verified_signal_seq : Option ℤ
  pub created_at : ℕ
  pub updated_at : ℕ
  pub version : ℕ

pub record DirtySignal : Type 0 where
  pub root_id : Str
  pub scope_key : Str
  pub source : TriggerSource
  pub reason : TriggerReason
  pub priority : Priority
  pub not_before : Option ℕ
  pub seen_at : ℕ
