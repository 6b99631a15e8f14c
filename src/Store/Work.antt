-- ===== src/Store/Work.antt =====
-- internal/store/postgres/incremental_work.go, incremental_transitions.go and
-- incremental_recovery.go: what each transaction does to one row of the work table. `clock` is
-- `time.Now` where the row is written; an operation on a row that it does not find is in Store/Queue.
pub mod Attempts
pub mod Scheduling
pub mod Steps
pub mod Unions
pub mod Soundness
pub mod Signals
pub mod Claims
use index_core.Base.{
  Str, ℕ, ◌+◌, ltb, leb, ◌==◌, ℤ, pos, inc_int64, eq_ℤ, Bool, true, false, ◌&&◌, ◌||◌, not, Option,
  none, some, List, [], ◌∷◌, is_empty, if◌then◌else◌,
}
use index_core.Incremental.Model.{
  WorkState, Priority, max_priority, TriggerSource, TriggerReason, ErrorClass, target_work_state,
  is_provider_failure, is_after, Bucket, DirtyScopeWork, DirtySignal,
}
use index_core.Incremental.Sets.{is_valid_error_class, sources, reasons, union, min_time, max_time}

pub data StoreError : Type 0 where
  invalid_enum unsupported_state not_found cas_conflict stale_claim root_not_active : StoreError
  not_pending not_eligible empty_bucket missing_retry retry_not_later : StoreError
  invalid_scope_key invalid_child too_many_children not_scheduled not_due deferred : StoreError
  watch_failed : StoreError

pub data Outcome {ℓ} (A : Type ℓ) : Type ℓ where
  ok : A → Outcome A
  failed : StoreError → Outcome A

abbrev pub empty_bucket_row : Bucket
empty_bucket_row = record {
  source_set = [];
  reason_set = [];
  priority = none;
  first_seen_at = none;
  not_before = none;
}

-- `writeWork`: every write counts one version.
abbrev pub write_work : ℕ → DirtyScopeWork → DirtyScopeWork
write_work clock wk = record wk { version = wk.version + 1; updated_at = clock }

abbrev pub bucket_of : DirtySignal → Bucket
bucket_of sig = record {
  source_set = sig.source ∷ [];
  reason_set = sig.reason ∷ [];
  priority = some sig.priority;
  first_seen_at = some sig.seen_at;
  not_before = sig.not_before;
}

abbrev pub runnable_state : Bool → WorkState
runnable_state active = if active then WorkState.pending else WorkState.suspended

-- `newWorkFromSignal`, as `insertWork` stores it.
unfoldable pub new_work_from_signal : DirtySignal → Bool → ℕ → DirtyScopeWork
new_work_from_signal sig active clock = record {
  root_id = sig.root_id;
  scope_key = sig.scope_key;
  work_state = runnable_state active;
  signal_seq = pos 1;
  claimed_signal_seq = none;
  claimed = empty_bucket_row;
  pending = bucket_of sig;
  last_seen_at = sig.seen_at;
  attempt_count = pos 0;
  consecutive_failures = pos 0;
  last_attempt_started_at = none;
  last_attempt_finished_at = none;
  last_error_class = none;
  last_verified_at = none;
  last_verified_signal_seq = none;
  created_at = clock;
  updated_at = clock;
  version = 1;
}

unfoldable pub merged_priority : Option Priority → Priority → Option Priority
merged_priority none incoming = some incoming
merged_priority (some p) incoming = some (max_priority p incoming)

-- The union of both kinds of sets; none if a text fails its validation.
unfoldable pub union_sets : Bucket → Bucket → Option (List TriggerSource × List TriggerReason)
union_sets a b = elim (union sources a.source_set b.source_set) [
  | none ↦ none
  | some srcs ↦ elim (union reasons a.reason_set b.reason_set) [
    | none ↦ none
    | some rs ↦ some (srcs, rs)
  ]
]

-- What the states with a live epoch share.
abbrev pub join_signal : Bucket → DirtySignal → List TriggerSource → List TriggerReason → Bucket
join_signal b sig srcs rs = record b {
  source_set = srcs;
  reason_set = rs;
  priority = merged_priority b.priority sig.priority;
  first_seen_at = min_time b.first_seen_at (some sig.seen_at);
}

unfoldable pub joined_bucket : Bucket → DirtySignal → Outcome Bucket
joined_bucket b sig = elim (union_sets b (bucket_of sig)) [
  | none ↦ failed invalid_enum
  | some (srcs, rs) ↦ ok (join_signal b sig srcs rs)
]

-- PENDING and IN_FLIGHT take the earlier barrier.
unfoldable pub sooner_bucket : Bucket → DirtySignal → Outcome Bucket
sooner_bucket b sig = elim (joined_bucket b sig) [
  | failed e ↦ failed e
  | ok j ↦ ok (record j { not_before = min_time b.not_before sig.not_before })
]

-- The switch of `applyMerge`, on the pending bucket.
unfoldable pub merge_bucket : WorkState → Bucket → DirtySignal → Outcome Bucket
merge_bucket WorkState.verified b sig = ok (bucket_of sig)
merge_bucket WorkState.pending b sig = sooner_bucket b sig
merge_bucket WorkState.in_flight b sig = sooner_bucket b sig
merge_bucket WorkState.retry_wait b sig = joined_bucket b sig
merge_bucket WorkState.blocked b sig = joined_bucket b sig
merge_bucket WorkState.suspended b sig = joined_bucket b sig
merge_bucket (WorkState.other s) b sig = failed unsupported_state

abbrev pub is_verified : WorkState → Bool
is_verified WorkState.verified = true
is_verified _ = false

abbrev pub is_pending : WorkState → Bool
is_pending WorkState.pending = true
is_pending _ = false

abbrev pub is_in_flight : WorkState → Bool
is_in_flight WorkState.in_flight = true
is_in_flight _ = false

-- `applyMerge`.
unfoldable pub apply_merge : DirtyScopeWork → DirtySignal → Bool → Outcome DirtyScopeWork
apply_merge wk sig active =
    let epoch_ended = is_verified wk.work_state in
    elim (merge_bucket wk.work_state wk.pending sig) [
      | failed e ↦ failed e
      | ok b ↦ ok (record wk {
        pending = b;
        work_state = if epoch_ended then runnable_state active else wk.work_state;
        signal_seq = inc_int64 wk.signal_seq;
        last_seen_at =
            if epoch_ended || ltb wk.last_seen_at sig.seen_at then sig.seen_at else wk.last_seen_at;
      })
    ]
