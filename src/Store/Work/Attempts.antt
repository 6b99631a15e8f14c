-- ===== src/Store/Work/Attempts.antt =====
-- The life of one attempt: claimed, completed with success or failure, or recovered after a crash.
use index_core.Base.{
  ℕ, ltb, ◌==◌, ◌||◌, ℤ, pos, inc_int64, eq_ℤ, Bool, true, false, ◌&&◌, not, Option, none, some,
  is_empty, if◌then◌else◌,
}
use index_core.Incremental.Model.{
  WorkState, Priority, ErrorClass, target_work_state, is_provider_failure, is_after, Bucket,
  TriggerSource, DirtyScopeWork,
}
use index_core.Incremental.Sets.{has, sources, is_valid_error_class, min_time, max_time}
use index_core.Store.Work.{
  StoreError, Outcome, ok, failed, invalid_enum, stale_claim, root_not_active, not_pending,
  cas_conflict, watch_failed, not_eligible, empty_bucket, missing_retry, retry_not_later,
  empty_bucket_row, write_work, runnable_state, merged_priority, union_sets, is_pending,
  is_in_flight,
}

-- What a claim leaves behind: an inactive root suspends the row, and that is committed although the
-- caller is told of an error.
pub data Claim : Type 0 where
  claimed : DirtyScopeWork → Claim
  put_aside : DirtyScopeWork → Claim
  refused : StoreError → Claim

abbrev pub claim_row : ℕ → DirtyScopeWork → DirtyScopeWork
claim_row now wk = record wk {
  claimed_signal_seq = some wk.signal_seq;
  claimed = wk.pending;
  pending = empty_bucket_row;
  work_state = WorkState.in_flight;
  attempt_count = inc_int64 wk.attempt_count;
  last_attempt_started_at = some now;
}

-- The write of the watch row, which an attempt on a scheduled poll calls for, does not fail. `watched`
-- is whether it would succeed.
unfoldable pub watch_written : Bucket → Bool → Bool
watch_written b watched = not (has sources b.source_set TriggerSource.poll_schedule) || watched

-- `ClaimWork` on the row, which the caller has seen at the expected version.
unfoldable pub claim_work : DirtyScopeWork → ℕ → Bool → Bool → ℕ → ℕ → Claim
claim_work wk expected active watched now clock =
    if not (wk.version == expected)
    then refused cas_conflict
    else if not active
    then if is_pending wk.work_state
      then put_aside (write_work clock (record wk { work_state = WorkState.suspended }))
      else refused root_not_active
    else if not (is_pending wk.work_state)
    then refused not_pending
    else if is_after wk.pending.not_before now
    then refused not_eligible
    else if is_empty wk.pending.source_set
    then refused empty_bucket
    else if not (watch_written wk.pending watched)
    then refused watch_failed
    else claimed (write_work clock (claim_row now wk))

-- The guard of both completions.
unfoldable pub holds_claim : DirtyScopeWork → ℤ → Bool
holds_claim wk seq =
    is_in_flight wk.work_state
    && (elim wk.claimed_signal_seq [ none ↦ false | some s ↦ eq_ℤ s seq ])

abbrev pub release_claim : DirtyScopeWork → DirtyScopeWork
release_claim wk = record wk { claimed_signal_seq = none; claimed = empty_bucket_row }

-- The row after the claimed prefix was verified.
unfoldable pub complete_success : DirtyScopeWork → ℤ → Bool → ℕ → ℕ → Outcome DirtyScopeWork
complete_success wk seq watched now clock =
    if not (holds_claim wk seq)
    then failed stale_claim
    else if not (watch_written wk.claimed watched)
    then failed watch_failed
    else ok (
        write_work clock (
          release_claim (record wk {
            last_attempt_finished_at = some now;
            last_verified_at = some now;
            last_verified_signal_seq = some seq;
            consecutive_failures = pos 0;
            last_error_class = none;
            work_state =
                if is_empty wk.pending.source_set then WorkState.verified else WorkState.pending;
          })))

abbrev pub deref_priority : Option Priority → Priority
deref_priority none = Priority.low
deref_priority (some p) = p

-- The claimed bucket put back into the pending one. The barrier is the caller's.
unfoldable pub restore : DirtyScopeWork → Option Bucket
restore wk = elim (union_sets wk.claimed wk.pending) [
  | none ↦ none
  | some (srcs, rs) ↦ some (record {
    source_set = srcs;
    reason_set = rs;
    priority = merged_priority wk.pending.priority (deref_priority wk.claimed.priority);
    first_seen_at =
        min_time (min_time wk.pending.first_seen_at wk.claimed.first_seen_at)
          wk.last_attempt_started_at;
    not_before = wk.pending.not_before;
  })
]

abbrev pub is_retry_wait : WorkState → Bool
is_retry_wait WorkState.retry_wait = true
is_retry_wait _ = false

-- The checks that `CompleteFailure` makes on its arguments.
unfoldable pub failure_error : ErrorClass → Option ℕ → ℕ → Option StoreError
failure_error class retry_not_before now =
    if not (is_valid_error_class class)
    then some invalid_enum
    else if is_retry_wait (target_work_state class)
    then elim retry_not_before [
      | none ↦ some missing_retry
      | some t ↦ if ltb now t then none else some retry_not_later
    ]
    else none

abbrev fail_row : ErrorClass → Option ℕ → ℕ → Bucket → DirtyScopeWork → DirtyScopeWork
fail_row class retry_not_before now back wk =
    let target = target_work_state class in
    release_claim (record wk {
      pending = record back {
        not_before =
            if is_retry_wait target
            then max_time back.not_before retry_not_before
            else back.not_before;
      };
      work_state = target;
      last_attempt_finished_at = some now;
      last_error_class = some class;
      consecutive_failures =
          if is_provider_failure class
          then inc_int64 wk.consecutive_failures
          else wk.consecutive_failures;
    })

-- `CompleteFailure` on the row.
unfoldable pub complete_failure :
    DirtyScopeWork → ℤ → ErrorClass → Option ℕ → Bool → ℕ → ℕ → Outcome DirtyScopeWork
complete_failure wk seq class retry_not_before watched now clock =
    elim (failure_error class retry_not_before now) [
      | some e ↦ failed e
      | none ↦
          if holds_claim wk seq
          then elim (restore wk) [
            | none ↦ failed invalid_enum
            | some back ↦
                if watch_written wk.claimed watched
                then ok (write_work clock (fail_row class retry_not_before now back wk))
                else failed watch_failed
          ]
          else failed stale_claim
    ]

-- `RecoverStaleInflight` on one row: any other state is passed over.
unfoldable pub recover_work : DirtyScopeWork → Bool → ℕ → Outcome DirtyScopeWork
recover_work wk active clock =
    if is_in_flight wk.work_state
    then elim (restore wk) [
      | none ↦ failed invalid_enum
      | some back ↦ ok (
          write_work clock (
            release_claim (record wk {
              pending = record back {
                not_before = elim wk.claimed.not_before [
                  | none ↦ none
                  | some t ↦ min_time (some t) wk.pending.not_before
                ];
              };
              work_state = runnable_state active;
            })))
    ]
    else ok wk
