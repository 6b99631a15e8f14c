-- ===== src/Tests/Queue.antt =====
-- Instances of the theorems on the work queue.
use index_core.Base.{
  ℕ, path_clean, has_prefix, split_slash, codes, pos, ◌≡◌, ◌≢◌, refl, ◌↔◌, true, false, ◌||◌, none,
  some, List, [], ◌∷◌, str_eq, any,
}
use index_core.Domain.Enums.{RootLifecycleState}
use index_core.Store.Queue.{recover_stale_inflight}
use index_core.Store.Queue.Recovery.{IsRecovery, recover_stale_inflight-IsRecovery}
use index_core.Incremental.Scope.{validate_scope_key, ends_with_slash, component_error}
use index_core.Incremental.Scope.Canonical.{validate_scope_key-canonical}
use index_core.Incremental.Model.{
  WorkState, Priority, TriggerSource, TriggerReason, ErrorClass, DirtyScopeWork, DirtySignal,
  target_work_state,
}
use index_core.Incremental.Sets.{has, sources, union, normalize, distinct, sort, insert, min_time}
use index_core.Incremental.Sets.Ascent.{Ascends}
use index_core.Incremental.Sets.Totality.{Valid, union-Valid}
use index_core.Store.Work.{
  ok, failed, stale_claim, cas_conflict, watch_failed, empty_bucket_row, apply_merge, merge_bucket,
  sooner_bucket, joined_bucket, union_sets, merged_priority, new_work_from_signal,
}
use index_core.Store.Work.Attempts.{
  claimed, refused, watch_written, claim_work, holds_claim, complete_success, complete_failure,
}
use index_core.Store.Work.Steps.{Op, claim, run, run_all, Reachable, merge_work}
use index_core.Store.Work.Soundness.{IsSound, Holds, Reachable-IsSound}
use index_core.Store.Work.Signals.{
  wants, Recorded, Requeued, run-wants, merge_work-Recorded, merged-complete_success,
}
use index_core.Store.Work.Claims.{
  ended-not_held, BacksOff, complete_failure-BacksOff, claim_work-claimed,
}

abbrev hint : DirtySignal
hint = record {
  root_id = codes "root";
  scope_key = codes "/a";
  source = TriggerSource.mutation_hint;
  reason = TriggerReason.possible_change;
  priority = Priority.high;
  not_before = none;
  seen_at = 10;
}

abbrev poll : DirtySignal
poll = record hint {
  source = TriggerSource.poll_schedule;
  priority = Priority.normal;
  seen_at = 20;
}

abbrev fresh : DirtyScopeWork
fresh = new_work_from_signal hint true 11

abbrev fresh_poll : DirtyScopeWork
fresh_poll = new_work_from_signal poll true 20

abbrev running : DirtyScopeWork
running = record fresh {
  work_state = WorkState.in_flight;
  claimed_signal_seq = some (pos 1);
  claimed = fresh.pending;
  pending = empty_bucket_row;
  attempt_count = pos 1;
  last_attempt_started_at = some 12;
  updated_at = 12;
  version = 2;
}

fresh-Reachable : Reachable fresh
fresh-Reachable = Reachable.signal hint true 11 refl

fresh-IsSound : IsSound fresh
fresh-IsSound = Reachable-IsSound fresh fresh-Reachable

running-Reachable : Reachable running
unfolding run claim_work new_work_from_signal watch_written any str_eq
running-Reachable = Reachable.after (claim 1 true true 12 12) fresh-Reachable refl

Reachable-IsSound_example : IsSound running
Reachable-IsSound_example = Reachable-IsSound running running-Reachable

running-IsSound : IsSound running
running-IsSound = Reachable-IsSound running running-Reachable

run-wants_example :
    Holds
      (λ w. wants TriggerSource.mutation_hint w ≡ true)
      (run (Op.fail (pos 1) ErrorClass.throttled (some 90) true 30 30) running)
unfolding new_work_from_signal str_eq any
run-wants_example =
    run-wants TriggerSource.mutation_hint
      (Op.fail (pos 1) ErrorClass.throttled (some 90) true 30 30) running running-IsSound refl refl

merge_work-Recorded_example :
    (w : DirtyScopeWork) × (merge_work running poll true 20 ≡ ok w) × Recorded running poll true w
merge_work-Recorded_example = merge_work-Recorded running poll true 20 running-IsSound refl

abbrev merged_row : DirtyScopeWork
merged_row = record running {
  pending = fresh_poll.pending;
  signal_seq = pos 2;
  last_seen_at = 20;
  updated_at = 20;
  version = 3;
}

merged : merge_work running poll true 20 ≡ ok merged_row
unfolding new_work_from_signal apply_merge merge_bucket sooner_bucket joined_bucket union_sets union
    normalize distinct sort merged_priority min_time any insert
merged = refl

merged-complete_success_example :
    (done : DirtyScopeWork) × (complete_success merged_row (pos 1) true 40 41 ≡ ok done)
    × Requeued TriggerSource.poll_schedule done
unfolding new_work_from_signal holds_claim
merged-complete_success_example =
    merged-complete_success running merged_row poll true (pos 1) 20 40 41 running-IsSound refl
      merged refl

abbrev verified_row : DirtyScopeWork
verified_row = record running {
  work_state = WorkState.verified;
  claimed_signal_seq = none;
  claimed = empty_bucket_row;
  last_attempt_finished_at = some 40;
  last_verified_at = some 40;
  last_verified_signal_seq = some (pos 1);
  updated_at = 41;
  version = 3;
}

verified : run (Op.succeed (pos 1) true 40 41) running ≡ ok verified_row
unfolding run complete_success holds_claim watch_written any new_work_from_signal str_eq
verified = refl

ended-not_held_example :
    (holds_claim (run_all (Op.merge poll true 50 ∷ []) verified_row) (pos 1) ≡ false)
    × (complete_success (run_all (Op.merge poll true 50 ∷ []) verified_row) (pos 1) true 60 61
        ≡ failed stale_claim)
ended-not_held_example =
    ended-not_held running verified_row (Op.succeed (pos 1) true 40 41) (Op.merge poll true 50 ∷ [])
      (pos 1) true 60 61 refl verified (refl, tt)

complete_failure-BacksOff_example :
    Holds (BacksOff 40) (complete_failure running (pos 1) ErrorClass.throttled (some 90) true 40 41)
unfolding target_work_state
complete_failure-BacksOff_example =
    complete_failure-BacksOff running (pos 1) ErrorClass.throttled (some 90) true 40 41 refl

claim_work-claimed_example :
    ((fresh.version ≡ 1)
      → watch_written fresh.pending true ≡ true
      → (w : DirtyScopeWork) × (claim_work fresh 1 true true 12 12 ≡ claimed w)
        × (w.claimed ≡ fresh.pending)
        × (w.pending ≡ empty_bucket_row)
        × ((holds_claim w (pos 1) ≡ true) ↔ (pos 1 ≡ fresh.signal_seq)))
    × (fresh.version ≢ 1 → claim_work fresh 1 true true 12 12 ≡ refused cas_conflict)
    × (fresh.version ≡ 1
        → has sources fresh.pending.source_set TriggerSource.poll_schedule ≡ true
        → true ≡ false
        → claim_work fresh 1 true true 12 12 ≡ refused watch_failed)
unfolding new_work_from_signal
claim_work-claimed_example = claim_work-claimed fresh 1 true 12 12 (pos 1) fresh-IsSound refl refl

abbrev both : List TriggerSource
both = TriggerSource.mutation_hint ∷ TriggerSource.poll_schedule ∷ []

union-Valid_example :
    (zs : List TriggerSource) × (union sources (TriggerSource.poll_schedule ∷ []) both ≡ some zs)
    × Valid sources zs
    × Ascends sources zs
    × ((x : TriggerSource)
        → has sources zs x
          ≡ (has sources (TriggerSource.poll_schedule ∷ []) x || has sources both x))
union-Valid_example =
    union-Valid sources (TriggerSource.poll_schedule ∷ []) both (refl, tt) (refl, (refl, tt))

recover_stale_inflight-IsRecovery_example :
    (done : List DirtyScopeWork) × (n : ℕ) × (recover_stale_inflight
        (codes "root")
        (some RootLifecycleState.active)
        50
        (running ∷ fresh ∷ [])
      ≡ ok (done, n))
    × IsRecovery (codes "root") (running ∷ fresh ∷ []) done n
    × (recover_stale_inflight (codes "root") (some RootLifecycleState.deprecated) 60 done
        ≡ ok (done, 0))
recover_stale_inflight-IsRecovery_example =
    recover_stale_inflight-IsRecovery (codes "root") RootLifecycleState.active
      RootLifecycleState.deprecated 50 60 (running ∷ fresh ∷ [])
      (running-IsSound, (fresh-IsSound, tt))

validate_scope_key-canonical_example : path_clean (codes "/a/b") ≡ codes "/a/b"
unfolding validate_scope_key ends_with_slash component_error has_prefix split_slash str_eq any
validate_scope_key-canonical_example = validate_scope_key-canonical (codes "/a/b") refl
