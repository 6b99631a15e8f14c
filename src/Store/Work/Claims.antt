-- ===== src/Store/Work/Claims.antt =====
-- What the claim token guards, and how soon a failed attempt is tried again.
use index_core.Base.{
  ◌==◌, ◌≢◌, if◌then◌else◌, List, [], ◌∷◌, All, subst, ℕ, ℤ, eq_ℤ_iff, ◌≡◌, refl, ◌↔◌, Bool, true,
  false, Option, arith,
}
use index_core.Incremental.Model.{
  WorkState, ErrorClass, target_work_state, is_after, DirtyScopeWork, DirtySignal, TriggerSource,
}
use index_core.Incremental.Sets.{has, sources, max_time}
use index_core.Store.Work.Steps.{
  Op, merge, claim, succeed, fail, recover, postpone, retry, resume, repair, run, run_all,
  merge_work,
}
use index_core.Store.Work.{
  Outcome, ok, apply_merge, stale_claim, watch_failed, failed, not_pending, cas_conflict,
  empty_bucket_row, is_pending, write_work,
}
use index_core.Store.Work.Attempts.{
  refused, claimed, claim_row, claim_work, holds_claim, complete_success, complete_failure,
  failure_error, restore, recover_work, watch_written,
}
use index_core.Store.Work.Scheduling.{budget_defer, retry_ready, resume_suspended, repair_blocked}
use index_core.Store.Work.Soundness.{IsSound, Holds, Holds-map}

abbrev pub is_claim : Op → Bool
is_claim (claim expected active watched now clock) = true
is_claim _ = false

-- The operations that end an attempt.
abbrev pub is_end : Op → Bool
is_end (succeed seq watched now clock) = true
is_end (fail seq class retry_not_before watched now clock) = true
is_end (recover active clock) = true
is_end _ = false

module _ (token : ℤ) where
  abbrev Unheld : Outcome DirtyScopeWork → Type 0
  Unheld o = Holds (λ w. holds_claim w token ≡ false) o

  end-Unheld : (op : Op) (wk : DirtyScopeWork) → is_end op ≡ true → Unheld (run op wk)
  unfolding run complete_success complete_failure failure_error recover_work restore holds_claim
      target_work_state
  end-Unheld (succeed seq watched now clock) wk h = ground arith
  end-Unheld (fail seq class retry_not_before watched now clock) wk h = ground arith
  end-Unheld (recover active clock) wk h = ground arith
  end-Unheld _ wk h = ground (arith, h)

  merge_work-Unheld :
      (wk : DirtyScopeWork) (sig : DirtySignal) (active : Bool) (clock : ℕ)
      → holds_claim wk token ≡ false
      → Unheld (merge_work wk sig active clock)
  unfolding apply_merge holds_claim
  merge_work-Unheld wk sig active clock k = ground (arith, k)

  run-Unheld :
      (op : Op) (wk : DirtyScopeWork)
      → is_claim op ≡ false
      → holds_claim wk token ≡ false
      → Unheld (run op wk)
  unfolding run holds_claim budget_defer retry_ready resume_suspended repair_blocked
  run-Unheld (merge sig active clock) wk h k = merge_work-Unheld wk sig active clock k
  run-Unheld (claim expected active watched now clock) wk h k = ground (arith, h)
  run-Unheld (succeed seq watched now clock) wk h k =
      end-Unheld (succeed seq watched now clock) wk refl
  run-Unheld (fail seq class retry_not_before watched now clock) wk h k =
      end-Unheld (fail seq class retry_not_before watched now clock) wk refl
  run-Unheld (recover active clock) wk h k = end-Unheld (recover active clock) wk refl
  run-Unheld (postpone expected t clock) wk h k = ground (arith, k)
  run-Unheld (retry active expected now) wk h k = ground (arith, k)
  run-Unheld (resume active expected now) wk h k = ground (arith, k)
  run-Unheld (repair active expected now) wk h k = ground (arith, k)

  run_all-Unheld :
      (ops : List Op) (wk : DirtyScopeWork)
      → All (λ op. is_claim op ≡ false) ops
      → holds_claim wk token ≡ false
      → holds_claim (run_all ops wk) token ≡ false
  unfolding run_all
  run_all-Unheld [] wk h k = k
  run_all-Unheld (op ∷ ops) wk h k =
      run_all-Unheld ops _ h.1 (left (run op wk) (run-Unheld op wk h.0 k))
    where
      left :
          (o : Outcome DirtyScopeWork)
          → Unheld o
          → holds_claim (elim o as (λ x. DirtyScopeWork) [ ok w ↦ w | failed e ↦ wk ]) token ≡ false
      left (ok w) u = u
      left (failed e) u = k

-- A claim is spent when its attempt ends, by success, failure or recovery. Whatever operations follow,
-- as long as none is a claim, the guard of both completions then fails for any token, and a success is
-- refused as stale.
pub ended-not_held :
    (wk w : DirtyScopeWork) (op : Op) (ops : List Op) (token : ℤ) (watched : Bool) (now clock : ℕ)
    → is_end op ≡ true
    → run op wk ≡ ok w
    → All (λ o. is_claim o ≡ false) ops
    → (holds_claim (run_all ops w) token ≡ false)
      × (complete_success (run_all ops w) token watched now clock ≡ failed stale_claim)
unfolding complete_success
ended-not_held wk w op ops token watched now clock ends e calm =
    let spent : holds_claim w token ≡ false =
      subst (Holds (λ x. holds_claim x token ≡ false)) e (end-Unheld token op wk ends) in
    let kept = run_all-Unheld token ops w calm spent in (kept, rw kept refl)

retry_ready-too_soon :
    (w : DirtyScopeWork) (active : Bool) (expected at : ℕ)
    → is_after w.pending.not_before at ≡ true
    → retry_ready w active expected at ≡ failed cas_conflict
unfolding retry_ready
retry_ready-too_soon w active expected at h = ground (arith, h)

claim_work-waiting :
    (w : DirtyScopeWork) (expected : ℕ) (watched : Bool) (now clock : ℕ)
    → is_pending w.work_state ≡ false
    → claim_work w expected true watched now clock
      ≡ refused (if w.version == expected then not_pending else cas_conflict)
unfolding claim_work
claim_work-waiting w expected watched now clock h = ground (arith, h)

-- A row that waits until after now for its next attempt.
pub record BacksOff (now : ℕ) (w : DirtyScopeWork) : Type 0 where
  pub waits : w.work_state ≡ WorkState.retry_wait
  pub later : is_after w.pending.not_before now ≡ true
  pub not_ready :
      (active : Bool) (expected at : ℕ)
      → is_after w.pending.not_before at ≡ true
      → retry_ready w active expected at ≡ failed cas_conflict
  pub not_claimable :
      (expected : ℕ) (watched : Bool) (at clock : ℕ)
      → claim_work w expected true watched at clock
        ≡ refused (if w.version == expected then not_pending else cas_conflict)

abbrev Waits : ℕ → DirtyScopeWork → Type 0
Waits now w = (w.work_state ≡ WorkState.retry_wait) × (is_after w.pending.not_before now ≡ true)

-- An attempt that fails with a class that is retried is not tried again at once: the row waits in
-- RETRY_WAIT for an instant after now; it can not be claimed from there, and does not become ready
-- before that instant.
pub complete_failure-BacksOff :
    (wk : DirtyScopeWork) (seq : ℤ) (class : ErrorClass) (retry_not_before : Option ℕ)
    (watched : Bool) (now clock : ℕ)
    → target_work_state class ≡ WorkState.retry_wait
    → Holds (BacksOff now) (complete_failure wk seq class retry_not_before watched now clock)
unfolding complete_failure failure_error max_time
complete_failure-BacksOff wk seq class retry_not_before watched now clock h =
    let waits : Holds (Waits now)
        (complete_failure wk seq class retry_not_before watched now clock) =
      ground (arith, h) in
    Holds-map
      (λ w waited. record {
        waits = waited.0;
        later = waited.1;
        not_ready = λ active expected at early. retry_ready-too_soon w active expected at early;
        not_claimable = λ expected seen at clock'.
            claim_work-waiting w expected seen at clock' (ground (arith, waited.0));
      })
      (complete_failure wk seq class retry_not_before watched now clock) waits

-- The token of a claim is the signal count it was taken at. A claim, at its version, of a sound row
-- that is PENDING and eligible under an active root succeeds where the write of its watch row does not
-- fail, holds exactly that token, and has moved the whole pending bucket. At any other version, or
-- where a scheduled poll's watch row is not written, it is refused.
pub claim_work-claimed :
    (wk : DirtyScopeWork) (expected : ℕ) (watched : Bool) (now clock : ℕ) (token : ℤ)
    → IsSound wk
    → wk.work_state ≡ WorkState.pending
    → is_after wk.pending.not_before now ≡ false
    → ((wk.version ≡ expected)
        → watch_written wk.pending watched ≡ true
        → (w : DirtyScopeWork) × (claim_work wk expected true watched now clock ≡ claimed w)
          × (w.claimed ≡ wk.pending)
          × (w.pending ≡ empty_bucket_row)
          × ((holds_claim w token ≡ true) ↔ (token ≡ wk.signal_seq)))
      × (wk.version ≢ expected
          → claim_work wk expected true watched now clock ≡ refused cas_conflict)
      × (wk.version ≡ expected
          → has sources wk.pending.source_set TriggerSource.poll_schedule ≡ true
          → watched ≡ false
          → claim_work wk expected true watched now clock ≡ refused watch_failed)
unfolding claim_work holds_claim watch_written
claim_work-claimed wk expected watched now clock token s h k = (
  λ seen written. (
    write_work clock (claim_row now wk),
    ground (arith, s.wanted, h, k, seen, written),
    refl,
    refl,
    ground (arith, eq_ℤ_iff wk.signal_seq token),
  ),
  λ other. ground (arith, other),
  λ seen polls lost. ground (arith, s.wanted, h, k, seen, polls, lost),
)
