-- ===== src/Store/Work/Soundness.antt =====
-- The invariant of a work row, and that every operation keeps it.
use index_core.Base.{
  ℕ, ℤ, ◌≡◌, refl, subst, Bool, true, false, ◌||◌, inl, inr, Option, is_some, is_empty, Bool-cases,
  arith,
}
use index_core.Incremental.Model.{
  WorkState, ErrorClass, target_work_state, DirtyScopeWork, DirtySignal,
}
use index_core.Incremental.Sets.{max_time}
use index_core.Store.Work.{
  Outcome, ok, failed, empty_bucket_row, bucket_of, new_work_from_signal, apply_merge, merge_bucket,
  joined_bucket, sooner_bucket, is_in_flight, is_verified,
}
use index_core.Store.Work.Attempts.{
  claim_work, holds_claim, complete_success, complete_failure, failure_error, restore, recover_work,
  is_retry_wait,
}
use index_core.Store.Work.Scheduling.{budget_defer, retry_ready, resume_suspended, repair_blocked}
use index_core.Store.Work.Steps.{
  Op, merge, claim, succeed, fail, recover, postpone, retry, resume, repair, run, Reachable,
  is_valid_signal, merge_work, row_of,
}
use index_core.Store.Work.Unions.{ValidBucket, union_sets-Joins}

abbrev pub is_known : WorkState → Bool
is_known (WorkState.other s) = false
is_known _ = true

-- A claim is held exactly while the row is IN_FLIGHT; what is claimed or waits to be claimed is not
-- empty; a verified row has nothing pending; a backoff has an end; the sets are validated.
pub record IsSound (wk : DirtyScopeWork) : Type 0 where
  pub known : is_known wk.work_state ≡ true
  pub coherent : is_some wk.claimed_signal_seq ≡ is_in_flight wk.work_state
  pub released : is_in_flight wk.work_state ≡ false → wk.claimed ≡ empty_bucket_row
  pub attempted : is_in_flight wk.work_state ≡ true → is_empty wk.claimed.source_set ≡ false
  pub settled : is_verified wk.work_state ≡ true → is_empty wk.pending.source_set ≡ true
  pub wanted :
      (is_in_flight wk.work_state || is_verified wk.work_state) ≡ false
      → is_empty wk.pending.source_set ≡ false
  pub backing_off : is_retry_wait wk.work_state ≡ true → is_some wk.pending.not_before ≡ true
  pub valid_claimed : ValidBucket wk.claimed
  pub valid_pending : ValidBucket wk.pending

-- A property of what an operation leaves, where it does not fail.
abbrev pub Holds {ℓ} : {A : Type ℓ} → (A → Type 0) → Outcome A → Type 0
Holds P (ok a) = P a
Holds P (failed e) = Unit

-- A property of what an operation leaves, which does not fail.
abbrev pub Succeeds {ℓ} : {A : Type ℓ} → (A → Type 0) → Outcome A → Type 0
Succeeds P (ok a) = P a
Succeeds P (failed e) = ⊥

pub Succeeds-ok {ℓ} :
    {A : Type ℓ} {P : A → Type 0} (o : Outcome A) → Succeeds P o → (a : A) × (o ≡ ok a) × P a
Succeeds-ok (ok a) h = (a, refl, h)
Succeeds-ok (failed e) h = elim h [ ]

pub Holds-map {ℓ} :
    {A : Type ℓ} {P Q : A → Type 0} (f : (a : A) → P a → Q a) (o : Outcome A)
    → Holds P o
    → Holds Q o
Holds-map f (ok a) h = f a h
Holds-map f (failed e) h = tt

pub bucket_of-ValidBucket :
    (sig : DirtySignal) → is_valid_signal sig ≡ true → ValidBucket (bucket_of sig)
bucket_of-ValidBucket sig h = ground (arith, h)

module _ (wk : DirtyScopeWork) (s : IsSound wk) where
  claim_work-IsSound :
      (expected : ℕ) (active watched : Bool) (now clock : ℕ)
      → Holds IsSound (row_of (claim_work wk expected active watched now clock))
  unfolding claim_work
  claim_work-IsSound expected active watched now clock = ground arith

  complete_success-IsSound :
      (seq : ℤ) (watched : Bool) (now clock : ℕ)
      → Holds IsSound (complete_success wk seq watched now clock)
  unfolding complete_success holds_claim
  complete_success-IsSound seq watched now clock = ground arith

  budget_defer-IsSound : (expected t clock : ℕ) → Holds IsSound (budget_defer wk expected t clock)
  unfolding budget_defer
  budget_defer-IsSound expected t clock = ground arith

  retry_ready-IsSound :
      (active : Bool) (expected now : ℕ) → Holds IsSound (retry_ready wk active expected now)
  unfolding retry_ready
  retry_ready-IsSound active expected now = ground arith

  resume_suspended-IsSound :
      (active : Bool) (expected now : ℕ) → Holds IsSound (resume_suspended wk active expected now)
  unfolding resume_suspended
  resume_suspended-IsSound active expected now = ground arith

  repair_blocked-IsSound :
      (active : Bool) (expected now : ℕ) → Holds IsSound (repair_blocked wk active expected now)
  unfolding repair_blocked
  repair_blocked-IsSound active expected now = ground arith

  complete_failure-IsSound :
      (seq : ℤ) (class : ErrorClass) (retry_not_before : Option ℕ) (watched : Bool) (now clock : ℕ)
      → Holds IsSound (complete_failure wk seq class retry_not_before watched now clock)
  unfolding complete_failure holds_claim failure_error restore target_work_state max_time
  complete_failure-IsSound seq class retry_not_before watched now clock =
      let (srcs, rs, joins) =
        union_sets-Joins wk.claimed wk.pending s.valid_claimed s.valid_pending in
      ground (arith, joins)

  pub recover_work-IsSound :
      (active : Bool) (clock : ℕ) → Holds IsSound (recover_work wk active clock)
  unfolding recover_work restore
  recover_work-IsSound active clock =
      let (srcs, rs, joins) =
        union_sets-Joins wk.claimed wk.pending s.valid_claimed s.valid_pending in
      ground (arith, joins)

  merge_work-IsSound :
      (sig : DirtySignal) (active : Bool) (clock : ℕ)
      → Holds IsSound (merge_work wk sig active clock)
  unfolding apply_merge merge_bucket sooner_bucket joined_bucket
  merge_work-IsSound sig active clock = elim (Bool-cases (is_valid_signal sig)) [
    | inl valid ↦
        let (srcs, rs, joins) =
          union_sets-Joins wk.pending (bucket_of sig) s.valid_pending
            (bucket_of-ValidBucket sig valid) in
        ground (arith, joins, bucket_of-ValidBucket sig valid)
    | inr refuse ↦ rw refuse tt
  ]

-- Every operation keeps the invariant.
pub run-IsSound : (op : Op) (wk : DirtyScopeWork) → IsSound wk → Holds IsSound (run op wk)
unfolding run
run-IsSound (merge sig active clock) wk s = merge_work-IsSound wk s sig active clock
run-IsSound (claim expected active watched now clock) wk s =
    claim_work-IsSound wk s expected active watched now clock
run-IsSound (succeed seq watched now clock) wk s =
    complete_success-IsSound wk s seq watched now clock
run-IsSound (fail seq class retry_not_before watched now clock) wk s =
    complete_failure-IsSound wk s seq class retry_not_before watched now clock
run-IsSound (recover active clock) wk s = recover_work-IsSound wk s active clock
run-IsSound (postpone expected t clock) wk s = budget_defer-IsSound wk s expected t clock
run-IsSound (retry active expected now) wk s = retry_ready-IsSound wk s active expected now
run-IsSound (resume active expected now) wk s = resume_suspended-IsSound wk s active expected now
run-IsSound (repair active expected now) wk s = repair_blocked-IsSound wk s active expected now

-- Every row that the transactions can bring about, in any order and with any arguments, is sound: it
-- holds a claim exactly while it is IN_FLIGHT, what it has claimed or waits to claim is not empty, a
-- verified row has nothing pending, and a row in RETRY_WAIT knows when it may run again.
pub Reachable-IsSound : (wk : DirtyScopeWork) → Reachable wk → IsSound wk
unfolding new_work_from_signal
Reachable-IsSound wk (Reachable.signal sig active clock h) = ground (arith, h)
Reachable-IsSound wk (Reachable.after {wk = before} op r e) =
    subst (Holds IsSound) e (run-IsSound op before (Reachable-IsSound before r))
