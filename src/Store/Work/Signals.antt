-- ===== src/Store/Work/Signals.antt =====
-- Which sources a work row wants, and what keeps them.
use index_core.Base.{
  ℕ, ℤ, ◌≡◌, Bool, true, false, ◌||◌, inl, inr, Option, Bool-cases, str_eq_refl, any, if◌then◌else◌,
  arith,
}
use index_core.Incremental.Model.{WorkState, ErrorClass, TriggerSource, DirtyScopeWork, DirtySignal}
use index_core.Incremental.Sets.{has, source_text, sources}
use index_core.Store.Work.{
  Outcome, ok, bucket_of, apply_merge, merge_bucket, joined_bucket, sooner_bucket, runnable_state,
  is_verified,
}
use index_core.Store.Work.Attempts.{
  claim_work, holds_claim, complete_success, complete_failure, failure_error, restore, recover_work,
  watch_written,
}
use index_core.Store.Work.Scheduling.{budget_defer, retry_ready, resume_suspended, repair_blocked}
use index_core.Store.Work.Steps.{
  Op, merge, claim, succeed, fail, recover, postpone, retry, resume, repair, run, is_valid_signal,
  merge_work, row_of,
}
use index_core.Store.Work.Unions.{has-not_empty, union_sets-Joins}
use index_core.Store.Work.Soundness.{
  IsSound, Holds, Holds-map, Succeeds, Succeeds-ok, bucket_of-ValidBucket,
}

-- Claimed by the running attempt, or waiting for the next one.
abbrev pub wants : TriggerSource → DirtyScopeWork → Bool
wants x wk = has sources wk.claimed.source_set x || has sources wk.pending.source_set x

abbrev pub is_success : Op → Bool
is_success (succeed seq watched now clock) = true
is_success _ = false

module _ (x : TriggerSource) (wk : DirtyScopeWork) (s : IsSound wk) where
  abbrev Kept : Outcome DirtyScopeWork → Type 0
  Kept o = Holds (λ w. wants x wk ≡ true → wants x w ≡ true) o

  scheduling-Kept :
      (active : Bool) (expected t clock : ℕ)
      → Kept (budget_defer wk expected t clock)
        × Kept (retry_ready wk active expected t)
        × Kept (resume_suspended wk active expected t)
        × Kept (repair_blocked wk active expected t)
  unfolding budget_defer retry_ready resume_suspended repair_blocked
  scheduling-Kept active expected t clock = (ground arith, ground arith, ground arith, ground arith)

  claim_work-Kept :
      (expected : ℕ) (active watched : Bool) (now clock : ℕ)
      → Kept (row_of (claim_work wk expected active watched now clock))
  unfolding claim_work any
  claim_work-Kept expected active watched now clock = ground arith

  complete_failure-Kept :
      (seq : ℤ) (class : ErrorClass) (retry_not_before : Option ℕ) (watched : Bool) (now clock : ℕ)
      → Kept (complete_failure wk seq class retry_not_before watched now clock)
  unfolding complete_failure holds_claim failure_error restore any
  complete_failure-Kept seq class retry_not_before watched now clock =
      let (srcs, rs, joins) =
        union_sets-Joins wk.claimed wk.pending s.valid_claimed s.valid_pending in
      ground (arith, joins.made, joins.holds x)

  recover_work-Kept : (active : Bool) (clock : ℕ) → Kept (recover_work wk active clock)
  unfolding recover_work restore any
  recover_work-Kept active clock =
      let (srcs, rs, joins) =
        union_sets-Joins wk.claimed wk.pending s.valid_claimed s.valid_pending in
      ground (arith, joins.made, joins.holds x)

  merge_work-Kept :
      (sig : DirtySignal) (active : Bool) (clock : ℕ) → Kept (merge_work wk sig active clock)
  unfolding apply_merge merge_bucket sooner_bucket joined_bucket any
  merge_work-Kept sig active clock = elim (Bool-cases (is_valid_signal sig)) [
    | inl valid ↦
        let (srcs, rs, joins) =
          union_sets-Joins wk.pending (bucket_of sig) s.valid_pending
            (bucket_of-ValidBucket sig valid) in
        ground (arith, joins.made, joins.holds x, s.settled, s.released)
    | inr refuse ↦ rw refuse tt
  ]

-- A source that is wanted stays wanted through every operation but a successful completion: claims,
-- failures, crashes and lifecycle changes lose no signal.
pub run-wants :
    (x : TriggerSource) (op : Op) (wk : DirtyScopeWork)
    → IsSound wk
    → is_success op ≡ false
    → wants x wk ≡ true
    → Holds (λ w. wants x w ≡ true) (run op wk)
unfolding run
run-wants x op wk s h k = Holds-map (λ w f. f k) (run op wk) (kept op h)
  where
    kept : (op : Op) → is_success op ≡ false → Kept x wk s (run op wk)
    kept (merge sig active clock) h = merge_work-Kept x wk s sig active clock
    kept (claim expected active watched now clock) h =
        claim_work-Kept x wk s expected active watched now clock
    kept (succeed seq watched now clock) h = ground (arith, h)
    kept (fail seq class retry_not_before watched now clock) h =
        complete_failure-Kept x wk s seq class retry_not_before watched now clock
    kept (recover active clock) h = recover_work-Kept x wk s active clock
    kept (postpone expected t clock) h = (scheduling-Kept x wk s true expected t clock).0
    kept (retry active expected now) h = (scheduling-Kept x wk s active expected now 0).1
    kept (resume active expected now) h = (scheduling-Kept x wk s active expected now 0).2
    kept (repair active expected now) h = (scheduling-Kept x wk s active expected now 0).3

-- What a merge leaves of a row.
pub record Recorded (wk : DirtyScopeWork) (sig : DirtySignal) (active : Bool) (w : DirtyScopeWork)
    : Type 0 where
  pub waiting : has sources w.pending.source_set sig.source ≡ true
  pub untouched : w.claimed ≡ wk.claimed
  pub state :
      w.work_state ≡ (if is_verified wk.work_state then runnable_state active else wk.work_state)

-- A row that has the source to work on next.
pub record Requeued (x : TriggerSource) (w : DirtyScopeWork) : Type 0 where
  pub runnable : w.work_state ≡ WorkState.pending
  pub waiting : has sources w.pending.source_set x ≡ true

merge_work-Succeeds :
    (wk : DirtyScopeWork) (s : IsSound wk) (sig : DirtySignal) (active : Bool) (clock : ℕ)
    → is_valid_signal sig ≡ true
    → Succeeds (Recorded wk sig active) (merge_work wk sig active clock)
unfolding apply_merge merge_bucket sooner_bucket joined_bucket any
merge_work-Succeeds wk s sig active clock valid =
    let (srcs, rs, joins) =
      union_sets-Joins wk.pending (bucket_of sig) s.valid_pending
        (bucket_of-ValidBucket sig valid) in
    ground (
      arith,
      joins.made,
      joins.holds sig.source,
      s.known,
      valid,
      str_eq_refl (source_text sig.source),
    )

complete_success-Requeued :
    (w : DirtyScopeWork) (seq : ℤ) (now clock : ℕ) (x : TriggerSource)
    → holds_claim w seq ≡ true
    → has sources w.pending.source_set x ≡ true
    → Succeeds (Requeued x) (complete_success w seq true now clock)
unfolding complete_success watch_written
complete_success-Requeued w seq now clock x held here =
    ground (arith, held, here, has-not_empty sources w.pending.source_set x here)

-- A validated signal can always be merged into a sound row, and its source then waits to be claimed.
-- A running attempt goes on; a verified row becomes runnable, or is suspended under an inactive root;
-- every other state is kept.
pub merge_work-Recorded :
    (wk : DirtyScopeWork) (sig : DirtySignal) (active : Bool) (clock : ℕ)
    → IsSound wk
    → is_valid_signal sig ≡ true
    → (w : DirtyScopeWork) × (merge_work wk sig active clock ≡ ok w) × Recorded wk sig active w
merge_work-Recorded wk sig active clock s valid =
    Succeeds-ok (merge_work wk sig active clock) (merge_work-Succeeds wk s sig active clock valid)

-- No wake-up is lost: when a signal is merged while an attempt runs, that attempt's success leaves the
-- row PENDING with the signal's source in it, and not VERIFIED, where the write of the watch row
-- succeeds.
pub merged-complete_success :
    (wk w : DirtyScopeWork) (sig : DirtySignal) (active : Bool) (seq : ℤ) (clock now finish : ℕ)
    → IsSound wk
    → is_valid_signal sig ≡ true
    → merge_work wk sig active clock ≡ ok w
    → holds_claim w seq ≡ true
    → (done : DirtyScopeWork) × (complete_success w seq true now finish ≡ ok done)
      × Requeued sig.source done
merged-complete_success wk w sig active seq clock now finish s valid e held =
    let (w', e', rec) = merge_work-Recorded wk sig active clock s valid in
    let here : has sources w.pending.source_set sig.source ≡ true =
      ground (arith, e, e', rec.waiting) in
    Succeeds-ok (complete_success w seq true now finish)
      (complete_success-Requeued w seq now finish sig.source held here)
