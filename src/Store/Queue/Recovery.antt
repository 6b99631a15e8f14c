-- ===== src/Store/Queue/Recovery.antt =====
-- Recovery after a crash, over the rows of the work table.
use index_core.Base.{
  Str, ℕ, ◌+◌, ◌≡◌, refl, subst, Bool, true, false, some, List, [], ◌∷◌, All, count_if, Bool-cases,
  inl, inr, arith,
}
use index_core.Domain.Enums.{RootLifecycleState}
use index_core.Incremental.Model.{DirtyScopeWork}
use index_core.Store.Work.{ok, is_in_flight, runnable_state}
use index_core.Store.Work.Attempts.{restore, recover_work}
use index_core.Store.Work.Unions.{union_sets-Joins}
use index_core.Store.Work.Soundness.{IsSound, Holds, Succeeds, Succeeds-ok, recover_work-IsSound}
use index_core.Store.Queue.{is_active, is_stale_row, recover_rows, recover_stale_inflight}

-- What the recovery of a sound row leaves.
pub record Recovered (wk w : DirtyScopeWork) (active : Bool) : Type 0 where
  pub root : w.root_id ≡ wk.root_id
  pub state : w.work_state ≡ runnable_state active

recover_work-Recovered :
    (wk : DirtyScopeWork) (active : Bool) (clock : ℕ)
    → IsSound wk
    → is_in_flight wk.work_state ≡ true
    → Succeeds (λ w. Recovered wk w active) (recover_work wk active clock)
unfolding recover_work restore
recover_work-Recovered wk active clock s h =
    let (srcs, rs, joins) =
      union_sets-Joins wk.claimed wk.pending s.valid_claimed s.valid_pending in
    ground (arith, joins.made, h)

-- The rows and the count of a recovery.
pub record IsRecovery (root_id : Str) (rows : List DirtyScopeWork) (done : List DirtyScopeWork)
    (n : ℕ) : Type 0 where
  pub sound : All IsSound done
  pub none_stale : All (λ w. is_stale_row root_id w ≡ false) done
  pub counted : n ≡ count_if (is_stale_row root_id) rows

recover_rows-IsRecovery :
    (root_id : Str) (active : Bool) (clock : ℕ) (rows : List DirtyScopeWork)
    → All IsSound rows
    → (done : List DirtyScopeWork) × (n : ℕ) × (recover_rows root_id active clock rows
        ≡ ok (done, n))
      × IsRecovery root_id rows done n
unfolding recover_rows count_if
recover_rows-IsRecovery root_id active clock [] h =
    ([], 0, refl, record { sound = tt; none_stale = tt; counted = refl })
recover_rows-IsRecovery root_id active clock (w ∷ ws) h =
    let (rest, n, e, ih) = recover_rows-IsRecovery root_id active clock ws h.1 in
    elim (Bool-cases (is_stale_row root_id w)) [
      | inl stale ↦
          let (r, f, rec) =
            Succeeds-ok (recover_work w active clock)
              (recover_work-Recovered w active clock h.0 (ground (arith, stale))) in
          (
            r ∷ rest,
            n + 1,
            ground (arith, e, stale, f),
            record {
              sound = (subst (Holds IsSound) f (recover_work-IsSound w h.0 active clock), ih.sound);
              none_stale = (ground (arith, rec.state), ih.none_stale);
              counted = ground (arith, stale, ih.counted);
            },
          )
      | inr live ↦ (
        w ∷ rest,
        n,
        ground (arith, e, live),
        record {
          sound = (h.0, ih.sound);
          none_stale = (live, ih.none_stale);
          counted = ground (arith, live, ih.counted);
        },
      )
    ]

recover_rows_again :
    (root_id : Str) (active : Bool) (clock : ℕ) (rows : List DirtyScopeWork)
    → All (λ w. is_stale_row root_id w ≡ false) rows
    → recover_rows root_id active clock rows ≡ ok (rows, 0)
unfolding recover_rows
recover_rows_again root_id active clock [] h = refl
recover_rows_again root_id active clock (w ∷ ws) h =
    ground (arith, h.0, recover_rows_again root_id active clock ws h.1)

-- Recovery of a root that exists, over sound rows, always succeeds and leaves sound rows, none of them
-- IN_FLIGHT for that root; it counts each row that was. Running it again, whatever the root's
-- lifecycle has become, changes nothing and recovers none.
pub recover_stale_inflight-IsRecovery :
    (root_id : Str) (lifecycle later : RootLifecycleState) (clock again : ℕ)
    (rows : List DirtyScopeWork)
    → All IsSound rows
    → (done : List DirtyScopeWork) × (n : ℕ) × (recover_stale_inflight root_id
          (some lifecycle)
          clock
          rows
        ≡ ok (done, n))
      × IsRecovery root_id rows done n
      × (recover_stale_inflight root_id (some later) again done ≡ ok (done, 0))
unfolding recover_stale_inflight
recover_stale_inflight-IsRecovery root_id lifecycle later clock again rows h =
    let (done, n, e, r) = recover_rows-IsRecovery root_id (is_active lifecycle) clock rows h in
    (done, n, e, r, recover_rows_again root_id (is_active later) again done r.none_stale)
