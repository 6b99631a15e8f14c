-- ===== src/Kernel/Completeness/Verdict.antt =====
-- What the verdicts of `Evaluate` mean.
use index_core.Base.{pos, ◌≤ℤ◌, eq_ℤ_iff, ◌≡◌, ◌≢◌, ◌↔◌, ◌⊎◌, true, false, arith}
use index_core.Domain.Enums.{AcceptanceState, TraversalStatus, FailureVisibility}
use index_core.Kernel.Completeness.{
  Evidence, Float64, is_fresh_enough, freshness_of, assurance_of, is_corroborated,
  significant_shrink, evaluate_positive, evaluate,
}

-- What a COMPLETE verdict vouches for.
pub record IsComplete (fl : Float64) (configured : fl.F) (ev : Evidence) : Type 0 where
  pub traversed : ev.traversal_status ≡ TraversalStatus.success
  pub no_error : ev.has_error_summary ≡ false
  pub no_skips : ev.has_skipped_scopes ≡ false
  pub skips_empty : ev.skipped_known_empty ≡ true
  pub skips_known : ev.skipped_unknown ≡ false
  pub fresh : is_fresh_enough (freshness_of ev) ≡ true
  pub strong : ev.assurance ≡ FailureVisibility.strong
  pub not_shrunk : (significant_shrink fl configured ev ≡ false) ⊎ (is_corroborated ev ≡ true)
  pub not_emptied : (ev.prior_present ≤ℤ pos 0) ⊎ (ev.entry_count ≢ pos 0)

module _ (fl : Float64) (configured : fl.F) (ev : Evidence) where
  -- The verdict is COMPLETE exactly if the traversal succeeded, reported no error and no skipped
  -- scope, positively knows that nothing was skipped, is fresh, has strong failure visibility, shows
  -- no significant shrink without corroboration, and is not empty where the inventory is not.
  pub evaluate-complete :
      (evaluate fl configured ev ≡ AcceptanceState.complete) ↔ IsComplete fl configured ev
  unfolding evaluate evaluate_positive assurance_of
  evaluate-complete = (
    λ h. record {
      traversed = ground (arith, h);
      no_error = ground (arith, h);
      no_skips = ground (arith, h);
      skips_empty = ground (arith, h);
      skips_known = ground (arith, h);
      fresh = ground (arith, h);
      strong = ground (arith, h);
      not_shrunk = ground (arith, h);
      not_emptied = ground (arith, h, eq_ℤ_iff ev.entry_count (pos 0));
    },
    λ c. ground (arith, c, eq_ℤ_iff ev.entry_count (pos 0)),
  )
