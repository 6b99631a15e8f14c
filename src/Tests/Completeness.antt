-- ===== src/Tests/Completeness.antt =====
-- Instances of the theorems on completeness. Floats are fractions here.
use index_core.Base.{pos, ◌≡◌, refl, ◌↔◌, true, false, none, List, [], ◌∷◌, arith}
use index_core.Domain.Enums.{AcceptanceState, TraversalStatus, FreshnessEvidence, FailureVisibility}
use index_core.Kernel.Completeness.{
  Evidence, Observation, evaluate, significant_shrink, freshness_of, ratio, evaluate_positive,
  assurance_of, is_corroborated, derive_shrink_corroboration,
}
use index_core.Kernel.Completeness.Verdict.{IsComplete, evaluate-complete}
use index_core.Domain.Enums.{ScopeShrinkCorroboration}
use index_core.Kernel.Completeness.Shrink.{Decides, derive_shrink_corroboration-first}
use index_core.Tests.Data.{exact}

abbrev good : Evidence
good = record {
  traversal_status = TraversalStatus.success;
  has_error_summary = false;
  has_skipped_scopes = false;
  skipped_known_empty = true;
  skipped_unknown = false;
  freshness = FreshnessEvidence.fresh_direct;
  assurance = FailureVisibility.strong;
  used_cache = false;
  entry_count = pos 10;
  prior_present = pos 12;
  corroboration = none;
}

-- Half of the inventory is gone.
abbrev shrunk : Evidence
shrunk = record good { entry_count = pos 6 }

good_complete : evaluate exact (0, 1) good ≡ AcceptanceState.complete
unfolding evaluate significant_shrink freshness_of ratio evaluate_positive assurance_of
good_complete = refl

shrunk_suspicious : evaluate exact (0, 1) shrunk ≡ AcceptanceState.suspicious
unfolding evaluate significant_shrink freshness_of ratio is_corroborated
shrunk_suspicious = refl

evaluate-complete_example :
    (evaluate exact (0, 1) good ≡ AcceptanceState.complete) ↔ IsComplete exact (0, 1) good
evaluate-complete_example = evaluate-complete exact (0, 1) good

abbrev cut_short : Evidence
cut_short = record good { traversal_status = TraversalStatus.interrupted }

cut_short_incomplete : ¬ IsComplete exact (0, 1) cut_short
cut_short_incomplete = λ c. ground (arith, c.traversed)

abbrev agreeing : List Observation
agreeing =
    record {
      shrunk = true;
      fresh = false;
      no_error = true;
      no_skips = true;
      strong_assurance = true;
    }
    ∷ record {
      shrunk = true;
      fresh = true;
      no_error = true;
      no_skips = true;
      strong_assurance = true;
    }
    ∷ []

derive_shrink_corroboration-first_example :
    Decides agreeing (derive_shrink_corroboration true agreeing)
    × (derive_shrink_corroboration false agreeing ≡ ScopeShrinkCorroboration.shrink_none)
derive_shrink_corroboration-first_example = derive_shrink_corroboration-first agreeing
