-- ===== src/Kernel/Completeness.antt =====
-- internal/kernel/completeness: the verdict on a submitted snapshot, and the corroboration of a
-- shrink. Go's float64 is a parameter of `significant_shrink`: conversion, division and comparison.
pub mod Verdict
pub mod Shrink
use index_core.Base.{
  ℕ, ℤ, pos, ltb_ℤ, leb_ℤ, sub_ℤ, eq_ℤ, Bool, true, false, ◌&&◌, ◌||◌, not, Option, none, some,
  List, [], ◌∷◌, if◌then◌else◌,
}
use index_core.Domain.Enums.{
  AcceptanceState, TraversalStatus, FreshnessEvidence, FailureVisibility, ScopeShrinkCorroboration,
}

pub record Evidence : Type 0 where
  pub traversal_status : TraversalStatus
  pub has_error_summary : Bool
  pub has_skipped_scopes : Bool
  pub skipped_known_empty : Bool
  pub skipped_unknown : Bool
  pub freshness : FreshnessEvidence
  pub assurance : FailureVisibility
  pub used_cache : Bool
  pub entry_count : ℤ
  pub prior_present : ℤ
  pub corroboration : Option ScopeShrinkCorroboration

-- What the code uses of float64.
pub record Float64 : Type 1 where
  pub F : Type 0
  pub of_int64 : ℤ → F
  pub divide : F → F → F
  pub at_least : F → F → Bool
  pub half : F
  pub zero_f : F
  pub one_f : F

abbrev pub is_fresh_enough : FreshnessEvidence → Bool
is_fresh_enough FreshnessEvidence.fresh_direct = true
is_fresh_enough FreshnessEvidence.fresh_refreshed = true
is_fresh_enough FreshnessEvidence.cached_fresh = true
is_fresh_enough _ = false

abbrev pub is_stale : FreshnessEvidence → Bool
is_stale FreshnessEvidence.stale = true
is_stale _ = false

abbrev pub is_unknown_freshness : FreshnessEvidence → Bool
is_unknown_freshness FreshnessEvidence.unknown = true
is_unknown_freshness _ = false

abbrev pub is_strong : FailureVisibility → Bool
is_strong FailureVisibility.strong = true
is_strong _ = false

abbrev pub is_weak_or_unknown : FailureVisibility → Bool
is_weak_or_unknown FailureVisibility.weak = true
is_weak_or_unknown FailureVisibility.unknown = true
is_weak_or_unknown _ = false

abbrev pub is_traversal_success : TraversalStatus → Bool
is_traversal_success TraversalStatus.success = true
is_traversal_success _ = false

abbrev pub is_traversal_failed : TraversalStatus → Bool
is_traversal_failed TraversalStatus.failed = true
is_traversal_failed _ = false

abbrev pub is_traversal_cut : TraversalStatus → Bool
is_traversal_cut TraversalStatus.interrupted = true
is_traversal_cut TraversalStatus.partial = true
is_traversal_cut _ = false

-- The empty text stands for UNKNOWN.
unfoldable pub freshness_of : Evidence → FreshnessEvidence
freshness_of ev = elim ev.freshness [
  | FreshnessEvidence.other [] ↦ FreshnessEvidence.unknown
  | f ↦ f
]

unfoldable pub assurance_of : Evidence → FailureVisibility
assurance_of ev = elim ev.assurance [
  | FailureVisibility.other [] ↦ FailureVisibility.unknown
  | a ↦ a
]

unfoldable pub is_corroborated : Evidence → Bool
is_corroborated ev = elim ev.corroboration [
  | some ScopeShrinkCorroboration.corroborated ↦ true
  | _ ↦ false
]

module _ (fl : Float64) (configured : fl.F) where
  -- `Config.ratio`: a configured ratio outside the open interval from 0 to 1 selects the default.
  unfoldable pub ratio : fl.F
  ratio =
      if fl.at_least fl.zero_f configured || fl.at_least configured fl.one_f
      then fl.half
      else configured

  unfoldable pub significant_shrink : Evidence → Bool
  significant_shrink ev =
      let drop = sub_ℤ ev.prior_present ev.entry_count in
      if leb_ℤ ev.prior_present (pos 0)
      then false
      else if leb_ℤ drop (pos 0)
      then false
      else fl.at_least (fl.divide (fl.of_int64 drop) (fl.of_int64 ev.prior_present)) ratio

  -- C-8 to C-10.
  unfoldable pub evaluate_positive : Evidence → AcceptanceState
  evaluate_positive ev =
      let success = is_traversal_success ev.traversal_status in
      if success && ltb_ℤ (pos 0) ev.prior_present && eq_ℤ ev.entry_count (pos 0)
      then AcceptanceState.suspicious
      else if success
          && not ev.has_error_summary
          && ev.skipped_known_empty
          && not ev.skipped_unknown
          && is_fresh_enough (freshness_of ev)
          && is_strong (assurance_of ev)
          && not (significant_shrink ev && not (is_corroborated ev))
      then AcceptanceState.complete
      else if success && is_weak_or_unknown (assurance_of ev)
      then AcceptanceState.suspicious
      else AcceptanceState.partial

  -- `Evaluate`: C-1 to C-7, then the rest.
  unfoldable pub evaluate : Evidence → AcceptanceState
  evaluate ev =
      if is_traversal_failed ev.traversal_status
      then AcceptanceState.failed
      else if is_traversal_cut ev.traversal_status || ev.has_error_summary || ev.has_skipped_scopes
      then AcceptanceState.partial
      else if is_stale (freshness_of ev)
          || (is_unknown_freshness (freshness_of ev) && ev.used_cache)
      then AcceptanceState.stale
      else if is_traversal_success ev.traversal_status
          && ltb_ℤ (pos 0) ev.prior_present
          && significant_shrink ev
          && not (is_corroborated ev)
      then AcceptanceState.suspicious
      else evaluate_positive ev

-- A prior observation that is independent of the one that raised the signal.
pub record Observation : Type 0 where
  pub shrunk : Bool
  pub fresh : Bool
  pub no_error : Bool
  pub no_skips : Bool
  pub strong_assurance : Bool

abbrev pub is_fit : Observation → Bool
is_fit o = o.fresh && o.no_error && o.no_skips && o.strong_assurance

unfoldable pub first_fit : List Observation → ScopeShrinkCorroboration
first_fit [] = ScopeShrinkCorroboration.shrink_none
first_fit (o ∷ os) =
    if is_fit o
    then if o.shrunk
      then ScopeShrinkCorroboration.corroborated
      else ScopeShrinkCorroboration.contradicted
    else first_fit os

unfoldable pub derive_shrink_corroboration : Bool → List Observation → ScopeShrinkCorroboration
derive_shrink_corroboration significant independent =
    if not significant then ScopeShrinkCorroboration.shrink_none else first_fit independent
