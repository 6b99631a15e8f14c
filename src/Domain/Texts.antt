-- ===== src/Domain/Texts.antt =====
-- The constants of internal/domain/enums.go, as the texts that the digest hashes.
use index_core.Base.{Str, codes}
use index_core.Domain.Enums.{
  TraversalStatus, FreshnessEvidence, FailureVisibility, ProviderIdentityAssurance,
  ScopeShrinkCorroboration, RemovalEvidenceState,
}

abbrev pub traversal_text : TraversalStatus → Str
traversal_text TraversalStatus.success = codes "SUCCESS"
traversal_text TraversalStatus.partial = codes "PARTIAL"
traversal_text TraversalStatus.failed = codes "FAILED"
traversal_text TraversalStatus.interrupted = codes "INTERRUPTED"
traversal_text (TraversalStatus.other s) = s

abbrev pub freshness_text : FreshnessEvidence → Str
freshness_text FreshnessEvidence.fresh_direct = codes "FRESH_DIRECT"
freshness_text FreshnessEvidence.fresh_refreshed = codes "FRESH_REFRESHED"
freshness_text FreshnessEvidence.cached_fresh = codes "CACHED_FRESH"
freshness_text FreshnessEvidence.stale = codes "STALE"
freshness_text FreshnessEvidence.unknown = codes "UNKNOWN"
freshness_text (FreshnessEvidence.other s) = s

abbrev pub visibility_text : FailureVisibility → Str
visibility_text FailureVisibility.strong = codes "STRONG_FAILURE_VISIBILITY"
visibility_text FailureVisibility.weak = codes "WEAK_FAILURE_VISIBILITY"
visibility_text FailureVisibility.unknown = codes "UNKNOWN_FAILURE_VISIBILITY"
visibility_text (FailureVisibility.other s) = s

abbrev pub assurance_text : ProviderIdentityAssurance → Str
assurance_text ProviderIdentityAssurance.stable_within_scope = codes "STABLE_WITHIN_SCOPE"
assurance_text ProviderIdentityAssurance.unverified = codes "UNVERIFIED"
assurance_text ProviderIdentityAssurance.unstable = codes "UNSTABLE"
assurance_text ProviderIdentityAssurance.unavailable = codes "UNAVAILABLE"
assurance_text (ProviderIdentityAssurance.other s) = s

abbrev pub corroboration_text : ScopeShrinkCorroboration → Str
corroboration_text ScopeShrinkCorroboration.shrink_none = codes "NONE"
corroboration_text ScopeShrinkCorroboration.corroborated = codes "CORROBORATED"
corroboration_text ScopeShrinkCorroboration.contradicted = codes "CONTRADICTED"

abbrev pub removal_text : RemovalEvidenceState → Str
removal_text RemovalEvidenceState.none_evidence = codes "NONE"
removal_text RemovalEvidenceState.missing_confirmed_by_complete =
    codes "MISSING_CONFIRMED_BY_COMPLETE_SNAPSHOT"
removal_text RemovalEvidenceState.candidate = codes "REMOVAL_CANDIDATE"
removal_text (RemovalEvidenceState.other s) = s
