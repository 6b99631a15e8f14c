-- ===== src/Domain/Enums.antt =====
-- internal/domain/enums.go. A string type that comes from outside the kernel may hold any text, so
-- it has one more constructor, `other`, for a text that is none of its constants.
use index_core.Base.{Str, Bool, true, false}

pub data ResourcePresence : Type 0 where
  present removed : ResourcePresence
  other : Str → ResourcePresence

pub data RemovalEvidenceState : Type 0 where
  none_evidence missing_confirmed_by_complete candidate : RemovalEvidenceState
  other : Str → RemovalEvidenceState

pub data RootLifecycleState : Type 0 where
  new active deprecated deleted : RootLifecycleState
  other : Str → RootLifecycleState

unfoldable pub can_transition_to : RootLifecycleState → RootLifecycleState → Bool
can_transition_to new active = true
can_transition_to active deprecated = true
can_transition_to active deleted = true
can_transition_to deprecated deleted = true
can_transition_to _ _ = false

pub data SnapshotLifecycleState : Type 0 where
  draft submitted evaluated reconciled rejected retired : SnapshotLifecycleState
  other : Str → SnapshotLifecycleState

-- The kernel's own verdict: `Evaluate` returns no other text.
pub data AcceptanceState : Type 0 where
  complete partial failed stale suspicious : AcceptanceState

pub data TraversalStatus : Type 0 where
  success partial failed interrupted : TraversalStatus
  other : Str → TraversalStatus

unfoldable pub is_source_failure : TraversalStatus → Bool
is_source_failure TraversalStatus.failed = true
is_source_failure TraversalStatus.interrupted = true
is_source_failure _ = false

-- `other []` is the empty text, which stands for missing evidence.
pub data FreshnessEvidence : Type 0 where
  fresh_direct fresh_refreshed cached_fresh stale unknown : FreshnessEvidence
  other : Str → FreshnessEvidence

pub data FailureVisibility : Type 0 where
  strong weak unknown : FailureVisibility
  other : Str → FailureVisibility

pub data CompletenessFlag : Type 0 where
  complete partial : CompletenessFlag
  other : Str → CompletenessFlag

pub data SnapshotIdentityKind : Type 0 where
  revision_token deterministic_digest : SnapshotIdentityKind

pub data EventType : Type 0 where
  resource_added resource_updated resource_renamed resource_moved resource_removed : EventType
  root_deprecated root_deleted : EventType

pub data AdmissionStatus : Type 0 where
  pending applied noop rejected stale_input failed : AdmissionStatus

unfoldable pub is_terminal : AdmissionStatus → Bool
is_terminal AdmissionStatus.pending = false
is_terminal _ = true

pub data ReconcileOutcome : Type 0 where
  reconciled noop rejected stale_input failed : ReconcileOutcome

pub data ProviderIdentityAssurance : Type 0 where
  stable_within_scope unverified unstable unavailable : ProviderIdentityAssurance
  other : Str → ProviderIdentityAssurance

pub data ScopeShrinkCorroboration : Type 0 where
  shrink_none corroborated contradicted : ScopeShrinkCorroboration

-- The comparisons that the code makes with one constant.
abbrev pub is_draft : SnapshotLifecycleState → Bool
is_draft SnapshotLifecycleState.draft = true
is_draft _ = false

abbrev pub is_submitted : SnapshotLifecycleState → Bool
is_submitted SnapshotLifecycleState.submitted = true
is_submitted _ = false

abbrev pub is_reconciled : SnapshotLifecycleState → Bool
is_reconciled SnapshotLifecycleState.reconciled = true
is_reconciled _ = false

abbrev pub is_rejected : SnapshotLifecycleState → Bool
is_rejected SnapshotLifecycleState.rejected = true
is_rejected _ = false

abbrev pub is_deleted : RootLifecycleState → Bool
is_deleted RootLifecycleState.deleted = true
is_deleted _ = false

abbrev pub is_pending : AdmissionStatus → Bool
is_pending AdmissionStatus.pending = true
is_pending _ = false

abbrev pub is_applied : AdmissionStatus → Bool
is_applied AdmissionStatus.applied = true
is_applied _ = false

abbrev pub is_noop : AdmissionStatus → Bool
is_noop AdmissionStatus.noop = true
is_noop _ = false

abbrev pub is_stale_input : AdmissionStatus → Bool
is_stale_input AdmissionStatus.stale_input = true
is_stale_input _ = false

abbrev pub is_present : ResourcePresence → Bool
is_present ResourcePresence.present = true
is_present _ = false

abbrev pub is_removed : ResourcePresence → Bool
is_removed ResourcePresence.removed = true
is_removed _ = false

abbrev pub is_none_evidence : RemovalEvidenceState → Bool
is_none_evidence RemovalEvidenceState.none_evidence = true
is_none_evidence _ = false

abbrev pub is_stable : ProviderIdentityAssurance → Bool
is_stable ProviderIdentityAssurance.stable_within_scope = true
is_stable _ = false

abbrev pub is_complete : AcceptanceState → Bool
is_complete AcceptanceState.complete = true
is_complete _ = false

abbrev pub is_failed : AcceptanceState → Bool
is_failed AcceptanceState.failed = true
is_failed _ = false
