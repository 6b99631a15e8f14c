-- ===== src/Domain/Records.antt =====
-- internal/domain/entities.go: the rows of the tables that a reconcile transaction reads and writes.
-- Columns that only record when a row was written are left out, as is the lease of an admission.
use index_core.Base.{Str, ℕ, ℤ, Bool, Option}
use index_core.Domain.Enums.{
  RootLifecycleState, SnapshotLifecycleState, AcceptanceState, TraversalStatus, CompletenessFlag,
  FreshnessEvidence, FailureVisibility, ScopeShrinkCorroboration, AdmissionStatus, ReconcileOutcome,
  EventType, ProviderIdentityAssurance,
}
use index_core.Domain.Entities.{SnapshotIdentity}

pub record ResourceRoot : Type 0 where
  pub root_id : Str
  pub lifecycle_state : RootLifecycleState
  pub current_generation : ℕ
  pub latest_admission_seq : ℕ
  pub updated_at : ℕ

pub record Generation : Type 0 where
  pub root_id : Str
  pub generation_number : ℕ
  pub produced_by_snapshot_id : Option Str
  pub produced_by_admission_seq : Option ℕ
  pub summary : Str

pub record IdentityEvidenceObservation : Type 0 where
  pub resource_id : Str
  pub snapshot_id : Str
  pub observed_at : ℕ
  pub provider_object_id : Option Str
  pub provider_object_id_scope : Option Str
  pub provider_identity_assurance : ProviderIdentityAssurance
  pub content_hash : Option Str
  pub hash_algorithm : Option Str
  pub observed_path : Option Str
  pub size : Option ℤ
  pub mtime : Option ℕ
  pub is_dir : Bool

-- A nil slice is `none`.
pub record Snapshot : Type 0 where
  pub snapshot_id : Str
  pub root_id : Str
  pub provenance : Str
  pub observed_at : ℕ
  pub traversal_status : TraversalStatus
  pub error_summary : Option Str
  pub skipped_scopes : Option Str
  pub skipped_scopes_known_empty : Bool
  pub freshness_evidence : Option FreshnessEvidence
  pub collector_completeness_assurance : Option FailureVisibility
  pub scope_shrink_corroboration : Option ScopeShrinkCorroboration
  pub completeness_flag : CompletenessFlag
  pub acceptance_state : Option AcceptanceState
  pub lifecycle_state : SnapshotLifecycleState
  pub entry_count : Option ℤ

pub record Admission : Type 0 where
  pub root_id : Str
  pub admission_seq : ℕ
  pub snapshot_id : Str
  pub status : AdmissionStatus
  pub applied_generation : Option ℕ

pub record AppliedSnapshot : Type 0 where
  pub root_id : Str
  pub identity : SnapshotIdentity
  pub snapshot_id : Str
  pub applied_generation : ℕ
  pub applied_admission_seq : ℕ

pub record JournalEvent : Type 0 where
  pub root_id : Str
  pub event_seq : ℕ
  pub generation_number : ℕ
  pub intra_generation_seq : ℕ
  pub event_type : EventType
  pub resource_id : Option Str
  pub payload : Str

pub record ReconcileResult : Type 0 where
  pub root_id : Str
  pub admission_seq : ℕ
  pub generation_number : Option ℕ
  pub outcome : ReconcileOutcome
  pub rejection_reason : Option Str
