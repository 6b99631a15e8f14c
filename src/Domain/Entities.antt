-- ===== src/Domain/Entities.antt =====
-- internal/domain/entities.go, identity.go and directory_coverage.go. A pointer is an `Option`, a
-- text its bytes, an instant the nanoseconds since the zero time, a signed number a `ℤ`.
use index_core.Base.{Str, ℕ, ℤ, Bool, Option}
use index_core.Domain.Enums.{
  ResourcePresence, RemovalEvidenceState, ProviderIdentityAssurance, SnapshotIdentityKind,
}

pub record CanonicalResource : Type 0 where
  pub resource_id : Str
  pub root_id : Str
  pub introduced_at_generation : ℕ
  pub last_confirmed_generation : ℕ
  pub resource_presence : ResourcePresence
  pub removal_evidence_state : RemovalEvidenceState
  pub missing_since : Option ℕ
  pub consecutive_complete_missing : ℤ
  pub missing_first_snapshot_id : Option Str
  pub missing_last_snapshot_id : Option Str
  pub canonical_path : Option Str
  pub parent_resource_id : Option Str
  pub name : Option Str
  pub is_dir : Option Bool
  pub size : Option ℤ
  pub mtime : Option ℕ
  pub content_hash : Option Str
  pub hash_algorithm : Option Str
  pub content_type : Option Str
  pub current_attributes : Str
  pub created_at : ℕ
  pub updated_at : ℕ

pub record SnapshotEntry : Type 0 where
  pub snapshot_id : Str
  pub entry_local_id : Str
  pub name : Str
  pub parent_ref : Str
  pub is_dir : Bool
  pub size : Option ℤ
  pub mtime : Option ℕ
  pub content_hash : Option Str
  pub hash_algorithm : Option Str
  pub provider_object_id : Option Str
  pub provider_object_id_scope : Option Str
  pub content_type : Option Str
  pub provider_identity_assurance : Option ProviderIdentityAssurance
  pub extra_evidence : Str

pub record SnapshotIdentity : Type 0 where
  pub kind : SnapshotIdentityKind
  pub namespace : Str
  pub version : Str
  pub value : Str

pub record DirectoryCoverage : Type 0 where
  pub version : ℤ
  pub path : Str
  pub generation : ℕ
  pub adapter_digest : Str
  pub entry_count : ℕ
  pub topology_digest : Str
