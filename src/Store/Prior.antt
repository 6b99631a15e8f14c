-- ===== src/Store/Prior.antt =====
-- The reads of a reconcile transaction: prior.go, ListSnapshotEntries of repo_snapshot.go and the
-- defaults of pipeline.go in internal/store/postgres; and AppendObservation of prior.go.
-- `text_less` is the collation of the database, by which it orders text columns.
use index_core.Base.{
  Str, str_eq, ℕ, Bool, ◌&&◌, ◌||◌, Option, none, some, List, [], ◌∷◌, map, select, str_ltb,
  sort_by, if◌then◌else◌,
}
use index_core.Domain.Enums.{ProviderIdentityAssurance, FreshnessEvidence, FailureVisibility}
use index_core.Domain.Entities.{CanonicalResource, SnapshotEntry}
use index_core.Domain.Records.{IdentityEvidenceObservation}
use index_core.Kernel.Reconcile.Types.{PriorResource, Observation}
use index_core.Kernel.Reconcile.Paths.{entry_path}
use index_core.Store.Tables.{Database}

-- The latest observation: observation ids grow with the table.
unfoldable pub latest_observation :
    Str → List IdentityEvidenceObservation → Option IdentityEvidenceObservation
latest_observation id [] = none
latest_observation id (o ∷ os) =
    let rest = latest_observation id os in
    elim rest [ some later ↦ some later | none ↦ if str_eq o.resource_id id then some o else none ]

-- Without an observation the outer join is NULL.
unfoldable pub enrich : List IdentityEvidenceObservation → CanonicalResource → PriorResource
enrich os c = elim (latest_observation c.resource_id os) [
  | none ↦ record {
    canonical = c;
    provider_object_id = none;
    provider_object_id_scope = none;
    provider_id_assurance = ProviderIdentityAssurance.unavailable;
  }
  | some o ↦ record {
    canonical = c;
    provider_object_id = o.provider_object_id;
    provider_object_id_scope = o.provider_object_id_scope;
    provider_id_assurance = o.provider_identity_assurance;
  }
]

-- Resource ids are UUIDs, whose order is that of their bytes.
unfoldable pub load_prior_resources : Str → Database → List PriorResource
load_prior_resources root_id db =
    sort_by (λ a b. str_ltb a.canonical.resource_id b.canonical.resource_id)
      (map (enrich db.observations) (select (λ c. str_eq c.root_id root_id) db.resources))

unfoldable pub entry_before : (Str → Str → Bool) → SnapshotEntry → SnapshotEntry → Bool
entry_before text_less a b =
    text_less a.parent_ref b.parent_ref
    || str_eq a.parent_ref b.parent_ref
      && (text_less a.name b.name
          || str_eq a.name b.name && text_less a.entry_local_id b.entry_local_id)

unfoldable pub list_snapshot_entries : (Str → Str → Bool) → Str → Database → List SnapshotEntry
list_snapshot_entries text_less id db =
    sort_by (entry_before text_less) (select (λ e. str_eq e.snapshot_id id) db.entries)

abbrev pub assurance_or_unverified : Option ProviderIdentityAssurance → ProviderIdentityAssurance
assurance_or_unverified none = ProviderIdentityAssurance.unverified
assurance_or_unverified (some a) = a

unfoldable pub observation_row : Str → ℕ → Observation → IdentityEvidenceObservation
observation_row snapshot_id observed_at o = record {
  resource_id = o.resource_id;
  snapshot_id = snapshot_id;
  observed_at = observed_at;
  provider_object_id = o.entry.provider_object_id;
  provider_object_id_scope = o.entry.provider_object_id_scope;
  provider_identity_assurance = assurance_or_unverified o.entry.provider_identity_assurance;
  content_hash = o.entry.content_hash;
  hash_algorithm = o.entry.hash_algorithm;
  observed_path = some (entry_path o.entry);
  size = o.entry.size;
  mtime = o.entry.mtime;
  is_dir = o.entry.is_dir;
}

abbrev pub fresh_or_unknown : Option FreshnessEvidence → FreshnessEvidence
fresh_or_unknown none = FreshnessEvidence.unknown
fresh_or_unknown (some f) = f

abbrev pub assurance_or_unknown : Option FailureVisibility → FailureVisibility
assurance_or_unknown none = FailureVisibility.unknown
assurance_or_unknown (some a) = a
