-- ===== src/Tests/Coverage.antt =====
-- An instance of the theorem on directory coverage: two entries of /media, of an adapter at /media.
use index_core.Base.{
  Str, codes, pos, ◌≡◌, refl, true, none, some, List, [], ◌∷◌, str_eq, contains, has_prefix,
  path_clean, trim_slash, any,
}
use index_core.Domain.Enums.{
  SnapshotLifecycleState, TraversalStatus, CompletenessFlag, FreshnessEvidence,
}
use index_core.Domain.Entities.{SnapshotEntry, DirectoryCoverage}
use index_core.Domain.Records.{Snapshot}
use index_core.Store.Tables.{Database, done}
use index_core.Store.Coverage.{
  AdapterConfig, Claimed, CoverageEnv, contains_any, trim_left, trim_right, base_path, is_within,
  is_child, are_children, is_proper_path, is_mirror, is_mirror_kind, adapter_config_digest,
  check_generation, is_well_formed, is_fresh_read, check_adapter, check_coverage,
  directory_coverage,
}
use index_core.Store.Coverage.Children.{Covers, directory_coverage-Covers}
use index_core.Tests.Data.{seen_file}

abbrev media : Str
media = codes "/media"

abbrev listed : List SnapshotEntry
listed = seen_file media (codes "a") (pos 5) ∷ seen_file media (codes "b") (pos 6) ∷ []

abbrev alist : AdapterConfig
alist = record { collector_kind = codes "alist"; config = codes "{}" }

-- The digest is the text itself.
abbrev claimed : DirectoryCoverage
claimed = record {
  version = pos 2;
  path = media;
  generation = 4;
  adapter_digest = codes "alist\0{}";
  entry_count = 2;
  topology_digest = codes "00";
}

abbrev reader : CoverageEnv
reader = record {
  unmarshal = λ s. Claimed.coverage claimed;
  read_fence = λ s. none;
  unmarshal_adapter = λ s. some (record {
    mirror = true;
    path = codes "/media/";
    base = codes "/";
    topology = codes "TOKEN";
    topology_username = [];
    topology_password = [];
  });
  decode_hex = λ s. some 32;
  digest = λ s. s;
  adapter = λ s. some alist;
  validate_scoped_fetch = λ db snap seq. done tt;
  clock = 900;
}

abbrev listing : Snapshot
listing = record {
  snapshot_id = codes "s3";
  root_id = codes "root";
  provenance = [];
  observed_at = 500;
  traversal_status = TraversalStatus.partial;
  error_summary = none;
  skipped_scopes = none;
  skipped_scopes_known_empty = true;
  freshness_evidence = some FreshnessEvidence.fresh_refreshed;
  collector_completeness_assurance = none;
  scope_shrink_corroboration = none;
  completeness_flag = CompletenessFlag.partial;
  acceptance_state = none;
  lifecycle_state = SnapshotLifecycleState.submitted;
  entry_count = some (pos 2);
}

abbrev nothing : Database
nothing = record {
  roots = [];
  generations = [];
  resources = [];
  observations = [];
  snapshots = [];
  entries = [];
  admissions = [];
  applied_snapshots = [];
  journal = [];
  results = [];
}

accepted : directory_coverage reader nothing listing listed 4 ≡ done (some claimed)
unfolding directory_coverage check_coverage check_adapter is_fresh_read is_well_formed
    check_generation adapter_config_digest is_mirror_kind is_mirror is_proper_path are_children
    is_child is_within base_path trim_right trim_left contains_any str_eq contains has_prefix
    path_clean trim_slash any
accepted = refl

directory_coverage-Covers_example : Covers claimed listed
directory_coverage-Covers_example =
    directory_coverage-Covers reader nothing listing listed 4 claimed accepted
