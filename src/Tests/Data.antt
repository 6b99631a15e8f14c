-- ===== src/Tests/Data.antt =====
-- A small library: three files, two directories, one of them gone.
use index_core.Base.{Str, codes, ℕ, ◌*◌, ℤ, pos, pos_part, leb, false, none, some, List, [], ◌∷◌}
use index_core.Domain.Enums.{ResourcePresence, RemovalEvidenceState, ProviderIdentityAssurance}
use index_core.Domain.Entities.{SnapshotEntry}
use index_core.Kernel.Reconcile.Types.{Config, PriorResource}
use index_core.Kernel.Completeness.{Float64}

-- A horizon and a grace period of 100, two snapshots to confirm a removal.
abbrev pub policy : Config
policy = record {
  removal_grace_period = pos 100;
  move_recognition_horizon = pos 100;
  min_consecutive_complete_missing = pos 2;
  min_independent_confirmations = pos 1;
  new_id = λ k. k ∷ [];
}

abbrev pub known_file : Str → Str → ℤ → PriorResource
known_file id path size = record {
  canonical = record {
    resource_id = id;
    root_id = codes "root";
    introduced_at_generation = 1;
    last_confirmed_generation = 1;
    resource_presence = ResourcePresence.present;
    removal_evidence_state = RemovalEvidenceState.none_evidence;
    missing_since = none;
    consecutive_complete_missing = pos 0;
    missing_first_snapshot_id = none;
    missing_last_snapshot_id = none;
    canonical_path = some path;
    parent_resource_id = none;
    name = some path;
    is_dir = some false;
    size = some size;
    mtime = some 7000;
    content_hash = none;
    hash_algorithm = none;
    content_type = none;
    current_attributes = [];
    created_at = 0;
    updated_at = 0;
  };
  provider_object_id = none;
  provider_object_id_scope = none;
  provider_id_assurance = ProviderIdentityAssurance.unavailable;
}

abbrev pub seen_file : Str → Str → ℤ → SnapshotEntry
seen_file parent name size = record {
  snapshot_id = codes "s3";
  entry_local_id = name;
  name = name;
  parent_ref = parent;
  is_dir = false;
  size = some size;
  mtime = some 7000;
  content_hash = none;
  hash_algorithm = none;
  provider_object_id = none;
  provider_object_id_scope = none;
  content_type = none;
  provider_identity_assurance = none;
  extra_evidence = [];
}

abbrev pub kept : PriorResource
kept = known_file (codes "k") (codes "/a") (pos 5)

abbrev pub kept_entry : SnapshotEntry
kept_entry = seen_file (codes "/") (codes "a") (pos 5)

abbrev pub gone : PriorResource
gone = known_file (codes "g") (codes "/b") (pos 6)

-- Missing since instant 1000, in two snapshots.
abbrev pub missing : PriorResource
missing = record gone {
  canonical = record (gone.canonical) {
    removal_evidence_state = RemovalEvidenceState.missing_confirmed_by_complete;
    missing_since = some 1000;
    consecutive_complete_missing = pos 2;
    missing_first_snapshot_id = some (codes "s1");
    missing_last_snapshot_id = some (codes "s2");
  };
}

abbrev pub hashed : PriorResource
hashed = record kept {
  canonical = record (kept.canonical) {
    content_hash = some (codes "ff");
    hash_algorithm = some (codes "md5");
  };
}

abbrev pub hashed_entry : SnapshotEntry
hashed_entry = record kept_entry {
  content_hash = some (codes "ff");
  hash_algorithm = some (codes "md5");
}

abbrev pub library : List PriorResource
library = kept ∷ gone ∷ []

abbrev pub listing : List SnapshotEntry
listing = kept_entry ∷ []

-- Exact fractions in place of float64: a numerator over a denominator.
abbrev pub exact : Float64
exact = record {
  F = ℕ × ℕ;
  of_int64 = λ a. (pos_part a, 1);
  divide = λ a b. (a.0 * b.1, a.1 * b.0);
  at_least = λ a b. leb (b.0 * a.1) (a.0 * b.1);
  half = (1, 2);
  zero_f = (0, 1);
  one_f = (1, 1);
}
