-- ===== src/Store/Coverage.antt =====
-- internal/store/postgres/directory_coverage.go: the check of the coverage that a snapshot's provenance
-- claims for one directory. JSON, hex and SHA-256, the adapter's row and the clock are the record
-- CoverageEnv, as is the check of the scoped fetch fence.
pub mod Children
use index_core.Base.{
  Str, codes, str_eq, ℕ, ◌+◌, ltb, leb, ◌==◌, ℤ, pos, Bool, true, false, ◌&&◌, ◌||◌, not, Option,
  none, some, List, [], ◌∷◌, ◌++◌, length, is_empty, select, any, contains, has_prefix, trim_slash,
  path_clean, is_dot, is_dot_dot, if◌then◌else◌,
}
use index_core.Domain.Enums.{TraversalStatus, CompletenessFlag, FreshnessEvidence}
use index_core.Domain.Entities.{SnapshotEntry, DirectoryCoverage}
use index_core.Domain.Records.{Snapshot, Admission}
use index_core.Kernel.Pipeline.{is_full}
use index_core.Store.Tables.{
  Database, Tx, done, aborted, ◌>>=◌, ◌>>◌, require, scan, scoped_fetch_stale, invalid_coverage,
  query_failed,
}

pub record AdapterConfig : Type 0 where
  pub collector_kind : Str
  pub config : Str

-- The fields that the check decodes from the adapter's configuration.
pub record AdapterFields : Type 0 where
  pub mirror : Bool
  pub path : Str
  pub base : Str
  pub topology : Str
  pub topology_username : Str
  pub topology_password : Str

-- A provenance: no JSON object or one without the key, a value that does not decode, or a coverage.
-- A count or a generation below zero is a value that does not decode; the check refuses both.
pub data Claimed : Type 0 where
  opaque malformed : Claimed
  coverage : DirectoryCoverage → Claimed

pub record CoverageEnv : Type 1 where
  pub unmarshal : Str → Claimed
  -- The version and generation of the fence that the provenance holds.
  pub read_fence : Str → Option (ℤ × ℕ)
  pub unmarshal_adapter : Str → Option AdapterFields
  -- The number of bytes that a text in hexadecimal stands for.
  pub decode_hex : Str → Option ℕ
  -- SHA-256, in hexadecimal.
  pub digest : Str → Str
  pub adapter : Str → Option AdapterConfig
  pub validate_scoped_fetch : Database → Snapshot → Option ℕ → Tx (Unit {0})
  pub clock : ℕ

unfoldable pub contains_any : List ℕ → Str → Bool
contains_any marks s = any (λ c. any (λ m. m == c) marks) s

abbrev is_version : ℕ → ℤ → Bool
is_version n (pos v) = v == n
is_version n _ = false

abbrev is_partial_read : TraversalStatus → CompletenessFlag → Option FreshnessEvidence → Bool
is_partial_read TraversalStatus.partial CompletenessFlag.partial
      (some FreshnessEvidence.fresh_refreshed) =
    true
is_partial_read _ _ _ = false

abbrev is_count : ℕ → Option ℤ → Bool
is_count n (some (pos c)) = c == n
is_count n _ = false

abbrev has_bytes : ℕ → Option ℕ → Bool
has_bytes n (some k) = k == n
has_bytes n none = false

-- Between two minutes before the clock and thirty seconds after it.
abbrev is_recent : ℕ → ℕ → Bool
is_recent clock observed_at =
    leb clock (observed_at + 120_000_000_000) && leb observed_at (clock + 30_000_000_000)

-- `strings.Trim(s, "/")`.
unfoldable pub trim_left : Str → Str
trim_left [] = []
trim_left (x ∷ s) = let rest = trim_left s in if x == b'/' then rest else x ∷ s

unfoldable pub trim_right : Str → Str
trim_right [] = []
trim_right (x ∷ s) = let rest = trim_right s in if x == b'/' && is_empty rest then [] else x ∷ rest

unfoldable pub base_path : Str → Str
base_path s = path_clean (b'/' ∷ trim_right (trim_left s))

unfoldable pub is_within : Str → Str → Bool
is_within base p = str_eq p base || has_prefix p (trim_slash base ++ b'/' ∷ [])

-- A plain name in the directory itself.
unfoldable pub is_child : Str → SnapshotEntry → Bool
is_child dir e =
    str_eq e.parent_ref dir
    && not (is_empty e.name || is_dot e.name || is_dot_dot e.name)
    && not (contains_any (b'/' ∷ 92 ∷ 0 ∷ []) e.name)

-- The loop over the entries.
unfoldable pub are_children : Str → List Str → List SnapshotEntry → Bool
are_children dir seen [] = true
are_children dir seen (e ∷ es) =
    is_child dir e && not (contains seen e.name) && are_children dir (e.name ∷ seen) es

unfoldable pub is_proper_path : Str → Bool
is_proper_path p =
    not (is_empty p)
    && has_prefix p (codes "/")
    && str_eq (path_clean p) p
    && not (contains_any (92 ∷ 0 ∷ []) p)

unfoldable pub is_mirror : AdapterFields → Bool
is_mirror a =
    a.mirror
    && not (is_empty a.base)
    && not (is_empty a.topology && (is_empty a.topology_username || is_empty a.topology_password))

unfoldable pub is_mirror_kind : Str → Bool
is_mirror_kind k = str_eq k (codes "alist") || str_eq k (codes "openlist")

abbrev is_admission_of : Snapshot → Admission → Bool
is_admission_of snap a = str_eq a.root_id snap.root_id && str_eq a.snapshot_id snap.snapshot_id

-- Any failure of the fence that is a stale one makes the coverage invalid.
abbrev as_invalid : Tx (Unit {0}) → Tx (Unit {0})
as_invalid (aborted scoped_fetch_stale) = aborted invalid_coverage
as_invalid r = r

module _ (env : CoverageEnv) where
  -- `AdapterConfigDigest`.
  unfoldable pub adapter_config_digest : AdapterConfig → Str
  adapter_config_digest a = env.digest (a.collector_kind ++ 0 ∷ a.config)

  unfoldable pub only_admission : Snapshot → Database → Tx ℕ
  only_admission snap db = elim (select (is_admission_of snap) db.admissions) [
    | [] ↦ aborted invalid_coverage
    | a ∷ more ↦ if is_empty more then done a.admission_seq else aborted invalid_coverage
  ]

  -- Version 3: the fence's lineage stands for the current generation.
  unfoldable pub check_lineage : Snapshot → DirectoryCoverage → Database → Tx (Unit {0})
  check_lineage snap p db = do
    f ← scan invalid_coverage (env.read_fence snap.provenance)
    require (is_version 2 f.0 && f.1 == p.generation) invalid_coverage
    seq ← only_admission snap db
    as_invalid (env.validate_scoped_fetch db snap (some seq))

  unfoldable pub check_generation : Snapshot → DirectoryCoverage → ℕ → Database → Tx (Unit {0})
  check_generation snap p generation db =
      if is_version 3 p.version
      then check_lineage snap p db
      else require (p.generation == generation && is_version 2 p.version) invalid_coverage

  unfoldable pub is_well_formed : DirectoryCoverage → ℕ → Bool
  is_well_formed p count =
      has_bytes 32 (env.decode_hex p.topology_digest)
      && p.entry_count == count
      && is_proper_path p.path
      && leb p.entry_count 10_000

  unfoldable pub is_fresh_read : Snapshot → DirectoryCoverage → Bool
  is_fresh_read snap p =
      is_partial_read snap.traversal_status snap.completeness_flag snap.freshness_evidence
      && not (is_full snap.error_summary)
      && not (is_full snap.skipped_scopes)
      && is_recent env.clock snap.observed_at
      && is_count p.entry_count snap.entry_count

  unfoldable pub check_adapter :
      DirectoryCoverage → List SnapshotEntry → AdapterConfig → Tx (Option DirectoryCoverage)
  check_adapter p entries a = do
    fields ← scan invalid_coverage (env.unmarshal_adapter a.config)
    require
        (is_mirror fields
          && is_mirror_kind a.collector_kind
          && str_eq p.adapter_digest (adapter_config_digest a))
        invalid_coverage
    require (is_within (base_path fields.path) p.path) invalid_coverage
    require (are_children p.path [] entries) invalid_coverage
    done (some p)

  unfoldable pub check_coverage :
      Snapshot
      → List SnapshotEntry
      → ℕ
      → DirectoryCoverage
      → Database
      → Tx (Option DirectoryCoverage)
  check_coverage snap entries generation p db = do
    check_generation snap p generation db
    require (is_well_formed p (length entries)) invalid_coverage
    require (is_fresh_read snap p) invalid_coverage
    a ← scan query_failed (env.adapter snap.root_id)
    check_adapter p entries a

  unfoldable pub directory_coverage :
      Database → Snapshot → List SnapshotEntry → ℕ → Tx (Option DirectoryCoverage)
  directory_coverage db snap entries generation = elim (env.unmarshal snap.provenance) [
    | opaque ↦ done none
    | malformed ↦ aborted invalid_coverage
    | coverage p ↦ check_coverage snap entries generation p db
  ]
