-- ===== src/Kernel/Identity.antt =====
-- internal/kernel/identity: the bytes that the identity of an evaluated snapshot hashes. SHA-256 with
-- its hexadecimal text is the parameter `digest`, and strconv.Itoa the parameter `decimal`.
use Prim.Native.Nat.{Ordering}
use index_core.Base.{
  Str, codes, ℕ, ◌-◌, ◌/◌, ◌%◌, ◌^◌, ℤ, pos, negsuc, ltb_ℤ, Bool, true, false, Option, none, some,
  List, [], ◌∷◌, ◌++◌, length, str_ltb, sort_by, if◌then◌else◌,
}
use index_core.Domain.Enums.{deterministic_digest}
use index_core.Domain.Entities.{SnapshotIdentity, DirectoryCoverage}

pub record Entry : Type 0 where
  pub parent_ref : Str
  pub name : Str
  pub is_dir : Bool
  pub size : Option ℤ
  pub mtime_unix_nano : Option ℤ
  pub content_hash : Str
  pub hash_algorithm : Str
  pub content_type : Str
  pub provider_object_id : Str
  pub provider_object_id_scope : Str
  pub provider_assurance : Str

pub record Evidence : Type 0 where
  pub traversal_status : Str
  pub error_summary_canonical : Str
  pub skipped_scopes_canonical : Str
  pub freshness : Str
  pub assurance : Str
  pub scope_shrink_corroboration : Str
  pub removal_decision_context : Str

-- -1, 0 and 1 are lt, eq and gt.
unfoldable pub cmp_str : Str → Str → Ordering
cmp_str a b = if str_ltb a b then Ordering.lt else if str_ltb b a then Ordering.gt else Ordering.eq

unfoldable pub cmp_opt_int : Option ℤ → Option ℤ → Ordering
cmp_opt_int none none = Ordering.eq
cmp_opt_int none (some b) = Ordering.lt
cmp_opt_int (some a) none = Ordering.gt
cmp_opt_int (some a) (some b) =
    if ltb_ℤ a b then Ordering.lt else if ltb_ℤ b a then Ordering.gt else Ordering.eq

-- `if a.IsDir != b.IsDir { return !a.IsDir }`, as a comparison.
unfoldable pub cmp_bool : Bool → Bool → Ordering
cmp_bool false true = Ordering.lt
cmp_bool true false = Ordering.gt
cmp_bool _ _ = Ordering.eq

-- `if c != 0 { return c < 0 }`, and then the rest.
abbrev pub decided : Ordering → Bool → Bool
decided Ordering.lt rest = true
decided Ordering.gt rest = false
decided Ordering.eq rest = rest

unfoldable pub less_entry : Entry → Entry → Bool
less_entry a b = decided (cmp_str a.parent_ref b.parent_ref) (
    decided (cmp_str a.name b.name) (
      decided (cmp_bool a.is_dir b.is_dir) (
        decided (cmp_opt_int a.size b.size) (
          decided (cmp_opt_int a.mtime_unix_nano b.mtime_unix_nano) (
            decided (cmp_str a.content_hash b.content_hash) (
              decided (cmp_str a.hash_algorithm b.hash_algorithm) (
                decided (cmp_str a.content_type b.content_type) (
                  decided (cmp_str a.provider_object_id b.provider_object_id) (
                    decided (cmp_str a.provider_object_id_scope b.provider_object_id_scope)
                      (decided (cmp_str a.provider_assurance b.provider_assurance) false))))))))))

-- `binary.BigEndian.PutUint64`.
unfoldable pub put_uint64 : ℕ → Str
put_uint64 n =
    n / 2 ^ 56 % 256
    ∷ n / 2 ^ 48 % 256
    ∷ n / 2 ^ 40 % 256
    ∷ n / 2 ^ 32 % 256
    ∷ n / 2 ^ 24 % 256
    ∷ n / 2 ^ 16 % 256
    ∷ n / 2 ^ 8 % 256
    ∷ n % 256
    ∷ []

unfoldable pub write_tag : Str → Str
write_tag s = put_uint64 (length s) ++ s

unfoldable pub write_bool : Bool → Str
write_bool true = 1 ∷ []
write_bool false = 0 ∷ []

-- `uint64(v)` of an int64.
unfoldable pub uint64_of : ℤ → ℕ
uint64_of (pos n) = n % 2 ^ 64
uint64_of (negsuc n) = 2 ^ 64 - 1 - n % 2 ^ 64

unfoldable pub write_opt_int : Option ℤ → Str
write_opt_int none = 0 ∷ []
write_opt_int (some v) = 1 ∷ put_uint64 (uint64_of v)

unfoldable pub entry_bytes : Entry → Str
entry_bytes e =
    write_tag (codes "entry")
    ++ write_tag e.parent_ref
    ++ write_tag e.name
    ++ write_bool e.is_dir
    ++ write_opt_int e.size
    ++ write_opt_int e.mtime_unix_nano
    ++ write_tag e.content_hash
    ++ write_tag e.hash_algorithm
    ++ write_tag e.content_type
    ++ write_tag e.provider_object_id
    ++ write_tag e.provider_object_id_scope
    ++ write_tag e.provider_assurance

unfoldable pub entries_bytes : List Entry → Str
entries_bytes [] = []
entries_bytes (e ∷ es) = entry_bytes e ++ entries_bytes es

unfoldable pub evidence_bytes : Evidence → Str
evidence_bytes ev =
    write_tag (codes "evidence")
    ++ write_tag ev.traversal_status
    ++ write_tag ev.error_summary_canonical
    ++ write_tag ev.skipped_scopes_canonical
    ++ write_tag ev.freshness
    ++ write_tag ev.assurance
    ++ write_tag ev.scope_shrink_corroboration
    ++ write_tag ev.removal_decision_context

abbrev pub digest_namespace : Str
digest_namespace = codes "kernel.index-core/io3"

abbrev pub digest_version : Str
digest_version = codes "v3-live-copies"

-- What `FinalDigest` writes to the hash.
unfoldable pub digest_input : List Entry → Evidence → Str
digest_input entries ev =
    write_tag (codes "index-core/io3")
    ++ write_tag digest_version
    ++ entries_bytes (sort_by less_entry entries)
    ++ evidence_bytes ev

module _ (digest : Str → Str) where
  unfoldable pub final_digest : List Entry → Evidence → SnapshotIdentity
  final_digest entries ev = record {
    kind = deterministic_digest;
    namespace = digest_namespace;
    version = digest_version;
    value = digest (digest_input entries ev);
  }

  unfoldable pub directory_digest :
      (ℤ → Str) → SnapshotIdentity → DirectoryCoverage → SnapshotIdentity
  directory_digest decimal base coverage = record base {
    version = codes "v6-directory-coverage";
    value = digest (
        write_tag (codes "directory-coverage-v4-live-copies")
        ++ write_tag base.value
        ++ write_tag coverage.path
        ++ write_tag coverage.adapter_digest
        ++ write_tag (decimal (pos coverage.entry_count))
        ++ write_tag coverage.topology_digest);
  }
