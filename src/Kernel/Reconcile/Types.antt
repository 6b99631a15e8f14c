-- ===== src/Kernel/Reconcile/Types.antt =====
-- internal/kernel/reconcile/types.go: the policy, the prior inventory and the decision.
use index_core.Base.{
  Str, ℕ, ℤ, pos, ltb_ℤ, Bool, true, false, ◌&&◌, not, Option, none, some, List, [], String,
  if◌then◌else◌,
}
use index_core.Domain.Enums.{ProviderIdentityAssurance, is_present, is_none_evidence}
use index_core.Domain.Entities.{CanonicalResource, SnapshotEntry}

-- A duration is its nanoseconds. `new_id k` is what the k-th call of `NewID` in one run returns.
pub record Config : Type 0 where
  pub removal_grace_period : ℤ
  pub move_recognition_horizon : ℤ
  pub min_consecutive_complete_missing : ℤ
  pub min_independent_confirmations : ℤ
  pub new_id : ℕ → Str

pub data ConfigError : Type 0 where
  unsupported_min_independent grace_below_horizon : ConfigError

unfoldable pub validate : Config → Option ConfigError
validate c =
    if ltb_ℤ (pos 1) c.min_independent_confirmations
    then some unsupported_min_independent
    else if ltb_ℤ (pos 0) c.move_recognition_horizon
        && ltb_ℤ c.removal_grace_period c.move_recognition_horizon
    then some grace_below_horizon
    else none

unfoldable pub min_consecutive : Config → ℤ
min_consecutive c =
    if ltb_ℤ c.min_consecutive_complete_missing (pos 1)
    then pos 1
    else c.min_consecutive_complete_missing

unfoldable pub effective_grace : Config → ℤ
effective_grace c =
    if ltb_ℤ c.removal_grace_period c.move_recognition_horizon
    then c.move_recognition_horizon
    else c.removal_grace_period

-- A canonical resource with its latest identity evidence.
pub record PriorResource : Type 0 where
  pub canonical : CanonicalResource
  pub open canonical use *
  pub provider_object_id : Option Str
  pub provider_object_id_scope : Option Str
  pub provider_id_assurance : ProviderIdentityAssurance

abbrev pub deref_str : Option Str → Str
deref_str none = []
deref_str (some s) = s

abbrev pub has_missing_evidence : PriorResource → Bool
has_missing_evidence p =
    is_present p.resource_presence && not (is_none_evidence p.removal_evidence_state)

abbrev pub canonical_path_of : PriorResource → Str
canonical_path_of p = deref_str p.canonical_path

pub data Kind : Type 0 where
  add update rename move unchanged reset_removal_evidence missing_evidence removal_candidate : Kind
  confirm_removed conflict : Kind

abbrev pub generation_producing : Kind → Bool
generation_producing add = true
generation_producing update = true
generation_producing rename = true
generation_producing move = true
generation_producing confirm_removed = true
generation_producing _ = false

pub record Transition : Type 0 where
  pub kind : Kind
  pub resource_id : Str
  pub entry : Option SnapshotEntry
  pub prior : Option PriorResource
  pub new_path : Option Str
  pub missing_since : Option ℕ
  pub consecutive_missing : ℤ
  pub missing_first_snapshot_id : Option Str
  pub missing_last_snapshot_id : Option Str
  pub last_confirmed_generation : ℕ
  pub reason : String

-- `Transition{Kind: k, ResourceID: id}`: every other field has its zero value. No code sets NewName.
abbrev pub transition : Kind → Str → Transition
transition k id = record {
  kind = k;
  resource_id = id;
  entry = none;
  prior = none;
  new_path = none;
  missing_since = none;
  consecutive_missing = pos 0;
  missing_first_snapshot_id = none;
  missing_last_snapshot_id = none;
  last_confirmed_generation = 0;
  reason = "";
}

pub record Observation : Type 0 where
  pub resource_id : Str
  pub entry : SnapshotEntry

pub record Counts : Type 0 where
  pub added : ℕ
  pub updated : ℕ
  pub renamed : ℕ
  pub moved : ℕ
  pub removed : ℕ
  pub unchanged : ℕ
  pub missing_evidence : ℕ
  pub conflict : ℕ

pub record Conflict : Type 0 where
  pub entry_local_id : Str
  pub resource_id : Str
  pub reason : String

pub record Result : Type 0 where
  pub mutates_canonical : Bool
  pub transitions : List Transition
  pub observations : List Observation
  pub counts : Counts
  pub conflicts : List Conflict

abbrev pub empty_result : Result
empty_result = record {
  mutates_canonical = false;
  transitions = [];
  observations = [];
  counts = record {
    added = 0;
    updated = 0;
    renamed = 0;
    moved = 0;
    removed = 0;
    unchanged = 0;
    missing_evidence = 0;
    conflict = 0;
  };
  conflicts = [];
}
