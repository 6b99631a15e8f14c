-- ===== src/Store/Inventory.antt =====
-- The canonical inventory: the UPDATE and INSERT statements of repo_resource.go and
-- `applyTransition` of decision.go (internal/store/postgres). The table is the list of its rows,
-- of all roots; an ADD does not check the table's key and constraints. `clock` is what the database's `now()` returns in this transaction.
pub mod Rows
use index_core.Base.{
  Str, str_eq, codes, ℕ, ℤ, pos, Bool, true, false, ◌&&◌, ◌||◌, Option, none, some, List, [], ◌∷◌,
  ◌++◌, map, select, if◌then◌else◌, path_dir,
}
use index_core.Domain.Enums.{
  ResourcePresence, present, removed, RemovalEvidenceState, none_evidence, is_present,
  missing_confirmed_by_complete, candidate,
}
use index_core.Domain.Entities.{CanonicalResource, SnapshotEntry}
use index_core.Kernel.Reconcile.Types.{
  PriorResource, Kind, add, update, rename, move, unchanged, reset_removal_evidence,
  missing_evidence, removal_candidate, confirm_removed, conflict, Transition,
}
use index_core.Kernel.Reconcile.Paths.{entry_path}

-- `WHERE resource_id = $1`.
unfoldable pub update_row :
    Str → (CanonicalResource → CanonicalResource) → List CanonicalResource → List CanonicalResource
update_row id f [] = []
update_row id f (r ∷ rs) = (if str_eq r.resource_id id then f r else r) ∷ update_row id f rs

abbrev pub with_removal_evidence :
    RemovalEvidenceState → Transition → ℕ → CanonicalResource → CanonicalResource
with_removal_evidence state t clock r = record r {
  removal_evidence_state = state;
  missing_since = t.missing_since;
  consecutive_complete_missing = t.consecutive_missing;
  missing_first_snapshot_id = t.missing_first_snapshot_id;
  missing_last_snapshot_id = t.missing_last_snapshot_id;
  last_confirmed_generation = t.last_confirmed_generation;
  updated_at = clock;
}

abbrev pub without_removal_evidence : ℕ → ℕ → CanonicalResource → CanonicalResource
without_removal_evidence generation clock r = record r {
  removal_evidence_state = none_evidence;
  missing_since = none;
  consecutive_complete_missing = pos 0;
  missing_first_snapshot_id = none;
  missing_last_snapshot_id = none;
  last_confirmed_generation = generation;
  updated_at = clock;
}

abbrev pub as_removed : ℕ → ℕ → CanonicalResource → CanonicalResource
as_removed generation clock r = record r {
  resource_presence = removed;
  last_confirmed_generation = generation;
  updated_at = clock;
}

abbrev pub with_path :
    Option Str → Option Str → Option Str → ℕ → ℕ → CanonicalResource → CanonicalResource
with_path new_path parent new_name generation clock r = record r {
  canonical_path = new_path;
  parent_resource_id = parent;
  name = new_name;
  last_confirmed_generation = generation;
  updated_at = clock;
}

abbrev pub with_attributes :
    SnapshotEntry → CanonicalResource → ℕ → ℕ → CanonicalResource → CanonicalResource
with_attributes e prior generation clock r = record r {
  size = e.size;
  mtime = e.mtime;
  content_hash = e.content_hash;
  hash_algorithm = e.hash_algorithm;
  content_type = e.content_type;
  current_attributes = prior.current_attributes;
  last_confirmed_generation = generation;
  updated_at = clock;
}

abbrev is_dir_at : Str → Str → CanonicalResource → Bool
is_dir_at root_id parent_path r =
    str_eq r.root_id root_id
    && elim r.canonical_path [ none ↦ false | some p ↦ str_eq p parent_path ]
    && is_present r.resource_presence
    && elim r.is_dir [ none ↦ false | some d ↦ d ]

-- The id of the one PRESENT directory of the root at a path; none, or several, yield nil.
unfoldable pub resolve_parent_id : List CanonicalResource → Str → Str → Option Str
unfolding select str_eq
resolve_parent_id rows root_id parent_path =
    if str_eq parent_path [] || str_eq parent_path (codes "/") || str_eq parent_path (codes ".")
    then none
    else elim (select (is_dir_at root_id parent_path) rows) [
      | [] ↦ none
      | r ∷ more ↦ elim more [ [] ↦ some r.resource_id | s ∷ rest ↦ none ]
    ]

-- The row that an ADD inserts.
unfoldable pub added_row : List CanonicalResource → Str → ℕ → ℕ → Transition → CanonicalResource
unfolding entry_path resolve_parent_id path_dir
added_row rows root_id generation clock t =
    let bare : CanonicalResource = record {
      resource_id = t.resource_id;
      root_id = root_id;
      introduced_at_generation = generation;
      last_confirmed_generation = generation;
      resource_presence = present;
      removal_evidence_state = none_evidence;
      missing_since = none;
      consecutive_complete_missing = pos 0;
      missing_first_snapshot_id = none;
      missing_last_snapshot_id = none;
      canonical_path = none;
      parent_resource_id = none;
      name = none;
      is_dir = none;
      size = none;
      mtime = none;
      content_hash = none;
      hash_algorithm = none;
      content_type = none;
      current_attributes = codes "{}";
      created_at = clock;
      updated_at = clock;
    } in
    elim t.entry [
      | none ↦ bare
      | some e ↦ record bare {
        canonical_path = some (entry_path e);
        name = some e.name;
        is_dir = some e.is_dir;
        size = e.size;
        mtime = e.mtime;
        content_hash = e.content_hash;
        hash_algorithm = e.hash_algorithm;
        content_type = e.content_type;
        parent_resource_id = resolve_parent_id rows root_id (path_dir (entry_path e));
      }
    ]

abbrev entry_name : Option SnapshotEntry → Option Str
entry_name none = none
entry_name (some e) = some e.name

-- A RENAME or MOVE of a resource: the parent follows the new path.
abbrev moved_parent : List CanonicalResource → Str → Option Str → PriorResource → Option Str
moved_parent rows root_id none p = p.parent_resource_id
moved_parent rows root_id (some path) p = resolve_parent_id rows root_id (path_dir path)

apply_path :
    Option PriorResource
    → Str
    → List CanonicalResource
    → ℕ
    → ℕ
    → Transition
    → List CanonicalResource
unfolding update_row
apply_path none root_id rows generation clock t = rows
apply_path (some p) root_id rows generation clock t =
    update_row t.resource_id
      (with_path t.new_path (moved_parent rows root_id t.new_path p) (entry_name t.entry) generation
        clock)
      rows

-- The row is found by the id of the prior resource.
apply_attributes :
    Option PriorResource
    → Option SnapshotEntry
    → List CanonicalResource
    → ℕ
    → ℕ
    → List CanonicalResource
unfolding update_row
apply_attributes (some p) (some e) rows generation clock =
    update_row p.resource_id (with_attributes e p.canonical generation clock) rows
apply_attributes _ _ rows generation clock = rows

apply_kind : Kind → Str → ℕ → ℕ → Transition → List CanonicalResource → List CanonicalResource
unfolding added_row update_row apply_path apply_attributes
apply_kind add root_id generation clock t rows =
    rows ++ added_row rows root_id generation clock t ∷ []
apply_kind update root_id generation clock t rows =
    apply_attributes t.prior t.entry rows generation clock
apply_kind rename root_id generation clock t rows =
    apply_path t.prior root_id rows generation clock t
apply_kind move root_id generation clock t rows = apply_path t.prior root_id rows generation clock t
apply_kind reset_removal_evidence root_id generation clock t rows =
    update_row t.resource_id (without_removal_evidence generation clock) rows
apply_kind missing_evidence root_id generation clock t rows =
    update_row t.resource_id (with_removal_evidence missing_confirmed_by_complete t clock) rows
apply_kind removal_candidate root_id generation clock t rows =
    update_row t.resource_id (with_removal_evidence candidate t clock) rows
apply_kind confirm_removed root_id generation clock t rows =
    update_row t.resource_id (as_removed generation clock)
      (update_row t.resource_id (with_removal_evidence candidate t clock) rows)
apply_kind unchanged root_id generation clock t rows = rows
apply_kind conflict root_id generation clock t rows = rows

unfoldable pub apply_transition :
    Str → ℕ → ℕ → List CanonicalResource → Transition → List CanonicalResource
unfolding apply_kind
apply_transition root_id generation clock rows t = apply_kind t.kind root_id generation clock t rows

unfoldable pub apply_transitions :
    Str → ℕ → ℕ → List CanonicalResource → List Transition → List CanonicalResource
unfolding apply_transition
apply_transitions root_id generation clock rows [] = rows
apply_transitions root_id generation clock rows (t ∷ ts) =
    apply_transitions root_id generation clock (apply_transition root_id generation clock rows t) ts
