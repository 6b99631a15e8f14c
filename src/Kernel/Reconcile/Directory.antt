-- ===== src/Kernel/Reconcile/Directory.antt =====
-- internal/kernel/reconcile/directory.go: what a complete listing of one directory removes.
pub mod Removals
use index_core.Base.{
  Str, str_eq, contains, has_prefix, path_dir, any, ℕ, ◌+◌, pos, Bool, true, false, ◌&&◌, ◌||◌, not,
  Option, none, some, List, [], ◌∷◌, ◌++◌, map, select, if◌then◌else◌,
}
use index_core.Domain.Enums.{AcceptanceState, is_present}
use index_core.Domain.Entities.{SnapshotEntry}
use index_core.Kernel.Reconcile.Types.{
  Config, PriorResource, deref_str, confirm_removed, Transition, transition, Result,
}
use index_core.Kernel.Reconcile.Paths.{entry_path}
use index_core.Kernel.Reconcile.Run.{emit, reconcile}

abbrev pub is_directory : Option Bool → Bool
is_directory none = false
is_directory (some b) = b

-- A direct child of the scope that no entry is at.
unfoldable pub is_unlisted : Str → List Str → Option Str → Bool
is_unlisted scope paths none = false
is_unlisted scope paths (some p) = str_eq (path_dir p) scope && not (contains paths p)

unfoldable pub is_absent_dir : Str → List Str → List Str → PriorResource → Bool
is_absent_dir scope paths observed p =
    is_present p.resource_presence
    && is_unlisted scope paths p.canonical_path
    && is_directory p.is_dir
    && not (contains observed p.resource_id)

-- `strings.HasPrefix(path, dir+"/")`.
abbrev pub is_under : Option Str → Str → Bool
is_under none dir = false
is_under (some p) dir = has_prefix p (dir ++ b'/' ∷ [])

unfoldable pub absent_dirs : Str → List Str → List Str → List PriorResource → List Str
absent_dirs scope paths observed prior =
    map (λ p. deref_str p.canonical_path) (select (is_absent_dir scope paths observed) prior)

-- What the second loop removes.
unfoldable pub is_absent : Str → List Str → List Str → List Str → PriorResource → Bool
is_absent scope paths observed dirs p =
    is_present p.resource_presence
    && not (contains observed p.resource_id)
    && (is_unlisted scope paths p.canonical_path || any (is_under p.canonical_path) dirs)

abbrev pub mirror_transition : ℕ → Str → PriorResource → Transition
mirror_transition now snapshot_id p = record (transition confirm_removed p.resource_id) {
  prior = some p;
  missing_since = some now;
  consecutive_missing = pos 1;
  missing_first_snapshot_id = some snapshot_id;
  missing_last_snapshot_id = some snapshot_id;
  last_confirmed_generation = p.last_confirmed_generation;
  reason = "source mirror: absent from complete fresh direct-child coverage";
}

abbrev pub remove_resource : ℕ → Str → PriorResource → Result → Result
remove_resource now snapshot_id p res = record (emit (mirror_transition now snapshot_id p) res) {
  counts = record (res.counts) { removed = res.counts.removed + 1 };
  mutates_canonical = true;
}

unfoldable pub remove_absent :
    Str → List Str → List Str → List Str → ℕ → Str → List PriorResource → Result → Result
remove_absent scope paths observed dirs now snapshot_id [] res = res
remove_absent scope paths observed dirs now snapshot_id (p ∷ ps) res =
    remove_absent scope paths observed dirs now snapshot_id ps
      (if is_absent scope paths observed dirs p then remove_resource now snapshot_id p res else res)

abbrev pub observed_ids : Result → List Str
observed_ids res = map (λ o. o.resource_id) res.observations

unfoldable pub reconcile_directory :
    List PriorResource → List SnapshotEntry → Str → Config → ℕ → Str → Result
reconcile_directory prior entries scope cfg now snapshot_id =
    let res = reconcile prior entries AcceptanceState.partial cfg now snapshot_id in
    let paths = map entry_path entries in
    let observed = observed_ids res in
    remove_absent scope paths observed (absent_dirs scope paths observed prior) now snapshot_id
      prior res
