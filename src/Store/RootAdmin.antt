-- ===== src/Store/RootAdmin.antt =====
-- `TransitionRootLifecycle` of internal/store/postgres/root_admin.go, and the roots of repo_root.go.
-- `marshal` is encoding/json on the map that holds the new state.
use index_core.Base.{
  Str, ℕ, ◌+◌, ◌^◌, ltb, str_eq, Bool, true, false, Option, none, some, if◌then◌else◌,
}
use index_core.Domain.Enums.{
  RootLifecycleState, can_transition_to, EventType, root_deprecated, root_deleted,
}
use index_core.Domain.Records.{ResourceRoot}
use index_core.Store.Tables.{
  Database, Tx, done, ◌>>=◌, ◌>>◌, require, scan, not_found, invalid_transition, out_of_range,
}
use index_core.Store.Tables.Rows.{
  find_root, update_root, insert_generation, next_event_seq, next_intra_generation_seq,
  append_journal_event,
}

pub record RootLifecycleResult : Type 0 where
  pub from : RootLifecycleState
  pub to : RootLifecycleState
  pub generation : ℕ
  pub event_seq : Option ℕ

abbrev pub same_state : RootLifecycleState → RootLifecycleState → Bool
same_state RootLifecycleState.new RootLifecycleState.new = true
same_state RootLifecycleState.active RootLifecycleState.active = true
same_state RootLifecycleState.deprecated RootLifecycleState.deprecated = true
same_state RootLifecycleState.deleted RootLifecycleState.deleted = true
same_state (RootLifecycleState.other s) (RootLifecycleState.other t) = str_eq s t
same_state _ _ = false

unfoldable pub root_lifecycle_event : RootLifecycleState → Option EventType
root_lifecycle_event RootLifecycleState.deprecated = some root_deprecated
root_lifecycle_event RootLifecycleState.deleted = some root_deleted
root_lifecycle_event _ = none

-- The states that `ListRoots` shows by default, and on request.
unfoldable pub is_visible : Bool → Bool → ResourceRoot → Bool
is_visible include_deprecated include_deleted r = elim r.lifecycle_state [
  | RootLifecycleState.new ↦ true
  | RootLifecycleState.active ↦ true
  | RootLifecycleState.deprecated ↦ include_deprecated
  | RootLifecycleState.deleted ↦ include_deleted
  | RootLifecycleState.other s ↦ false
]

module _ (marshal : RootLifecycleState → Str) where
  unfoldable pub append_lifecycle_event :
      Str → RootLifecycleState → ℕ → Database → Tx (Database × Option ℕ)
  append_lifecycle_event root_id next gen db = elim (root_lifecycle_event next) [
    | none ↦ done (db, none)
    | some et ↦
        let seq = next_event_seq root_id db.journal in
        append_journal_event
          (record {
            root_id = root_id;
            event_seq = seq;
            generation_number = gen;
            intra_generation_seq = next_intra_generation_seq root_id gen db.journal;
            event_type = et;
            resource_id = none;
            payload = marshal next;
          })
          db
        >>= (λ appended. done (appended, some seq))
  ]

  unfoldable pub change_lifecycle :
      Str → RootLifecycleState → ResourceRoot → ℕ → Database → Tx (Database × RootLifecycleResult)
  change_lifecycle root_id next root clock db = do
    require (can_transition_to root.lifecycle_state next) invalid_transition
    let gen = root.current_generation + 1
    require (ltb gen (2 ^ 63)) out_of_range
    produced ←
        insert_generation
          (record {
            root_id = root_id;
            generation_number = gen;
            produced_by_snapshot_id = none;
            produced_by_admission_seq = none;
            summary = marshal next;
          })
          (record db {
            roots =
                update_root
                  (λ r. record r {
                    lifecycle_state = next;
                    current_generation = gen;
                    updated_at = clock;
                  })
                  root_id db.roots;
          })
    logged ← append_lifecycle_event root_id next gen produced
    done (
      logged.0,
      record { from = root.lifecycle_state; to = next; generation = gen; event_seq = logged.1 },
    )

  unfoldable pub transition_root_lifecycle :
      Str → RootLifecycleState → ℕ → Database → Tx (Database × RootLifecycleResult)
  transition_root_lifecycle root_id next clock db =
      scan not_found (find_root root_id db.roots) >>= (λ root.
        if same_state root.lifecycle_state next
        then done (
          db,
          record {
            from = root.lifecycle_state;
            to = next;
            generation = root.current_generation;
            event_seq = none;
          },
        )
        else change_lifecycle root_id next root clock db)
