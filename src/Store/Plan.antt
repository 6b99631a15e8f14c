-- ===== src/Store/Plan.antt =====
-- `PlanFromResult` and `eventTypeFor` of internal/store/postgres/decision.go: the journal events of a
-- decision. `marshal` is encoding/json on the map that holds a reason.
pub mod Mutations
use index_core.Base.{
  Str, str_eq, ◌≡◌, Bool, true, false, Option, none, some, List, [], ◌∷◌, if◌then◌else◌, String,
}
use index_core.Domain.Enums.{
  EventType, resource_added, resource_updated, resource_renamed, resource_moved, resource_removed,
}
use index_core.Kernel.Reconcile.Types.{Kind, add, update, rename, move, confirm_removed, Transition}

unfoldable pub event_type_for : Kind → Option EventType
event_type_for add = some resource_added
event_type_for update = some resource_updated
event_type_for rename = some resource_renamed
event_type_for move = some resource_moved
event_type_for confirm_removed = some resource_removed
event_type_for _ = none

-- The fields of `JournalEvent` that the plan sets; the sequence numbers come when it is committed.
pub record PlannedEvent : Type 0 where
  pub event_type : EventType
  pub resource_id : Option Str
  pub payload : Str

abbrev pub id_of : Str → Option Str
id_of id = if str_eq id [] then none else some id

unfoldable pub plan_events : (String → Str) → List Transition → List PlannedEvent
plan_events marshal [] = []
plan_events marshal (t ∷ ts) =
    let rest = plan_events marshal ts in
    elim (event_type_for t.kind) [
      | none ↦ rest
      | some et ↦
          record { event_type = et; resource_id = id_of t.resource_id; payload = marshal t.reason }
          ∷ rest
    ]
