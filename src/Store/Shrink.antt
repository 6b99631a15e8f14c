-- ===== src/Store/Shrink.antt =====
-- The shrink corroboration of coordinator.go: an earlier snapshot that was the first to see the same
-- reduced scope, with nothing else admitted in between. The order in which the anchors are tried does
-- not matter to whether one of them serves.
use index_core.Base.{
  Str, str_eq, ℕ, ltb, ℤ, pos, sub_ℤ, leb_ℤ, Bool, true, false, ◌&&◌, not, Option, none, some, List,
  [], any, if◌then◌else◌,
}
use index_core.Domain.Enums.{SnapshotLifecycleState, AcceptanceState, ScopeShrinkCorroboration}
use index_core.Domain.Entities.{SnapshotEntry}
use index_core.Domain.Records.{Snapshot, Admission}
use index_core.Kernel.Completeness.{Float64, is_traversal_success, is_fresh_enough, is_strong}
use index_core.Kernel.Pipeline.{raw_scope_signature}
use index_core.Store.Prior.{list_snapshot_entries, fresh_or_unknown, assurance_or_unknown}
use index_core.Store.Tables.{Database}

unfoldable pub significant_shrink : (fl : Float64) → ℤ → ℤ → Bool
significant_shrink fl prior_present entry_count =
    let drop = sub_ℤ prior_present entry_count in
    if leb_ℤ prior_present (pos 0)
    then false
    else if leb_ℤ drop (pos 0)
    then false
    else fl.at_least (fl.divide (fl.of_int64 drop) (fl.of_int64 prior_present)) fl.half

abbrev pub is_settled : SnapshotLifecycleState → Bool
is_settled SnapshotLifecycleState.evaluated = true
is_settled SnapshotLifecycleState.reconciled = true
is_settled _ = false

abbrev pub is_suspicious : Option AcceptanceState → Bool
is_suspicious (some AcceptanceState.suspicious) = true
is_suspicious _ = false

abbrev pub is_uncorroborated : Option ScopeShrinkCorroboration → Bool
is_uncorroborated (some ScopeShrinkCorroboration.shrink_none) = true
is_uncorroborated _ = false

abbrev pub is_null : Option Str → Bool
is_null none = true
is_null (some s) = false

-- The conditions of the anchor query on the snapshot.
unfoldable pub is_anchor : Str → Str → Snapshot → Bool
is_anchor root_id snapshot_id s =
    str_eq s.root_id root_id
    && not (str_eq s.snapshot_id snapshot_id)
    && is_settled s.lifecycle_state
    && is_suspicious s.acceptance_state
    && is_uncorroborated s.scope_shrink_corroboration
    && is_traversal_success s.traversal_status
    && is_null s.error_summary
    && s.skipped_scopes_known_empty
    && is_fresh_enough (fresh_or_unknown s.freshness_evidence)
    && is_strong (assurance_or_unknown s.collector_completeness_assurance)

abbrev pub admits : Snapshot → Admission → Bool
admits s a = str_eq a.snapshot_id s.snapshot_id && str_eq a.root_id s.root_id

module _ (text_less : Str → Str → Bool) where
  unfoldable pub scope_signature : Str → Database → Str
  scope_signature id db = raw_scope_signature (list_snapshot_entries text_less id db)

  -- An observation between the two that has another signature.
  unfoldable pub is_intervening : Str → Str → Str → ℕ → ℕ → Str → Database → Snapshot → Bool
  is_intervening root_id current_id anchor_id anchor_seq current_seq target db s =
      str_eq s.root_id root_id
      && not (str_eq s.snapshot_id current_id)
      && not (str_eq s.snapshot_id anchor_id)
      && is_settled s.lifecycle_state
      && any (λ a. admits s a && ltb anchor_seq a.admission_seq && ltb a.admission_seq current_seq)
          db.admissions
      && not (str_eq (scope_signature s.snapshot_id db) target)

  unfoldable pub no_intervening_growth : Str → Str → Str → ℕ → ℕ → Str → Database → Bool
  no_intervening_growth root_id current_id anchor_id anchor_seq current_seq target db = not (
      any (is_intervening root_id current_id anchor_id anchor_seq current_seq target db)
        db.snapshots)

  unfoldable pub serves : Str → ℕ → Str → Str → Database → Snapshot → Admission → Bool
  serves root_id current_seq snapshot_id target db s a =
      admits s a
      && ltb a.admission_seq current_seq
      && str_eq (scope_signature s.snapshot_id db) target
      && no_intervening_growth root_id snapshot_id s.snapshot_id a.admission_seq current_seq target
          db

  unfoldable pub derive_qualified_corroboration :
      Str → ℕ → Str → List SnapshotEntry → Database → ScopeShrinkCorroboration
  derive_qualified_corroboration root_id current_seq snapshot_id entries db =
      let target = raw_scope_signature entries in
      if str_eq target []
      then ScopeShrinkCorroboration.shrink_none
      else if any
          (λ s.
            is_anchor root_id snapshot_id s
            && any (serves root_id current_seq snapshot_id target db s) db.admissions)
          db.snapshots
      then ScopeShrinkCorroboration.corroborated
      else ScopeShrinkCorroboration.shrink_none
