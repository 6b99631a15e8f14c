-- ===== src/Kernel/Reconcile/Missing.antt =====
-- `missingTransition` of internal/kernel/reconcile/reconcile.go: what a COMPLETE snapshot that does
-- not hold a PRESENT resource makes of its removal evidence.
pub mod Evidence
use index_core.Base.{
  Str, str_eq, ℕ, ℤ, pos, leb_ℤ, inc_int32, sub_time, Bool, true, false, ◌&&◌, ◌||◌, not, Option,
  none, some, if◌then◌else◌,
}
use index_core.Kernel.Reconcile.Types.{
  Config, PriorResource, deref_str, Kind, Transition, transition, missing_evidence,
  removal_candidate, confirm_removed, min_consecutive, effective_grace,
}
use index_core.Kernel.Reconcile.Paths.{is_filled}

abbrev pub equals : Option Str → Str → Bool
equals none s = false
equals (some t) s = str_eq t s

abbrev pub or_now : Option ℕ → ℕ → ℕ
or_now none now = now
or_now (some t) now = t

-- The switch's default case decides how far the evidence has come.
unfoldable pub missing_kind : Config → ℤ → ℕ → ℕ → Kind
missing_kind cfg consec since now =
    if leb_ℤ (min_consecutive cfg) consec
    then if leb_ℤ (effective_grace cfg) (pos 0) || leb_ℤ (effective_grace cfg) (sub_time now since)
      then confirm_removed
      else removal_candidate
    else missing_evidence

abbrev base_transition : PriorResource → Transition
base_transition p = record (transition missing_evidence p.resource_id) {
  prior = some p;
  last_confirmed_generation = p.last_confirmed_generation;
  reason = "MISSING in COMPLETE snapshot";
}

-- The evidence of `p` as it stands.
abbrev kept_evidence : PriorResource → Transition
kept_evidence p = record (base_transition p) {
  missing_since = p.missing_since;
  consecutive_missing = p.consecutive_complete_missing;
  missing_first_snapshot_id = p.missing_first_snapshot_id;
  missing_last_snapshot_id = p.missing_last_snapshot_id;
}

unfoldable pub missing_transition : PriorResource → Config → ℕ → Str → Transition
missing_transition p cfg now snapshot_id =
    if not (is_filled p.missing_first_snapshot_id)
    then record (base_transition p) {
      missing_since = some now;
      consecutive_missing = pos 1;
      missing_first_snapshot_id = some snapshot_id;
      missing_last_snapshot_id = some snapshot_id;
      reason = "first MISSING observation (evidence only)";
    }
    else if equals p.missing_first_snapshot_id snapshot_id
    then record (kept_evidence p) {
      reason = "same-snapshot re-admission is not independent confirmation";
    }
    else if equals p.missing_last_snapshot_id snapshot_id
    then record (kept_evidence p) {
      reason = "observation already counted; not an independent confirmation";
    }
    else let consec = inc_int32 p.consecutive_complete_missing in
      let since = or_now p.missing_since now in
      record (base_transition p) {
        kind = missing_kind cfg consec since now;
        missing_since = some since;
        consecutive_missing = consec;
        missing_first_snapshot_id = p.missing_first_snapshot_id;
        missing_last_snapshot_id = some snapshot_id;
      }
