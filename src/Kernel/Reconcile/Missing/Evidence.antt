-- ===== src/Kernel/Reconcile/Missing/Evidence.antt =====
-- When removal evidence advances, and when it may end in removal.
use index_core.Base.{
  Str, str_eq_iff, ℕ, ℤ, pos, ◌≤ℤ◌, inc_int32, sub_time, ◌≡◌, ◌≢◌, ◌⊎◌, ◌↔◌, inr, true, Option,
  none, some, arith,
}
use index_core.Domain.Enums.{RemovalEvidenceState}
use index_core.Kernel.Reconcile.Types.{
  Config, PriorResource, Transition, missing_evidence, confirm_removed, min_consecutive,
  effective_grace,
}
use index_core.Kernel.Reconcile.Paths.{is_filled, within_move_horizon}
use index_core.Kernel.Reconcile.Missing.{equals, or_now, missing_kind, missing_transition}
use index_core.Store.Inventory.{with_removal_evidence}

-- What a confirmed removal rests on.
pub record IsConfirmable (p : PriorResource) (cfg : Config) (now : ℕ) (snapshot_id : Str)
    : Type 0 where
  pub seen_missing : is_filled p.missing_first_snapshot_id ≡ true
  pub first_is_other : p.missing_first_snapshot_id ≢ some snapshot_id
  pub last_is_other : p.missing_last_snapshot_id ≢ some snapshot_id
  pub often : min_consecutive cfg ≤ℤ inc_int32 p.consecutive_complete_missing
  pub long_enough :
      (effective_grace cfg ≤ℤ pos 0)
      ⊎ (effective_grace cfg ≤ℤ sub_time now (or_now p.missing_since now))

equals_iff : (o : Option Str) (s : Str) → (equals o s ≡ true) ↔ (o ≡ some s)
equals_iff none s = ground arith
equals_iff (some t) s = ground (arith, str_eq_iff t s)

missing_kind-confirm_removed :
    (cfg : Config) (consec : ℤ) (since now : ℕ)
    → (missing_kind cfg consec since now ≡ confirm_removed) ↔ (
        (min_consecutive cfg ≤ℤ consec)
        × ((effective_grace cfg ≤ℤ pos 0) ⊎ (effective_grace cfg ≤ℤ sub_time now since)))
unfolding missing_kind
missing_kind-confirm_removed cfg consec since now = ground arith

-- A removal is confirmed exactly if the resource was already missing in another snapshot, this
-- snapshot has not been counted before, it has now been missing often enough, and the effective grace
-- period is not positive or has passed.
pub missing_transition-confirm_removed :
    (p : PriorResource) (cfg : Config) (now : ℕ) (snapshot_id : Str)
    → ((missing_transition p cfg now snapshot_id).kind ≡ confirm_removed)
      ↔ IsConfirmable p cfg now snapshot_id
unfolding missing_transition
missing_transition-confirm_removed p cfg now snapshot_id =
    let kind_iff =
      missing_kind-confirm_removed cfg (inc_int32 p.consecutive_complete_missing)
        (or_now p.missing_since now) now in
    let first_iff = equals_iff p.missing_first_snapshot_id snapshot_id in
    let last_iff = equals_iff p.missing_last_snapshot_id snapshot_id in
    (ground (arith, kind_iff, first_iff, last_iff), ground (arith, kind_iff, first_iff, last_iff))

≤ℤ_antisym : (a b : ℤ) → a ≤ℤ b → b ≤ℤ a → a ≡ b
≤ℤ_antisym a b h k = ground arith

effective_grace-le :
    (cfg : Config)
    → (cfg.move_recognition_horizon ≤ℤ effective_grace cfg)
      × (cfg.removal_grace_period ≤ℤ effective_grace cfg)
unfolding effective_grace
effective_grace-le cfg = ground arith

-- Within the move-recognition horizon, its last instant left out, a resource is not confirmed removed,
-- whatever the grace period of the policy.
pub inside_horizon-ne-confirm_removed :
    (p : PriorResource) (cfg : Config) (now since : ℕ) (snapshot_id : Str)
    → p.missing_since ≡ some since
    → within_move_horizon p cfg now ≡ true
    → sub_time now since ≢ cfg.move_recognition_horizon
    → (missing_transition p cfg now snapshot_id).kind ≢ confirm_removed
unfolding within_move_horizon
inside_horizon-ne-confirm_removed p cfg now since snapshot_id e inside early removed = ground (
  arith,
  (missing_transition-confirm_removed p cfg now snapshot_id).0 removed,
  effective_grace-le cfg,
  ≤ℤ_antisym (sub_time now since) cfg.move_recognition_horizon,
)

effective_grace_at_horizon :
    (p : PriorResource) (cfg : Config) (now since : ℕ)
    → p.missing_since ≡ some since
    → cfg.removal_grace_period ≤ℤ cfg.move_recognition_horizon
    → sub_time now since ≡ cfg.move_recognition_horizon
    → effective_grace cfg ≤ℤ sub_time now (or_now p.missing_since now)
unfolding effective_grace
effective_grace_at_horizon p cfg now since e grace elapsed =
    rw (e, elapsed) (ground (arith, elapsed))

-- At the last instant of the horizon the two tests overlap. If the grace period is no longer than a
-- positive horizon, and the horizon has just elapsed since the resource went missing, then the
-- resource can still be recognized as moved, and a further snapshot that counts as confirmation often
-- enough confirms its removal.
pub horizon_end-confirm_removed :
    (p : PriorResource) (cfg : Config) (now since : ℕ) (snapshot_id : Str)
    → p.missing_since ≡ some since
    → pos 1 ≤ℤ cfg.move_recognition_horizon
    → cfg.removal_grace_period ≤ℤ cfg.move_recognition_horizon
    → sub_time now since ≡ cfg.move_recognition_horizon
    → is_filled p.missing_first_snapshot_id ≡ true
    → p.missing_first_snapshot_id ≢ some snapshot_id
    → p.missing_last_snapshot_id ≢ some snapshot_id
    → min_consecutive cfg ≤ℤ inc_int32 p.consecutive_complete_missing
    → (within_move_horizon p cfg now ≡ true)
      × ((missing_transition p cfg now snapshot_id).kind ≡ confirm_removed)
unfolding within_move_horizon
horizon_end-confirm_removed p cfg now since snapshot_id e positive grace elapsed filled first last
      often =
    (
      ground arith,
      (missing_transition-confirm_removed p cfg now snapshot_id).1 (record {
        seen_missing = filled;
        first_is_other = first;
        last_is_other = last;
        often = often;
        long_enough = inr (effective_grace_at_horizon p cfg now since e grace elapsed);
      }),
    )

-- The prior resource after the store has written a transition's evidence.
abbrev pub with_evidence_of : PriorResource → RemovalEvidenceState → Transition → ℕ → PriorResource
with_evidence_of p state t clock = record p {
  canonical = with_removal_evidence state t clock p.canonical;
}

-- The same evidence, field by field.
pub record SameEvidence (t u : Transition) : Type 0 where
  pub since : u.missing_since ≡ t.missing_since
  pub consecutive : u.consecutive_missing ≡ t.consecutive_missing
  pub first : u.missing_first_snapshot_id ≡ t.missing_first_snapshot_id
  pub last : u.missing_last_snapshot_id ≡ t.missing_last_snapshot_id

counted :
    (p : PriorResource) (cfg : Config) (now : ℕ) (snapshot_id : Str)
    → is_filled p.missing_first_snapshot_id ≡ true
    → (p.missing_first_snapshot_id ≡ some snapshot_id)
      ⊎ (p.missing_last_snapshot_id ≡ some snapshot_id)
    → let u = missing_transition p cfg now snapshot_id in
      (u.kind ≡ missing_evidence)
      × (u.missing_since ≡ p.missing_since)
      × (u.consecutive_missing ≡ p.consecutive_complete_missing)
      × (u.missing_first_snapshot_id ≡ p.missing_first_snapshot_id)
      × (u.missing_last_snapshot_id ≡ p.missing_last_snapshot_id)
unfolding missing_transition
counted p cfg now snapshot_id filled known = ground (
  arith,
  equals_iff p.missing_first_snapshot_id snapshot_id,
  equals_iff p.missing_last_snapshot_id snapshot_id,
)

counts :
    (p : PriorResource) (cfg : Config) (now : ℕ) (snapshot_id : Str)
    → is_filled (some snapshot_id) ≡ true
    → let t = missing_transition p cfg now snapshot_id in
      (is_filled t.missing_first_snapshot_id ≡ true)
      × ((t.missing_first_snapshot_id ≡ some snapshot_id)
          ⊎ (t.missing_last_snapshot_id ≡ some snapshot_id))
unfolding missing_transition
counts p cfg now snapshot_id filled = ground (
  arith,
  equals_iff p.missing_first_snapshot_id snapshot_id,
  equals_iff p.missing_last_snapshot_id snapshot_id,
)

-- One snapshot counts once: when the evidence of a snapshot that has an id has been stored,
-- reconciling the same snapshot again, at any time, only repeats that evidence and confirms nothing.
pub missing_transition_twice :
    (p : PriorResource) (cfg : Config) (now later clock : ℕ) (snapshot_id : Str)
    (state : RemovalEvidenceState)
    → is_filled (some snapshot_id) ≡ true
    → let t = missing_transition p cfg now snapshot_id in
      let u = missing_transition (with_evidence_of p state t clock) cfg later snapshot_id in
      (u.kind ≡ missing_evidence) × SameEvidence t u
missing_transition_twice p cfg now later clock snapshot_id state filled =
    let t = missing_transition p cfg now snapshot_id in
    let known = counts p cfg now snapshot_id filled in
    let again = counted (with_evidence_of p state t clock) cfg later snapshot_id known.0 known.1 in
    (again.0, record { since = again.1; consecutive = again.2; first = again.3; last = again.4 })
