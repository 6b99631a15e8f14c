-- ===== src/Store/Coordinator/Outcomes.antt =====
-- What a committed reconcile leaves of the canonical tables, by its outcome.
use index_core.Base.{
  ℕ, ◌+◌, ◌≡◌, refl, sym, ap, subst, ◌∙◌, Bool, true, false, ◌||◌, is_empty, some, List, [], ◌++◌,
  if◌then◌else◌, arith,
}
use mathlib.Core.List.{append-nil}
use index_core.Domain.Enums.{is_applied, is_reconciled}
use index_core.Domain.Records.{ResourceRoot, Snapshot}
use index_core.Kernel.Reconcile.Types.{Config, Result}
use index_core.Store.Commit.{
  Env, ReconcileInput, reject, stale_input, commit_noop, finish, record_result, apply_plan,
}
use index_core.Store.Commit.Effects.{
  mutated_by, bump, find_root-bump, numbered, commit_applied-done,
}
use index_core.Store.Coordinator.{reconcile_head_safe}
use index_core.Store.Coordinator.Ended.{
  Ended, EndedAt, Leads, evaluated_as, receipt, rejected, failed_verdict, fenced, superseded_by,
  without_effect, applied, reconcile_head_safe-Ended,
}
use index_core.Store.Plan.{PlannedEvent, plan_events}
use index_core.Store.Tables.{Database, done}
use index_core.Store.Tables.Commits.{Commits-done}
use index_core.Store.Tables.Rows.{
  find_root, find_snapshot, set_admission_status, set_snapshot_lifecycle_state, insert_result,
  next_event_seq, next_intra_generation_seq,
}
use index_core.Store.Terminal.{TxOutcome}

-- The inventory with its evidence, the generations, the journal, the history and the roots.
pub record SameCanonical (db later : Database) : Type 0 where
  pub resources : later.resources ≡ db.resources
  pub observations : later.observations ≡ db.observations
  pub generations : later.generations ≡ db.generations
  pub journal : later.journal ≡ db.journal
  pub history : later.applied_snapshots ≡ db.applied_snapshots
  pub roots : later.roots ≡ db.roots

untouched :
    {db later : Database}
    → later.resources ≡ db.resources
    → later.observations ≡ db.observations
    → later.generations ≡ db.generations
    → later.journal ≡ db.journal
    → later.applied_snapshots ≡ db.applied_snapshots
    → later.roots ≡ db.roots
    → SameCanonical db later
untouched a b c d e f = record {
  resources = a;
  observations = b;
  generations = c;
  journal = d;
  history = e;
  roots = f;
}

quiet_of : (b : Bool) → (b || true) ≡ true
quiet_of true = refl
quiet_of false = refl

-- The generation and the journal move together, by one generation and by events that are numbered on
-- from the last one of the root, or not at all.
pub record Advances (inp : ReconcileInput) (db later : Database) (out : TxOutcome) : Type 0 where
  pub root : ResourceRoot
  pub rooted : find_root inp.root_id db.roots ≡ some root
  pub started : out.generation ≡ root.current_generation
  pub reached :
      out.applied_generation
      ≡ (if out.mutated then root.current_generation + 1 else root.current_generation)
  pub later_root : ResourceRoot
  pub later_rooted : find_root inp.root_id later.roots ≡ some later_root
  pub current : later_root.current_generation ≡ out.applied_generation
  pub events : List PlannedEvent
  pub quiet : (out.mutated || is_empty events) ≡ true
  pub journal :
      later.journal
      ≡ db.journal
        ++ numbered inp.root_id
            (root.current_generation + 1)
            (next_event_seq inp.root_id db.journal)
            (next_intra_generation_seq inp.root_id (root.current_generation + 1) db.journal)
            events

module _ (env : Env) (inp : ReconcileInput) (root : ResourceRoot) (db : Database) where
  refused-SameCanonical :
      (r : Database × TxOutcome)
      → is_applied r.1.status ≡ false
      → Ended env inp root db r
      → SameCanonical db r.0
  unfolding reject stale_input commit_noop finish record_result insert_result
      set_snapshot_lifecycle_state set_admission_status
  refused-SameCanonical r plain (receipt rooted stored closed_state e) =
      untouched refl refl refl refl refl refl
  refused-SameCanonical r plain (rejected reason h) = untouched refl refl refl refl refl refl
  refused-SameCanonical r plain (failed_verdict reason eval h) =
      untouched refl refl refl refl refl refl
  refused-SameCanonical r plain (fenced h) = untouched refl refl refl refl refl refl
  refused-SameCanonical r plain (superseded_by eval h) = untouched refl refl refl refl refl refl
  refused-SameCanonical r plain (without_effect eval h ok e) =
      untouched refl refl refl refl refl refl
  refused-SameCanonical r plain (applied observed_at clock eval res h ok new ordered e) =
      let written =
        commit_applied-done env inp root.current_generation observed_at clock res eval.identity
          (evaluated_as inp eval db) e in
      let bad : ⊥ = ground (arith, plain, ap (λ x. x.1.status) written) in elim bad [ ]

  module _ (h : Leads inp root db) where
    still-Advances :
        (later : Database) (out : TxOutcome)
        → out.mutated ≡ false
        → out.generation ≡ root.current_generation
        → out.applied_generation ≡ root.current_generation
        → later.roots ≡ db.roots
        → later.journal ≡ db.journal
        → Advances inp db later out
    still-Advances later out still from to roots journal = record {
      root = root;
      rooted = h.rooted;
      started = from;
      reached = ground (arith, still, to);
      later_root = root;
      later_rooted = ap (find_root inp.root_id) roots ∙ h.rooted;
      current = sym to;
      events = [];
      quiet = quiet_of out.mutated;
      journal = journal ∙ sym (append-nil db.journal);
    }

    module _ (observed_at clock : ℕ) (res : Result) (before : Database)
        (roots : before.roots ≡ db.roots) (journal : before.journal ≡ db.journal) where
      abbrev current : ℕ
      current = root.current_generation

      abbrev gen_if : Bool → ℕ
      gen_if b = if b then current + 1 else current

      abbrev written_if : Bool → Database
      written_if b =
          if b
          then mutated_by env inp current observed_at clock res before
          else apply_plan inp observed_at current clock res before

      -- The part of `Advances` that the plan decides.
      record Grows (b : Bool) : Type 0 where
        later_root : ResourceRoot
        later_rooted : find_root inp.root_id (written_if b).roots ≡ some later_root
        reached : later_root.current_generation ≡ gen_if b
        events : List PlannedEvent
        quiet : (b || is_empty events) ≡ true
        appended :
            (written_if b).journal
            ≡ db.journal
              ++ numbered inp.root_id
                  (current + 1)
                  (next_event_seq inp.root_id db.journal)
                  (next_intra_generation_seq inp.root_id (current + 1) db.journal)
                  events

      grows : (b : Bool) → Grows b
      unfolding apply_plan
      grows true = record {
        later_root = bump clock root;
        later_rooted =
            find_root-bump inp.root_id clock before.roots root
              (ap (find_root inp.root_id) roots ∙ h.rooted);
        reached = refl;
        events = plan_events env.marshal res.transitions;
        quiet = refl;
        appended = rw journal;
      }
      grows false = record {
        later_root = root;
        later_rooted = ap (find_root inp.root_id) roots ∙ h.rooted;
        reached = refl;
        events = [];
        quiet = refl;
        appended = journal ∙ sym (append-nil db.journal);
      }

  Ended-Advances :
      (snap : Snapshot) (r : Database × TxOutcome)
      → find_snapshot inp.snapshot_id db.snapshots ≡ some snap
      → is_reconciled snap.lifecycle_state ≡ false
      → Ended env inp root db r
      → Advances inp db r.0 r.1
  unfolding reject stale_input commit_noop finish record_result insert_result
      set_snapshot_lifecycle_state set_admission_status
  Ended-Advances snap r stored open_ (receipt {snap = other} rooted found closed_state e) =
      let same : snap ≡ other = ground (arith, stored, found) in
      let bad : ⊥ = ground (arith, same, open_, closed_state) in elim bad [ ]
  Ended-Advances snap r stored open_ (rejected reason h) =
      still-Advances h r.0 r.1 refl refl refl refl refl
  Ended-Advances snap r stored open_ (failed_verdict reason eval h) =
      still-Advances h r.0 r.1 refl refl refl refl refl
  Ended-Advances snap r stored open_ (fenced h) = still-Advances h r.0 r.1 refl refl refl refl refl
  Ended-Advances snap r stored open_ (superseded_by eval h) =
      still-Advances h r.0 r.1 refl refl refl refl refl
  Ended-Advances snap r stored open_ (without_effect eval h ok e) =
      still-Advances h r.0 r.1 refl refl refl refl refl
  Ended-Advances snap r stored open_ (applied observed_at clock eval res h ok new ordered e) =
      let before = evaluated_as inp eval db in
      let written =
        commit_applied-done env inp root.current_generation observed_at clock res eval.identity
          before e in
      let g = grows h observed_at clock res before refl refl res.mutates_canonical in
      subst (λ x. Advances inp db x.0 x.1) (sym written)
        (record {
          root = root;
          rooted = h.rooted;
          started = refl;
          reached = refl;
          later_root = g.later_root;
          later_rooted = g.later_rooted;
          current = g.reached;
          events = g.events;
          quiet = g.quiet;
          journal = g.appended;
        })

module _ (env : Env) (inp : ReconcileInput) (cfg : Config) (clock : ℕ) (db : Database)
    {r : Database × TxOutcome} (run : reconcile_head_safe env inp cfg clock db ≡ done r) where
  -- A reconcile that commits anything but APPLIED leaves the inventory, its evidence, the generations,
  -- the journal, the application history and the roots as they are.
  pub reconcile_head_safe-SameCanonical : is_applied r.1.status ≡ false → SameCanonical db r.0
  reconcile_head_safe-SameCanonical plain =
      let (root, ended) =
        Commits-done (EndedAt env inp db) _ r run
          (reconcile_head_safe-Ended env inp cfg clock db) in
      refused-SameCanonical env inp root db r plain ended

  -- A reconcile of a snapshot that is not RECONCILED yet, if it commits, starts from the root's current
  -- generation and ends at the next one exactly if its outcome says that it mutated; the root is then
  -- at that generation, and the journal is the old one followed by events numbered on from its end,
  -- of which there are none unless it mutated.
  pub reconcile_head_safe-Advances :
      (snap : Snapshot)
      → find_snapshot inp.snapshot_id db.snapshots ≡ some snap
      → is_reconciled snap.lifecycle_state ≡ false
      → Advances inp db r.0 r.1
  reconcile_head_safe-Advances snap stored open_ =
      let (root, ended) =
        Commits-done (EndedAt env inp db) _ r run
          (reconcile_head_safe-Ended env inp cfg clock db) in
      Ended-Advances env inp root db snap r stored open_ ended
