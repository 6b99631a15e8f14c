-- ===== src/Store/Fifo/Refinement.antt =====
-- The admission table implements a queue: the steps of Fifo/Steps are moves of the abstract queue.
use index_core.Base.{
  Str, str_eq, str_eq_iff, ℕ, ◌+◌, ◌≡◌, refl, sym, ap, subst, ◌⊎◌, inl, inr, ◌∷◌, arith, Bool-cases,
  Option-cases,
}
use index_core.Domain.Enums.{RootLifecycleState}
use index_core.Domain.Records.{ResourceRoot}
use index_core.Store.Coordinator.{reconcile_head_safe}
use index_core.Kernel.Reconcile.Types.{Config}
use index_core.Store.Commit.{Env, ReconcileInput}
use index_core.Store.Fifo.Moves.{
  Moves, stays, departs, Refines, Refines-kept, Refines-same, allocate-Refines,
}
use index_core.Store.Fifo.Requests.{
  submit-Refines, admit-allocates, create_draft-Refines, resumed-Refines,
}
use index_core.Store.Fifo.{queue_of, IsFifo}
use index_core.Store.Fifo.Departures.{
  Answered, KeepsCounter, update_root-KeepsCounter, reconcile_head_safe-dequeues,
  reconcile_head_safe-IsFifo, reconcile_head_safe-other,
}
use index_core.Store.Fifo.Heads
use index_core.Store.Fifo.Steps.{
  Step, create_draft, submit, admit, resumed, reconcile_head, reconcile_evaluated_head, change_root,
  Steps, started, taken,
}
use index_core.Store.RootAdmin.{
  RootLifecycleResult, same_state, append_lifecycle_event, transition_root_lifecycle,
  change_lifecycle,
}
use index_core.Store.Tables.{Database, done}
use index_core.Store.Terminal.{TxOutcome}
use index_core.Store.Tables.Rows.{find_root, update_root, insert_generation, append_journal_event}

abbrev entering : RootLifecycleState → ℕ → ℕ → ResourceRoot → ResourceRoot
entering next gen clock r = record r {
  lifecycle_state = next;
  current_generation = gen;
  updated_at = clock;
}

module _ (marshal : RootLifecycleState → Str) (root_id : Str) (next : RootLifecycleState)
    (clock : ℕ) (db : Database) {r : Database × RootLifecycleResult} where
  change_lifecycle-writes :
      (root : ResourceRoot)
      → change_lifecycle marshal root_id next root clock db ≡ done r
      → (r.0.admissions ≡ db.admissions)
        × (r.0.roots
            ≡ update_root (entering next (root.current_generation + 1) clock) root_id db.roots)
  unfolding change_lifecycle insert_generation append_lifecycle_event append_journal_event
  change_lifecycle-writes root e = ground (arith, e)

  change_root-Refines :
      (other : Str)
      → IsFifo other db
      → transition_root_lifecycle marshal root_id next clock db ≡ done r
      → Refines other db r.0
  unfolding transition_root_lifecycle
  change_root-Refines other s e = elim (Option-cases (find_root root_id db.roots)) [
    | inl gone ↦ let no : ⊥ = ground (arith, e, gone) in elim no [ ]
    | inr (root, found) ↦ elim (Bool-cases (same_state root.lifecycle_state next)) [
      | inl same ↦
          let kept : db ≡ r.0 = ground (arith, e, found, same) in
          Refines-same other db r.0 (ap (λ x. x.admissions) (sym kept))
            (ap (λ x. x.roots) (sym kept)) s
      | inr new ↦
          let (rows, roots) = change_lifecycle-writes root (ground (arith, e, found, new)) in
          Refines-kept other db r.0 rows
            (subst (KeepsCounter other db.roots) (sym roots) (
              update_root-KeepsCounter (entering next (root.current_generation + 1) clock)
                (λ x. refl) (λ x. refl) other root_id db.roots))
            s
    ]
  ]

reconcile_head-Refines :
    (env : Env) (inp : ReconcileInput) (cfg : Config) (clock : ℕ) (db : Database)
    {r : Database × TxOutcome}
    → reconcile_head_safe env inp cfg clock db ≡ done r
    → (root_id : Str) → IsFifo root_id db
    → Refines root_id db r.0
reconcile_head-Refines env inp cfg clock db {r} e root_id s = (
  elim (Bool-cases (str_eq root_id inp.root_id)) [
    | inl same ↦
        let named = (str_eq_iff root_id inp.root_id).0 same in
        subst (λ o. Moves (queue_of o db.admissions) (queue_of o r.0.admissions)) (sym named)
          (dequeue-Moves (
            reconcile_head_safe-dequeues env inp cfg clock db e (subst (λ o. IsFifo o db) named s)))
    | inr apart ↦
        subst (Moves (queue_of root_id db.admissions))
          (sym (reconcile_head_safe-other env inp cfg clock db e root_id apart)) (stays _)
  ],
  reconcile_head_safe-IsFifo env inp cfg clock db e root_id s,
)
  where
    dequeue-Moves :
        ((r.0 ≡ db) × Answered inp db r.1)
          ⊎ ((queue_of inp.root_id db.admissions
                ≡ (inp.admission_seq, inp.snapshot_id) ∷ queue_of inp.root_id r.0.admissions)
              × IsFifo inp.root_id r.0)
        → Moves (queue_of inp.root_id db.admissions) (queue_of inp.root_id r.0.admissions)
    dequeue-Moves (inl (same, answered)) =
        subst (λ x. Moves (queue_of inp.root_id db.admissions) (queue_of inp.root_id x.admissions))
          (sym same) (stays _)
    dequeue-Moves (inr (front, kept)) =
        subst (λ q. Moves q (queue_of inp.root_id r.0.admissions)) (sym front) (departs _ _)

-- Every draft, admission, reconcile of a head by the coordinator or by ReconcileHead, and change of a
-- root's lifecycle that commits is, for the queue of each root whose admissions are in order, no move,
-- an arrival at the back under a number above all that wait, or the departure of the front; and it
-- keeps the admissions of the root in order.
pub Step-Refines :
    (env : Env) (marshal : RootLifecycleState → Str) (root_id : Str) {db later : Database}
    → IsFifo root_id db
    → Step env marshal db later
    → Moves (queue_of root_id db.admissions) (queue_of root_id later.admissions)
      × IsFifo root_id later
Step-Refines env marshal root_id s (create_draft snap entries e) =
    create_draft-Refines root_id snap entries _ s e
Step-Refines env marshal root_id s (submit other id clock e) =
    submit-Refines env other root_id id clock _ s e
Step-Refines env marshal root_id s (admit other id clock e) =
    allocate-Refines other root_id id clock _ (admit-allocates env other root_id id clock _ s e) s
Step-Refines env marshal root_id s (resumed handoff other id clock e) =
    resumed-Refines env other root_id id clock _ s handoff e
Step-Refines env marshal root_id s (reconcile_head inp cfg clock e) =
    reconcile_head-Refines env inp cfg clock _ e root_id s
Step-Refines env marshal root_id s
      (reconcile_evaluated_head compute inp identity expected clock e) =
    Heads.reconcile_head-Refines env compute inp identity expected clock _ e root_id s
Step-Refines env marshal root_id s (change_root other next clock e) =
    change_root-Refines marshal other next clock _ root_id s e

-- The same of any number of these transactions: the admissions of a root stay in order.
pub Steps-IsFifo :
    (env : Env) (marshal : RootLifecycleState → Str) (root_id : Str) {start later : Database}
    → IsFifo root_id start
    → Steps env marshal start later
    → IsFifo root_id later
Steps-IsFifo env marshal root_id s started = s
Steps-IsFifo env marshal root_id s (taken before step) =
    (Step-Refines env marshal root_id (Steps-IsFifo env marshal root_id s before) step).1
