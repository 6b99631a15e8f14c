-- ===== src/Store/Fifo/Moves.antt =====
-- The abstract queue, and the tables' part in it that every transaction shares.
use index_core.Base.{
  Str, str_eq, str_eq_iff, ℕ, ◌<◌, ◌≡◌, refl, sym, ap, subst, ◌∙◌, inl, inr, [], ◌∷◌, ◌++◌, All,
  Bool-cases,
}
use index_core.Store.Fifo.{Queue, queue_of, IsFifo, Ascends, AtMost}
use index_core.Store.Fifo.Arrivals.{
  admitted_to, allocate_admission-done, admitted_to-IsFifo, admitted_to-queue, admitted_to-other,
  admitted_to-last,
}
use index_core.Store.Fifo.Departures.{KeepsCounter}
use index_core.Store.Tables.{Database, done}
use index_core.Store.Tables.Rows.{find_root, allocate_admission}

-- The specification: nothing, an arrival at the back with the largest number, or the front leaves.
pub data Moves : Queue → Queue → Type 0 where
  stays : (q : Queue) → Moves q q
  arrives : (q : Queue) (n : ℕ) (id : Str) → All (λ t. t.0 < n) q → Moves q (q ++ (n, id) ∷ [])
  departs : (t : ℕ × Str) (q : Queue) → Moves (t ∷ q) q

-- A transaction keeps the order of a root's admissions and moves its queue.
abbrev pub Refines : Str → Database → Database → Type 0
Refines root_id db later =
    Moves (queue_of root_id db.admissions) (queue_of root_id later.admissions)
    × IsFifo root_id later

-- A transaction that leaves the admissions and the counters alone.
pub Refines-kept :
    (root_id : Str) (db later : Database)
    → later.admissions ≡ db.admissions
    → KeepsCounter root_id db.roots later.roots
    → IsFifo root_id db
    → Refines root_id db later
Refines-kept root_id db later rows roots s =
    let (root, rooted, counter) = roots s.root s.rooted in
    (
      subst (λ x. Moves (queue_of root_id db.admissions) (queue_of root_id x)) (sym rows) (stays _),
      record {
        root = root;
        rooted = rooted;
        ascending = subst (Ascends root_id 0) (sym rows) s.ascending;
        counted =
            subst (λ n. AtMost root_id n later.admissions) (sym counter)
              (subst (AtMost root_id s.root.latest_admission_seq) (sym rows) s.counted);
      },
    )

pub Refines-same :
    (root_id : Str) (db later : Database)
    → later.admissions ≡ db.admissions
    → later.roots ≡ db.roots
    → IsFifo root_id db
    → Refines root_id db later
Refines-same root_id db later rows roots =
    Refines-kept root_id db later rows (λ root e. (root, ap (find_root root_id) roots ∙ e, refl))

pub allocate-Refines :
    (root_id other snapshot_id : Str) (clock : ℕ) (db : Database) {r : Database × ℕ}
    → allocate_admission root_id snapshot_id clock db ≡ done r
    → IsFifo other db
    → Refines other db r.0
allocate-Refines root_id other snapshot_id clock db e s =
    let (root, rooted, written) = allocate_admission-done root_id snapshot_id clock db e in
    subst (Refines other db) (sym (ap (λ x. x.0) written)) (
      elim (Bool-cases (str_eq other root_id)) [
        | inl same ↦
            let named = (str_eq_iff other root_id).0 same in
            let own = subst (λ o. IsFifo o db) named s in
            subst
              (λ o.
                Moves (queue_of o db.admissions)
                  (queue_of o (admitted_to root_id snapshot_id clock root db).admissions))
              (sym named)
              (subst (Moves (queue_of root_id db.admissions))
                (sym (admitted_to-queue root_id snapshot_id clock root db rooted))
                (arrives _ _ snapshot_id
                  (admitted_to-last root_id snapshot_id clock root db rooted own)))
        | inr apart ↦
            subst (Moves (queue_of other db.admissions))
              (sym (admitted_to-other root_id snapshot_id clock root db rooted other apart))
              (stays _)
      ],
      admitted_to-IsFifo root_id snapshot_id clock root db rooted other s,
    )
