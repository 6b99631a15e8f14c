-- ===== src/Store/Fifo/Arrivals.antt =====
-- An admission joins the queue of its root at the back, with a number above all that were given out.
use index_core.Base.{
  Str, str_eq, str_eq_iff, str_eq_refl, ℕ, ◌+◌, ◌≤◌, ◌<◌, ◌≡◌, sym, subst, inl, inr, true, false,
  none, some, List, [], ◌∷◌, ◌++◌, All, All-append, All-map, if◌then◌else◌, arith, Option-cases,
  Bool-cases,
}
use index_core.Domain.Enums.{AdmissionStatus}
use index_core.Domain.Records.{ResourceRoot, Admission}
use index_core.Store.Fifo.{queue_of, AtMost, IsFifo}
use index_core.Store.Fifo.Rows.{
  queue-below, queue-snoc, queue-snoc_other, Ascends-snoc, Ascends-snoc_other,
}
use index_core.Store.Tables.{Database, done}
use index_core.Store.Tables.Rows.{find_root, update_root, allocate_admission, of_root}

abbrev pub counted_to : ℕ → ℕ → ResourceRoot → ResourceRoot
counted_to seq clock r = record r { latest_admission_seq = seq; updated_at = clock }

abbrev pub new_row : Str → ℕ → Str → Admission
new_row root_id seq snapshot_id = record {
  root_id = root_id;
  admission_seq = seq;
  snapshot_id = snapshot_id;
  status = AdmissionStatus.pending;
  applied_generation = none;
}

abbrev pub admitted_to : Str → Str → ℕ → ResourceRoot → Database → Database
admitted_to root_id snapshot_id clock root db =
    let seq = root.latest_admission_seq + 1 in
    record db {
      roots = update_root (counted_to seq clock) root_id db.roots;
      admissions = db.admissions ++ new_row root_id seq snapshot_id ∷ [];
    }

-- What an allocation commits.
pub allocate_admission-done :
    (root_id snapshot_id : Str) (clock : ℕ) (db : Database) {r : Database × ℕ}
    → allocate_admission root_id snapshot_id clock db ≡ done r
    → (root : ResourceRoot) × (find_root root_id db.roots ≡ some root)
      × (r ≡ (admitted_to root_id snapshot_id clock root db, root.latest_admission_seq + 1))
unfolding allocate_admission
allocate_admission-done root_id snapshot_id clock db e =
    elim (Option-cases (find_root root_id db.roots)) [
      | inl gone ↦ let no : ⊥ = ground (arith, e, gone) in elim no [ ]
      | inr (root, found) ↦ (root, found, ground (arith, e, found))
    ]

str_eq_flip : (s t : Str) → str_eq s t ≡ false → str_eq t s ≡ false
str_eq_flip s t h = elim (Bool-cases (str_eq t s)) [
  | inl e ↦ let no : ⊥ = ground (arith, h, (str_eq_iff t s).0 e, str_eq_refl s) in elim no [ ]
  | inr e ↦ e
]

-- The counter of the root becomes the new number, and no other counter moves.
counted_roots :
    (root_id other : Str) (seq clock : ℕ) (rows : List ResourceRoot) (root : ResourceRoot)
    → find_root root_id rows ≡ some root
    → (later : ResourceRoot) × (find_root root_id (update_root (counted_to seq clock) other rows)
        ≡ some later)
      × (later.latest_admission_seq
          ≡ (if str_eq root_id other then seq else root.latest_admission_seq))
unfolding find_root update_root
counted_roots root_id other seq clock [] root e = ground (arith, e)
counted_roots root_id other seq clock (r ∷ rows) root e =
    elim (Bool-cases (str_eq r.root_id root_id)) [
      | inl here ↦
          let same : r ≡ root = ground (arith, e, here) in
          let named : r.root_id ≡ root_id = (str_eq_iff r.root_id root_id).0 here in
          (
            if str_eq r.root_id other then counted_to seq clock r else r,
            ground (arith, here),
            ground (arith, same, named),
          )
      | inr past ↦
          let (later, found, counter) =
            counted_roots root_id other seq clock rows root (ground (arith, e, past)) in
          (later, ground (arith, past, found), counter)
    ]

module _ (root_id snapshot_id : Str) (clock : ℕ) (root : ResourceRoot) (db : Database)
    (rooted : find_root root_id db.roots ≡ some root) where
  abbrev seq : ℕ
  seq = root.latest_admission_seq + 1

  own-IsFifo : IsFifo root_id db → IsFifo root_id (admitted_to root_id snapshot_id clock root db)
  own-IsFifo s =
      let same : s.root ≡ root = ground (arith, s.rooted, rooted) in
      let (later, found, counter) = counted_roots root_id root_id seq clock db.roots root rooted in
      let counted =
        subst (λ x. AtMost root_id x.latest_admission_seq db.admissions) same s.counted in
      let top : later.latest_admission_seq ≡ seq = ground (arith, counter, str_eq_refl root_id) in
      let below : All (λ a. of_root root_id a ≡ true → a.admission_seq < seq) db.admissions =
        All-map (λ a h e. omega (arith, h e)) db.admissions counted in
      record {
        root = later;
        rooted = found;
        ascending =
            Ascends-snoc root_id db.admissions (new_row root_id seq snapshot_id) 0 s.ascending below
              (omega arith);
        counted =
            All-append
              (λ a. of_root root_id a ≡ true → a.admission_seq ≤ later.latest_admission_seq)
              db.admissions _ (All-map (λ a h e. omega (arith, h e, top)) db.admissions counted)
              (λ e. omega (arith, top), tt);
      }

  other-IsFifo :
      (other : Str)
      → str_eq other root_id ≡ false
      → IsFifo other db
      → IsFifo other (admitted_to root_id snapshot_id clock root db)
  other-IsFifo other apart s =
      let (later, found, counter) =
        counted_roots other root_id seq clock db.roots s.root s.rooted in
      let top : later.latest_admission_seq ≡ s.root.latest_admission_seq =
        ground (arith, counter, apart) in
      let theirs : of_root other (new_row root_id seq snapshot_id) ≡ false =
        str_eq_flip other root_id apart in
      record {
        root = later;
        rooted = found;
        ascending =
            Ascends-snoc_other other db.admissions (new_row root_id seq snapshot_id) 0 theirs
              s.ascending;
        counted =
            All-append (λ a. of_root other a ≡ true → a.admission_seq ≤ later.latest_admission_seq)
              db.admissions _ (All-map (λ a h e. omega (arith, h e, top)) db.admissions s.counted)
              (λ e. ground (arith, e, theirs), tt);
      }

  pub admitted_to-IsFifo :
      (other : Str) → IsFifo other db → IsFifo other (admitted_to root_id snapshot_id clock root db)
  admitted_to-IsFifo other s = elim (Bool-cases (str_eq other root_id)) [
    | inl same ↦
        let named = (str_eq_iff other root_id).0 same in
        subst (λ r. IsFifo r (admitted_to root_id snapshot_id clock root db)) (sym named)
          (own-IsFifo (subst (λ r. IsFifo r db) named s))
    | inr apart ↦ other-IsFifo other apart s
  ]

  pub admitted_to-queue :
      queue_of root_id (admitted_to root_id snapshot_id clock root db).admissions
      ≡ queue_of root_id db.admissions ++ (seq, snapshot_id) ∷ []
  admitted_to-queue =
      queue-snoc root_id db.admissions (new_row root_id seq snapshot_id)
        (ground (arith, str_eq_refl root_id))

  pub admitted_to-other :
      (other : Str)
      → str_eq other root_id ≡ false
      → queue_of other (admitted_to root_id snapshot_id clock root db).admissions
        ≡ queue_of other db.admissions
  admitted_to-other other apart =
      queue-snoc_other other db.admissions (new_row root_id seq snapshot_id)
        (str_eq_flip other root_id apart)

  pub admitted_to-last : IsFifo root_id db → All (λ t. t.0 < seq) (queue_of root_id db.admissions)
  admitted_to-last s =
      let same : s.root ≡ root = ground (arith, s.rooted, rooted) in
      let counted =
        subst (λ x. AtMost root_id x.latest_admission_seq db.admissions) same s.counted in
      queue-below root_id db.admissions seq
        (All-map (λ a h e. omega (arith, h e)) db.admissions counted)
