-- ===== src/Store/Fifo/Rows.antt =====
-- The rows of the admission table as a queue: its front, an arrival, and a departure.
use index_core.Base.{
  ◌≢◌, Str, str_eq, ℕ, ◌≤◌, ◌<◌, ◌==◌, ◌≡◌, refl, ap, ◌∙◌, Bool, true, false, ◌&&◌, not, Option,
  none, some, List, [], ◌∷◌, ◌++◌, select, All, All-map, if◌then◌else◌, arith, Bool-cases, subst,
  sym, inl, inr, str_eq_iff, str_eq_refl,
}
use index_core.Domain.Enums.{AdmissionStatus, is_pending}
use index_core.Domain.Records.{Admission}
use index_core.Store.Fifo.{Queue, ticket, queue_of, front, Ascends, AtMost}
use index_core.Store.Tables.Aggregates.{min_of, sooner}
use index_core.Store.Tables.Rows.{
  head_seq, find_admission, set_status, pending_of, of_root, admission_at,
}

abbrev pub Above : ℕ → Queue → Type 0
Above n = All λ t. n < t.0

Above-weaken : (m n : ℕ) (q : Queue) → m < n → Above n q → Above m q
Above-weaken m n q lt = All-map (λ t h. omega (arith, h, lt)) q

-- The queue without the tickets of a number.
abbrev pub without : ℕ → Queue → Queue
without seq [] = []
without seq (t ∷ q) = if t.0 == seq then without seq q else t ∷ without seq q

pub without-Above : (seq : ℕ) (q : Queue) → Above seq q → without seq q ≡ q
without-Above seq [] h = refl
without-Above seq (t ∷ q) h = ground (arith, h.0, without-Above seq q h.1)

-- The row of the front's number is the front's.
abbrev pub Fronts : ℕ → Admission → Queue → Type 0
Fronts seq row [] = ⊥
Fronts seq row (t ∷ q) = (t ≡ (seq, row.snapshot_id)) × Above seq q

and_left : (a b : Bool) → (a && b) ≡ true → a ≡ true
and_left true b h = refl
and_left false b h = h

some_not_none : {n : ℕ} → some n ≢ none
some_not_none e = ground (arith, e)

sooner-front : (q : Queue) (o : Option ℕ) {m : ℕ} → o ≡ front q → Above m q → sooner o m ≡ m
sooner-front [] o e h = ground (arith, e)
sooner-front (t ∷ q) o e h = ground (arith, e, h.0)

module _ (root_id : Str) where
  module _ (a : Admission) (rows : List Admission) where
    queue-pending :
        pending_of root_id a ≡ true → queue_of root_id (a ∷ rows) ≡ ticket a ∷ queue_of root_id rows
    unfolding queue_of select
    queue-pending e = rw e

    queue-other : pending_of root_id a ≡ false → queue_of root_id (a ∷ rows) ≡ queue_of root_id rows
    unfolding queue_of select
    queue-other e = rw e

    module _ {n : ℕ} (h : Ascends root_id n (a ∷ rows)) where
      Ascends-here : of_root root_id a ≡ true → Ascends root_id a.admission_seq rows
      Ascends-here e = subst (λ b. Ascends root_id (if b then a.admission_seq else n) rows) e h.1

      Ascends-past : of_root root_id a ≡ false → Ascends root_id n rows
      Ascends-past e = subst (λ b. Ascends root_id (if b then a.admission_seq else n) rows) e h.1

  Ascends-lower :
      (rows : List Admission) (m n : ℕ) → m ≤ n → Ascends root_id n rows → Ascends root_id m rows
  Ascends-lower [] m n le h = tt
  Ascends-lower (a ∷ rows) m n le h = (
    λ e. omega (arith, h.0 e, le),
    elim (of_root root_id a)
          as (λ b.
            Ascends root_id (if b then a.admission_seq else n) rows
            → Ascends root_id (if b then a.admission_seq else m) rows) [
              | true ↦ λ k. k
              | false ↦ Ascends-lower rows m n le
            ]
        h.1,
  )

  Ascends-tail :
      (a : Admission) (rows : List Admission) (n : ℕ)
      → Ascends root_id n (a ∷ rows)
      → Ascends root_id n rows
  Ascends-tail a rows n h = elim (Bool-cases (of_root root_id a)) [
    | inl e ↦ Ascends-lower rows n a.admission_seq (omega (arith, h.0 e)) (Ascends-here a rows h e)
    | inr e ↦ Ascends-past a rows h e
  ]

  pub queue-Above :
      (rows : List Admission) (n : ℕ) → Ascends root_id n rows → Above n (queue_of root_id rows)
  unfolding queue_of select
  queue-Above [] n h = tt
  queue-Above (a ∷ rows) n h =
      let rest = queue-Above rows n (Ascends-tail a rows n h) in
      elim (Bool-cases (pending_of root_id a)) [
        | inl e ↦ subst (Above n) (sym (queue-pending a rows e)) (h.0 (and_left _ _ e), rest)
        | inr e ↦ subst (Above n) (sym (queue-other a rows e)) rest
      ]

  pub queue-below :
      (rows : List Admission) (n : ℕ)
      → All (λ a. of_root root_id a ≡ true → a.admission_seq < n) rows
      → All (λ t. t.0 < n) (queue_of root_id rows)
  unfolding queue_of select
  queue-below [] n h = tt
  queue-below (a ∷ rows) n h =
      let rest = queue-below rows n h.1 in
      elim (Bool-cases (pending_of root_id a)) [
        | inl e ↦
            subst (All (λ t. t.0 < n)) (sym (queue-pending a rows e)) (h.0 (and_left _ _ e), rest)
        | inr e ↦ subst (All (λ t. t.0 < n)) (sym (queue-other a rows e)) rest
      ]

  queue-none : none ≡ front (queue_of root_id [])
  unfolding queue_of select
  queue-none = refl

  pub head_seq-front :
      (rows : List Admission) (n : ℕ)
      → Ascends root_id n rows
      → head_seq root_id rows ≡ front (queue_of root_id rows)
  unfolding head_seq min_of
  head_seq-front [] n h = queue-none
  head_seq-front (a ∷ rows) n h =
      let rest = head_seq-front rows n (Ascends-tail a rows n h) in
      elim (Bool-cases (pending_of root_id a)) [
        | inl e ↦
            let later = queue-Above rows a.admission_seq (Ascends-here a rows h (and_left _ _ e)) in
            let soon = sooner-front (queue_of root_id rows) (head_seq root_id rows) rest later in
            ground (arith, queue-pending a rows e, e, soon)
        | inr e ↦ ground (arith, queue-other a rows e, e, rest)
      ]

  pub queue-set_status :
      (rows : List Admission) (seq : ℕ) (status : AdmissionStatus) (gen : Option ℕ)
      → is_pending status ≡ false
      → queue_of root_id (set_status root_id seq status gen rows)
        ≡ without seq (queue_of root_id rows)
  unfolding queue_of select set_status
  queue-set_status [] seq status gen h = refl
  queue-set_status (a ∷ rows) seq status gen h =
      let done_row : Admission = record a { status = status; applied_generation = gen } in
      let new : Admission = if admission_at root_id seq a then done_row else a in
      let rest = queue-set_status rows seq status gen h in
      let later = set_status root_id seq status gen rows in
      let open_ : pending_of root_id new ≡ (pending_of root_id a && not (a.admission_seq == seq)) =
        ground (arith, h) in
      let same : ticket new ≡ ticket a = ground arith in
      elim (Bool-cases (pending_of root_id a)) [
        | inl e ↦ elim (Bool-cases (a.admission_seq == seq)) [
          | inl k ↦
              queue-other new later (open_ ∙ rw (e, k)) ∙ rest ∙ rw (queue-pending a rows e, k)
          | inr k ↦
              queue-pending new later (open_ ∙ rw (e, k))
              ∙ rw (same, rest, queue-pending a rows e, k)
        ]
        | inr e ↦ queue-other new later (open_ ∙ rw e) ∙ rest ∙ rw (queue-other a rows e)
      ]

  pub queue-snoc :
      (rows : List Admission) (a : Admission)
      → pending_of root_id a ≡ true
      → queue_of root_id (rows ++ a ∷ []) ≡ queue_of root_id rows ++ ticket a ∷ []
  unfolding queue_of select
  queue-snoc [] a h = ground (arith, h)
  queue-snoc (b ∷ rows) a h = ground (arith, queue-snoc rows a h)

  pub Ascends-snoc :
      (rows : List Admission) (a : Admission) (n : ℕ)
      → Ascends root_id n rows
      → All (λ b. of_root root_id b ≡ true → b.admission_seq < a.admission_seq) rows
      → n < a.admission_seq
      → Ascends root_id n (rows ++ a ∷ [])
  Ascends-snoc [] a n h m lt = (λ e. lt, tt)
  Ascends-snoc (b ∷ rows) a n h m lt = (h.0, Ascends-snoc rows a _ h.1 m.1 (ground (arith, m.0)))

  pub Ascends-snoc_other :
      (rows : List Admission) (a : Admission) (n : ℕ)
      → of_root root_id a ≡ false
      → Ascends root_id n rows
      → Ascends root_id n (rows ++ a ∷ [])
  Ascends-snoc_other [] a n e h = (λ t. ground (arith, e, t), tt)
  Ascends-snoc_other (b ∷ rows) a n e h = (h.0, Ascends-snoc_other rows a _ e h.1)

  pub Ascends-set_status :
      (rows : List Admission) (n : ℕ) (other : Str) (seq : ℕ) (status : AdmissionStatus)
      (gen : Option ℕ)
      → Ascends root_id n rows
      → Ascends root_id n (set_status other seq status gen rows)
  unfolding set_status
  Ascends-set_status [] n other seq status gen h = tt
  Ascends-set_status (a ∷ rows) n other seq status gen h =
      let rest = Ascends-set_status rows _ other seq status gen h.1 in
      elim (admission_at other seq a)
        as (λ b. Ascends root_id n (
          (if b then record a { status = status; applied_generation = gen } else a)
          ∷ set_status other seq status gen rows)) [ true ↦ (h.0, rest) | false ↦ (h.0, rest) ]

  pub AtMost-set_status :
      (rows : List Admission) (n : ℕ) (other : Str) (seq : ℕ) (status : AdmissionStatus)
      (gen : Option ℕ)
      → AtMost root_id n rows
      → AtMost root_id n (set_status other seq status gen rows)
  unfolding set_status
  AtMost-set_status [] n other seq status gen h = tt
  AtMost-set_status (a ∷ rows) n other seq status gen h =
      let rest = AtMost-set_status rows n other seq status gen h.1 in
      elim (admission_at other seq a)
        as (λ b. AtMost root_id n (
          (if b then record a { status = status; applied_generation = gen } else a)
          ∷ set_status other seq status gen rows)) [ true ↦ (h.0, rest) | false ↦ (h.0, rest) ]

  not_ours :
      (a : Admission) (other : Str) (seq : ℕ)
      → str_eq root_id other ≡ false
      → admission_at other seq a ≡ true
      → of_root root_id a ≡ false
  not_ours a other seq h e = elim (Bool-cases (of_root root_id a)) [
    | inl r ↦ ground (
      arith,
      h,
      e,
      r,
      str_eq_iff a.root_id other,
      str_eq_iff a.root_id root_id,
      str_eq_refl other,
    )
    | inr r ↦ r
  ]

  pub queue-set_status_other :
      (rows : List Admission) (other : Str) (seq : ℕ) (status : AdmissionStatus) (gen : Option ℕ)
      → str_eq root_id other ≡ false
      → queue_of root_id (set_status other seq status gen rows) ≡ queue_of root_id rows
  unfolding set_status
  queue-set_status_other [] other seq status gen h = refl
  queue-set_status_other (a ∷ rows) other seq status gen h =
      let new : Admission =
        if admission_at other seq a
        then record a { status = status; applied_generation = gen }
        else a in
      let rest = queue-set_status_other rows other seq status gen h in
      let later = set_status other seq status gen rows in
      let theirs = not_ours a other seq h in
      let open_ : pending_of root_id new ≡ pending_of root_id a = ground (arith, theirs) in
      let same : ticket new ≡ ticket a = ground arith in
      elim (Bool-cases (pending_of root_id a)) [
        | inl e ↦ queue-pending new later (open_ ∙ e) ∙ rw (same, rest, queue-pending a rows e)
        | inr e ↦ queue-other new later (open_ ∙ e) ∙ rest ∙ sym (queue-other a rows e)
      ]

  -- An admission of another root is not in the queue.
  pub queue-snoc_other :
      (rows : List Admission) (a : Admission)
      → of_root root_id a ≡ false
      → queue_of root_id (rows ++ a ∷ []) ≡ queue_of root_id rows
  unfolding queue_of select
  queue-snoc_other [] a h = ground (arith, h)
  queue-snoc_other (b ∷ rows) a h = ground (arith, queue-snoc_other rows a h)

  -- The front's number is below all that wait behind it.
  pub queue-front :
      (rows : List Admission) (n seq : ℕ)
      → Ascends root_id n rows
      → front (queue_of root_id rows) ≡ some seq
      → (t : ℕ × Str) × (q : Queue) × (queue_of root_id rows ≡ t ∷ q) × (t.0 ≡ seq) × Above seq q
  queue-front [] n seq h first = elim (some_not_none (sym first ∙ sym queue-none)) [ ]
  queue-front (a ∷ rows) n seq h first = elim (Bool-cases (pending_of root_id a)) [
    | inl e ↦
        let next = queue-pending a rows e in
        let number : a.admission_seq ≡ seq = ground (arith, ap front (sym next) ∙ first) in
        (
          ticket a,
          queue_of root_id rows,
          next,
          number,
          subst (λ m. Above m (queue_of root_id rows)) number
              (queue-Above rows a.admission_seq (Ascends-here a rows h (and_left _ _ e))),
        )
    | inr e ↦
        let next = queue-other a rows e in
        let (t, q, made, number, above) =
          queue-front rows n seq (Ascends-tail a rows n h) (ap front (sym next) ∙ first) in
        (t, q, next ∙ made, number, above)
  ]

  front-Above : (q : Queue) (m s : ℕ) → Above m q → front q ≡ some s → m < s
  front-Above [] m s h e = ground (arith, e)
  front-Above (t ∷ q) m s h e = ground (arith, h.0, e)

  -- A row that is not the front's is before it.
  passed :
      (a : Admission) (rows : List Admission) (n seq : ℕ)
      → Ascends root_id n (a ∷ rows)
      → front (queue_of root_id rows) ≡ some seq
      → admission_at root_id seq a ≡ false
  passed a rows n seq h e = elim (Bool-cases (of_root root_id a)) [
    | inl r ↦
        let lt =
          front-Above (queue_of root_id rows) a.admission_seq seq
            (queue-Above rows a.admission_seq (Ascends-here a rows h r)) e in
        ground (arith, lt)
    | inr r ↦ rw r
  ]

  find-here :
      (a : Admission) (rows : List Admission) (seq : ℕ) (row : Admission)
      → admission_at root_id seq a ≡ true
      → find_admission root_id seq (a ∷ rows) ≡ some row
      → a ≡ row
  unfolding find_admission
  find-here a rows seq row e found = ground (arith, e, found)

  find-past :
      (a : Admission) (rows : List Admission) (seq : ℕ) (row : Admission)
      → admission_at root_id seq a ≡ false
      → find_admission root_id seq (a ∷ rows) ≡ some row
      → find_admission root_id seq rows ≡ some row
  unfolding find_admission
  find-past a rows seq row e found = ground (arith, e, found)

  pub front-found :
      (rows : List Admission) (n seq : ℕ) (row : Admission)
      → Ascends root_id n rows
      → front (queue_of root_id rows) ≡ some seq
      → find_admission root_id seq rows ≡ some row
      → Fronts seq row (queue_of root_id rows)
  front-found [] n seq row h first found = elim (some_not_none (sym first ∙ sym queue-none)) [ ]
  front-found (a ∷ rows) n seq row h first found = elim (Bool-cases (pending_of root_id a)) [
    | inl e ↦
        let next = queue-pending a rows e in
        let number : a.admission_seq ≡ seq = ground (arith, ap front (sym next) ∙ first) in
        let same =
          find-here a rows seq row
            (ground (arith, number, and_left (of_root root_id a) (is_pending a.status) e)) found in
        subst (Fronts seq row) (sym next) (
          ground (arith, number, same),
          subst (λ m. Above m (queue_of root_id rows)) number
              (queue-Above rows a.admission_seq (Ascends-here a rows h (and_left _ _ e))),
        )
    | inr e ↦
        let past = queue-other a rows e in
        let first_later = ap front (sym past) ∙ first in
        subst (Fronts seq row) (sym past) (
          front-found rows n seq row (Ascends-tail a rows n h) first_later
            (find-past a rows seq row (passed a rows n seq h first_later) found))
  ]
