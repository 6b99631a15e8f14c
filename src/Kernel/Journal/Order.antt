-- ===== src/Kernel/Journal/Order.antt =====
-- The apply order: sorted by generation, place in it and sequence, and stable.
use index_core.Base.{
  ◌<ℤ◌, ◌≤ℤ◌, ◌⊎◌, sym, ℤ, eq_ℤ, eq_ℤ_iff, ltb_ℤ, ◌≡◌, refl, ap, ◌∙◌, Bool, true, false, ◌&&◌, not,
  List, [], ◌∷◌, select, All, All-map, Bool-cases, inl, inr, if◌then◌else◌, arith,
}
use index_core.Kernel.Journal.{Event, less, insert, in_apply_order}

-- The events at one place of the order.
abbrev pub at_place : ℤ → ℤ → ℤ → Event → Bool
at_place generation place seq e =
    eq_ℤ e.generation_number generation && eq_ℤ e.intra_generation_seq place && eq_ℤ e.event_seq seq

-- The order to apply in, from the generation down; equal in all three is allowed.
abbrev pub Precedes : Event → Event → Type 0
Precedes x y =
    (x.generation_number <ℤ y.generation_number)
    ⊎ ((x.generation_number ≡ y.generation_number)
        × ((x.intra_generation_seq <ℤ y.intra_generation_seq)
            ⊎ ((x.intra_generation_seq ≡ y.intra_generation_seq) × (x.event_seq ≤ℤ y.event_seq))))

-- Each event may be applied before all that follow it.
abbrev pub IsOrdered : List Event → Type 0
IsOrdered [] = Unit
IsOrdered (x ∷ xs) = All (Precedes x) xs × IsOrdered xs

-- The same by the code's comparison.
abbrev IsSorted : List Event → Type 0
IsSorted [] = Unit
IsSorted (x ∷ xs) = All (λ y. less y x ≡ false) xs × IsSorted xs

not_less-Precedes : (x y : Event) → less y x ≡ false → Precedes x y
unfolding less
not_less-Precedes x y h = elim (Bool-cases (eq_ℤ y.generation_number x.generation_number)) [
  | inr apart ↦ inl (ground (arith, h, apart))
  | inl same ↦ inr (
    sym ((eq_ℤ_iff y.generation_number x.generation_number).0 same),
    elim (Bool-cases (eq_ℤ y.intra_generation_seq x.intra_generation_seq)) [
      | inr apart ↦ inl (ground (arith, h, same, apart))
      | inl level ↦ inr (
        sym ((eq_ℤ_iff y.intra_generation_seq x.intra_generation_seq).0 level),
        ground (arith, h, same, level),
      )
    ],
  )
]

IsSorted-IsOrdered : (xs : List Event) → IsSorted xs → IsOrdered xs
IsSorted-IsOrdered [] h = tt
IsSorted-IsOrdered (x ∷ xs) h =
    (All-map (λ y. not_less-Precedes x y) xs h.0, IsSorted-IsOrdered xs h.1)

less_asym : (x y : Event) → less y x ≡ true → less x y ≡ false
unfolding less
less_asym x y h = ground (
  arith,
  h,
  eq_ℤ_iff x.generation_number y.generation_number,
  eq_ℤ_iff x.intra_generation_seq y.intra_generation_seq,
)

-- One level of the lexicographic order.
lex_trans :
    (a b c : ℤ) (r s t : Bool)
    → (r ≡ false → s ≡ false → t ≡ false)
    → (if not (eq_ℤ c b) then ltb_ℤ c b else r) ≡ false
    → (if not (eq_ℤ b a) then ltb_ℤ b a else s) ≡ false
    → (if not (eq_ℤ c a) then ltb_ℤ c a else t) ≡ false
lex_trans a b c r s t rest h k = ground (arith, rest, h, k)

ltb_trans : (a b c : ℤ) → ltb_ℤ c b ≡ false → ltb_ℤ b a ≡ false → ltb_ℤ c a ≡ false
ltb_trans a b c h k = ground (arith, h, k)

not_less_trans : (x y z : Event) → less z y ≡ false → less y x ≡ false → less z x ≡ false
unfolding less
not_less_trans x y z h k =
    lex_trans x.generation_number y.generation_number z.generation_number _ _ _
      (lex_trans x.intra_generation_seq y.intra_generation_seq z.intra_generation_seq _ _ _
        (ltb_trans x.event_seq y.event_seq z.event_seq))
      h k

same_place-not_less :
    (generation place seq : ℤ) (x y : Event)
    → at_place generation place seq x ≡ true
    → at_place generation place seq y ≡ true
    → less y x ≡ false
unfolding less
same_place-not_less generation place seq x y h k = ground (arith, h, k)

insert-All :
    (x y : Event) (ys : List Event)
    → less x y ≡ false
    → All (λ z. less z y ≡ false) ys
    → All (λ z. less z y ≡ false) (insert x ys)
unfolding insert
insert-All x y [] h k = (h, tt)
insert-All x y (z ∷ ys) h k =
    elim (less z x)
      as (λ b. All (λ w. less w y ≡ false) (if b then z ∷ insert x ys else x ∷ z ∷ ys)) [
        | true ↦ (k.0, insert-All x y ys h k.1)
        | false ↦ (h, k)
      ]

insert-IsSorted : (x : Event) (ys : List Event) → IsSorted ys → IsSorted (insert x ys)
unfolding insert
insert-IsSorted x [] h = (tt, tt)
insert-IsSorted x (y ∷ ys) h = elim (Bool-cases (less y x)) [
  | inl before ↦ rw before (insert-All x y ys (less_asym x y before) h.0, insert-IsSorted x ys h.1)
  | inr after ↦ rw after ((after, All-map (λ z later. not_less_trans x y z later after) ys h.0), h)
]

ordered_lem : (xs : List Event) → IsSorted (in_apply_order xs)
unfolding in_apply_order
ordered_lem [] = tt
ordered_lem (x ∷ xs) = insert-IsSorted x (in_apply_order xs) (ordered_lem xs)

module _ (generation place seq : ℤ) where
  insert-select :
      (x : Event) (ys : List Event)
      → select (at_place generation place seq) (insert x ys)
        ≡ select (at_place generation place seq) (x ∷ ys)
  unfolding insert select
  insert-select x [] = refl
  insert-select x (y ∷ ys) =
      ground (arith, insert-select x ys, same_place-not_less generation place seq x y)

  in_apply_order-select :
      (xs : List Event)
      → select (at_place generation place seq) (in_apply_order xs)
        ≡ select (at_place generation place seq) xs
  unfolding in_apply_order select
  in_apply_order-select [] = refl
  in_apply_order-select (x ∷ xs) =
      insert-select x (in_apply_order xs)
      ∙ ap (λ l. if at_place generation place seq x then x ∷ l else l) (in_apply_order-select xs)

-- The apply order is by generation, then by place in the generation, then by sequence, and stable: the events of each place are exactly those of the input, in
-- the order they had there. No event is lost, invented or repeated.
pub in_apply_order-IsOrdered :
    (xs : List Event)
    → IsOrdered (in_apply_order xs)
      × ((generation place seq : ℤ)
          → select (at_place generation place seq) (in_apply_order xs)
            ≡ select (at_place generation place seq) xs)
in_apply_order-IsOrdered xs = (
  IsSorted-IsOrdered _ (ordered_lem xs),
  λ generation place seq. in_apply_order-select generation place seq xs,
)
