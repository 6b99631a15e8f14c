-- ===== src/Incremental/Sets/Ascent.antt =====
-- The texts of a set in ascending order, each once.
use index_core.Base.{
  Str, str_eq, str_eq_iff, ◌≡◌, refl, ◌∙◌, inl, inr, true, false, some, List, [], ◌∷◌, ◌++◌, any,
  any-append, All, All-map, Bool-cases, if◌then◌else◌, arith,
}
use index_core.Incremental.Sets.{Tag, has, distinct, insert, sort, str_less}
use index_core.Incremental.Sets.Membership.{sort-any}

str_less_trans : (s t u : Str) → str_less s t ≡ true → str_less t u ≡ true → str_less s u ≡ true
unfolding str_less
str_less_trans [] [] u h k = ground (arith, h)
str_less_trans (x ∷ s) [] u h k = ground (arith, h)
str_less_trans [] (y ∷ t) [] h k = ground (arith, k)
str_less_trans [] (y ∷ t) (z ∷ u) h k = refl
str_less_trans (x ∷ s) (y ∷ t) [] h k = ground (arith, k)
str_less_trans (x ∷ s) (y ∷ t) (z ∷ u) h k = ground (arith, h, k, str_less_trans s t u)

str_less_total : (s t : Str) → str_less t s ≡ false → str_eq t s ≡ false → str_less s t ≡ true
unfolding str_less str_eq
str_less_total [] [] h k = ground (arith, k)
str_less_total [] (y ∷ t) h k = refl
str_less_total (x ∷ s) [] h k = ground (arith, h)
str_less_total (x ∷ s) (y ∷ t) h k = ground (arith, h, k, str_less_total s t)

module _ {A : Type 0} (tag : Tag A) where
  -- Every text is less than all that follow it.
  abbrev pub Ascends : List A → Type 0
  Ascends [] = Unit
  Ascends (x ∷ xs) = All (λ y. str_less (tag.text x) (tag.text y) ≡ true) xs × Ascends xs

  -- No text occurs twice.
  abbrev pub IsDistinct : List A → Type 0
  IsDistinct [] = Unit
  IsDistinct (x ∷ xs) = (has tag xs x ≡ false) × IsDistinct xs

  insert-All : (P : A → Type 0) (x : A) (ys : List A) → P x → All P ys → All P (insert tag x ys)
  unfolding insert
  insert-All P x [] h k = (h, tt)
  insert-All P x (y ∷ ys) h k =
      elim (str_less (tag.text y) (tag.text x))
        as (λ b. All P (if b then y ∷ insert tag x ys else x ∷ y ∷ ys)) [
          | true ↦ (k.0, insert-All P x ys h k.1)
          | false ↦ (h, k)
        ]

  insert-Ascends :
      (x : A) (ys : List A) → has tag ys x ≡ false → Ascends ys → Ascends (insert tag x ys)
  unfolding insert any
  insert-Ascends x [] new h = (tt, tt)
  insert-Ascends x (y ∷ ys) new h = elim (Bool-cases (str_less (tag.text y) (tag.text x))) [
    | inl past ↦ rw past (
      insert-All (λ z. str_less (tag.text y) (tag.text z) ≡ true) x ys past h.0,
      insert-Ascends x ys (ground (arith, new)) h.1,
    )
    | inr here ↦
        let first = str_less_total (tag.text x) (tag.text y) here (ground (arith, new)) in
        rw here (
          (
            first,
            All-map (λ z later. str_less_trans (tag.text x) (tag.text y) (tag.text z) first later)
                ys h.0,
          ),
          h,
        )
  ]

  pub sort-Ascends : (xs : List A) → IsDistinct xs → Ascends (sort tag xs)
  unfolding sort
  sort-Ascends [] h = tt
  sort-Ascends (x ∷ xs) h =
      insert-Ascends x (sort tag xs) (sort-any tag (λ y. str_eq (tag.text y) (tag.text x)) xs ∙ h.0)
        (sort-Ascends xs h.1)

  str_eq_flip : (s t : Str) → str_eq s t ≡ false → str_eq t s ≡ false
  str_eq_flip s t h = ground (arith, h, str_eq_iff s t, str_eq_iff t s)

  snoc-IsDistinct :
      (xs : List A) (x : A) → has tag xs x ≡ false → IsDistinct xs → IsDistinct (xs ++ x ∷ [])
  unfolding any
  snoc-IsDistinct [] x new h = (refl, tt)
  snoc-IsDistinct (y ∷ xs) x new h = (
    ground (
      arith,
      h.0,
      new,
      any-append (λ z. str_eq (tag.text z) (tag.text y)) xs (x ∷ []),
      str_eq_flip (tag.text y) (tag.text x),
    ),
    snoc-IsDistinct xs x (ground (arith, new)) h.1,
  )

  pub distinct-IsDistinct :
      (out xs ys : List A) → IsDistinct out → distinct tag out xs ≡ some ys → IsDistinct ys
  unfolding distinct
  distinct-IsDistinct out [] ys h e = ground (arith, h, e)
  distinct-IsDistinct out (x ∷ xs) ys h e = elim (Bool-cases (has tag out x)) [
    | inl old ↦ distinct-IsDistinct out xs ys h (ground (arith, e, old))
    | inr new ↦
        distinct-IsDistinct (out ++ x ∷ []) xs ys (snoc-IsDistinct out x new h)
          (ground (arith, e, new))
  ]
