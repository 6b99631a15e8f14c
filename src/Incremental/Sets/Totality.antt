-- ===== src/Incremental/Sets/Totality.antt =====
-- The union of validated sets.
use index_core.Base.{
  ◌≡◌, ◌||◌, refl, true, false, some, List, [], ◌∷◌, ◌++◌, All, All-append, if◌then◌else◌, arith,
}
use index_core.Incremental.Sets.Membership.{union-has}
use index_core.Incremental.Sets.Ascent.{Ascends, sort-Ascends, distinct-IsDistinct}
use index_core.Incremental.Sets.{Tag, has, distinct, insert, sort, normalize, union, str_less}

abbrev pub Valid : {A : Type 0} → Tag A → List A → Type 0
Valid tag xs = All (λ x. tag.is_valid x ≡ true) xs

module _ {A : Type 0} (tag : Tag A) where
  distinct-Valid :
      (out xs : List A)
      → Valid tag out
      → Valid tag xs
      → (ys : List A) × (distinct tag out xs ≡ some ys) × Valid tag ys
  unfolding distinct
  distinct-Valid out [] k h = (out, refl, k)
  distinct-Valid out (x ∷ xs) k h =
      let next : Valid tag (if has tag out x then out else out ++ x ∷ []) =
        elim (has tag out x) as (λ b. Valid tag (if b then out else out ++ x ∷ [])) [
          | true ↦ k
          | false ↦ All-append (λ y. tag.is_valid y ≡ true) out (x ∷ []) k (h.0, tt)
        ] in
      let (ys, e, ok) = distinct-Valid (if has tag out x then out else out ++ x ∷ []) xs next h.1 in
      (ys, rw h.0 e, ok)

  insert-Valid :
      (x : A) (xs : List A) → tag.is_valid x ≡ true → Valid tag xs → Valid tag (insert tag x xs)
  unfolding insert
  insert-Valid x [] h k = (h, tt)
  insert-Valid x (y ∷ ys) h k =
      elim (str_less (tag.text y) (tag.text x))
        as (λ b. Valid tag (if b then y ∷ insert tag x ys else x ∷ y ∷ ys)) [
          | true ↦ (k.0, insert-Valid x ys h k.1)
          | false ↦ (h, k)
        ]

  sort-Valid : (xs : List A) → Valid tag xs → Valid tag (sort tag xs)
  unfolding sort
  sort-Valid [] h = tt
  sort-Valid (x ∷ xs) h = insert-Valid x (sort tag xs) h.0 (sort-Valid xs h.1)

  -- The union of two lists of validated texts does not fail. Its texts are validated, in strictly
  -- ascending order, so that none occurs twice, and exactly those of the two lists.
  pub union-Valid :
      (xs ys : List A)
      → Valid tag xs
      → Valid tag ys
      → (zs : List A) × (union tag xs ys ≡ some zs)
        × Valid tag zs
        × Ascends tag zs
        × ((x : A) → has tag zs x ≡ (has tag xs x || has tag ys x))
  unfolding union normalize
  union-Valid xs ys h k =
      let (ws, e, ok) =
        distinct-Valid [] (xs ++ ys) tt (All-append (λ x. tag.is_valid x ≡ true) xs ys h k) in
      let made : union tag xs ys ≡ some (sort tag ws) = ground (arith, e) in
      (
        sort tag ws,
        made,
        sort-Valid ws ok,
        sort-Ascends tag ws (distinct-IsDistinct tag [] (xs ++ ys) ws tt e),
        λ x. union-has tag xs ys (sort tag ws) x made,
      )
