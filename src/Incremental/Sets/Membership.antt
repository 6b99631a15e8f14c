-- ===== src/Incremental/Sets/Membership.antt =====
-- The elements of a normalized set.
use index_core.Base.{
  Str, str_eq, str_eq_iff, ◌≡◌, refl, sym, ap, ◌∙◌, inl, inr, Bool, true, ◌||◌, some, List, [], ◌∷◌,
  ◌++◌, any, any-append, any-snoc, Bool-cases, Option-cases, if◌then◌else◌, arith,
}
use index_core.Incremental.Sets.{Tag, has, distinct, insert, sort, normalize, union}

module _ {A : Type 0} (tag : Tag A) where
  abbrev hits : Str → A → Bool
  hits t y = str_eq (tag.text y) t

  has_same :
      (xs : List A) (x : A) (t : Str)
      → has tag xs x ≡ true
      → hits t x ≡ true
      → any (hits t) xs ≡ true
  has_same xs x t h k = ap (λ s. any (hits s) xs) (sym ((str_eq_iff (tag.text x) t).0 k)) ∙ h

  step :
      (out : List A) (x : A) (t : Str)
      → any (hits t) (if has tag out x then out else out ++ x ∷ []) ≡ (any (hits t) out || hits t x)
  step out x t = elim (Bool-cases (has tag out x)) [
    | inl old ↦ rw old (ground (arith, has_same out x t old))
    | inr fresh ↦ rw fresh (any-snoc (hits t) out x)
  ]

  distinct-any :
      (out xs ys : List A) (t : Str)
      → distinct tag out xs ≡ some ys
      → any (hits t) ys ≡ (any (hits t) out || any (hits t) xs)
  unfolding distinct any
  distinct-any out [] ys t h = ground (arith, h)
  distinct-any out (x ∷ xs) ys t h =
      let next = if has tag out x then out else out ++ x ∷ [] in
      let kept : distinct tag next xs ≡ some ys = ground (arith, h) in
      distinct-any next xs ys t kept ∙ ground (arith, step out x t)

  insert-any : (q : A → Bool) (x : A) (xs : List A) → any q (insert tag x xs) ≡ (q x || any q xs)
  unfolding insert any
  insert-any q x [] = refl
  insert-any q x (y ∷ ys) = ground (arith, insert-any q x ys)

  pub sort-any : (q : A → Bool) (xs : List A) → any q (sort tag xs) ≡ any q xs
  unfolding sort any
  sort-any q [] = refl
  sort-any q (x ∷ xs) = insert-any q x (sort tag xs) ∙ ap (λ b. q x || b) (sort-any q xs)

  pub union-has :
      (xs ys zs : List A) (x : A)
      → union tag xs ys ≡ some zs
      → has tag zs x ≡ (has tag xs x || has tag ys x)
  unfolding union normalize any
  union-has xs ys zs x h = elim (Option-cases (distinct tag [] (xs ++ ys))) [
    | inl gone ↦ ground (arith, h, gone)
    | inr (ws, kept) ↦
        let sorted : zs ≡ sort tag ws = ground (arith, h, kept) in
        ap (λ v. has tag v x) sorted
        ∙ sort-any (hits (tag.text x)) ws
        ∙ distinct-any [] (xs ++ ys) ws (tag.text x) kept
        ∙ any-append (hits (tag.text x)) xs ys
  ]
