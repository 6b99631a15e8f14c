-- ===== src/Base/Sorting.antt =====
-- Go's order on strings, and sorting by an order of which the code fixes the comparison.
use mathlib.Core.Bool.{Bool, true, false}
use mathlib.Core.List.{List, [], ◌∷◌}
use index_core.Base.Tests.{ltb, ◌==◌, if◌then◌else◌}
use index_core.Base.Text.{Str}

-- `a < b` on strings: bytes from the left.
unfoldable pub str_ltb : Str → Str → Bool
str_ltb [] [] = false
str_ltb [] (y ∷ t) = true
str_ltb (x ∷ s) [] = false
str_ltb (x ∷ s) (y ∷ t) = let rest = str_ltb s t in if x == y then rest else ltb x y

module _ {ℓ} {A : Type ℓ} (less : A → A → Bool) where
  unfoldable pub insert_sorted : A → List A → List A
  insert_sorted x [] = x ∷ []
  insert_sorted x (y ∷ ys) =
      let rest = insert_sorted x ys in if less y x then y ∷ rest else x ∷ y ∷ ys

  unfoldable pub sort_by : List A → List A
  sort_by [] = []
  sort_by (x ∷ xs) = insert_sorted x (sort_by xs)
