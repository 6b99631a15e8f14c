-- ===== src/Store/Tables/Aggregates.antt =====
-- What the queries of internal/store/postgres compute over the rows that pass a test: `min`, `max`
-- and `count`, and the laws of the two extrema.
use index_core.Base.{
  ℕ, ◌≤◌, ltb, ◌≡◌, Bool, true, Option, none, some, List, [], ◌∷◌, All, if◌then◌else◌, arith,
}

abbrev pub later : Option ℕ → ℕ → ℕ
later none n = n
later (some m) n = if ltb m n then n else m

abbrev pub sooner : Option ℕ → ℕ → ℕ
sooner none n = n
sooner (some m) n = if ltb n m then n else m

abbrev pub or_zero : Option ℕ → ℕ
or_zero none = 0
or_zero (some n) = n

module _ {A : Type 0} (p : A → Bool) (f : A → ℕ) where
  -- `SELECT max(f) ... WHERE p`: NULL where no row passes.
  unfoldable pub max_of : List A → Option ℕ
  max_of [] = none
  max_of (x ∷ xs) = let rest = max_of xs in if p x then some (later rest (f x)) else rest

  -- `SELECT min(f) ... WHERE p`, or the first row `ORDER BY f`.
  unfoldable pub min_of : List A → Option ℕ
  min_of [] = none
  min_of (x ∷ xs) = let rest = min_of xs in if p x then some (sooner rest (f x)) else rest

  -- The rows that pass have `f` at most `n`.
  abbrev pub AtMost : ℕ → List A → Type 0
  AtMost n = All λ x. p x ≡ true → f x ≤ n

  AtMost-weaken : (xs : List A) (m n : ℕ) → m ≤ n → AtMost m xs → AtMost n xs
  AtMost-weaken [] m n le h = tt
  AtMost-weaken (x ∷ xs) m n le h = (λ e. omega (arith, h.0 e, le), AtMost-weaken xs m n le h.1)

  pub AtMost-max_of : (xs : List A) → AtMost (or_zero (max_of xs)) xs
  unfolding max_of
  AtMost-max_of [] = tt
  AtMost-max_of (x ∷ xs) =
      let rest = AtMost-max_of xs in
      (λ e. ground (arith, e), AtMost-weaken xs (or_zero (max_of xs)) _ (ground arith) rest)
