-- ===== src/Kernel/Completeness/Shrink.antt =====
-- What corroborates a shrink.
use index_core.Base.{
  ◌≡◌, refl, Bool, if◌then◌else◌, true, false, List, [], ◌∷◌, arith, Bool-cases, inl, inr,
}
use index_core.Domain.Enums.{ScopeShrinkCorroboration}
use index_core.Kernel.Completeness.{Observation, is_fit, first_fit, derive_shrink_corroboration}

-- An observation that may speak for a shrink.
pub record IsFit (o : Observation) : Type 0 where
  pub fresh : o.fresh ≡ true
  pub no_error : o.no_error ≡ true
  pub no_skips : o.no_skips ≡ true
  pub strong : o.strong_assurance ≡ true

-- The first fit observation decides; none is fit, and nothing is decided.
pub data Decides : List Observation → ScopeShrinkCorroboration → Type 0 where
  undecided : Decides [] ScopeShrinkCorroboration.shrink_none
  passed :
      {o : Observation} {os : List Observation} {v : ScopeShrinkCorroboration}
      → ¬ IsFit o
      → Decides os v
      → Decides (o ∷ os) v
  confirmed :
      {o : Observation} {os : List Observation}
      → IsFit o
      → o.shrunk ≡ true
      → Decides (o ∷ os) ScopeShrinkCorroboration.corroborated
  refuted :
      {o : Observation} {os : List Observation}
      → IsFit o
      → o.shrunk ≡ false
      → Decides (o ∷ os) ScopeShrinkCorroboration.contradicted

IsFit-intro : (o : Observation) → is_fit o ≡ true → IsFit o
IsFit-intro o h = record {
  fresh = ground (arith, h);
  no_error = ground (arith, h);
  no_skips = ground (arith, h);
  strong = ground (arith, h);
}

unfit-refutes : (o : Observation) → is_fit o ≡ false → ¬ IsFit o
unfit-refutes o h f = ground (arith, h, f.fresh, f.no_error, f.no_skips, f.strong)

fit-Decides :
    (o : Observation) (os : List Observation) (b : Bool)
    → IsFit o
    → o.shrunk ≡ b
    → Decides
        (o ∷ os)
        (if b then ScopeShrinkCorroboration.corroborated else ScopeShrinkCorroboration.contradicted)
fit-Decides o os true fit says = confirmed fit says
fit-Decides o os false fit says = refuted fit says

first_fit-Decides : (os : List Observation) → Decides os (first_fit os)
unfolding first_fit
first_fit-Decides [] = undecided
first_fit-Decides (o ∷ os) = elim (Bool-cases (is_fit o)) [
  | inr unfit ↦ rw unfit (passed (unfit-refutes o unfit) (first_fit-Decides os))
  | inl fit ↦ rw fit (fit-Decides o os o.shrunk (IsFit-intro o fit) refl)
]

-- Of a significant shrink, the corroboration is what the first observation says that is fresh, without
-- error, without skipped scopes and of strong assurance: CORROBORATED if it shrank too, CONTRADICTED
-- if it did not, and NONE if there is no such observation. Without a significant shrink it is NONE,
-- whatever was observed.
pub derive_shrink_corroboration-first :
    (independent : List Observation)
    → Decides independent (derive_shrink_corroboration true independent)
      × (derive_shrink_corroboration false independent ≡ ScopeShrinkCorroboration.shrink_none)
unfolding derive_shrink_corroboration
derive_shrink_corroboration-first independent = (first_fit-Decides independent, refl)
