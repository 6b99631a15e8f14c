-- ===== src/Incremental/Sets.antt =====
-- internal/incremental/state/validate.go: validation, and the sets of triggers. A set is kept
-- without duplicates, in the order of its elements' texts.
pub mod Membership
pub mod Ascent
pub mod Totality
use index_core.Base.{
  Str, codes, str_eq, ℕ, ltb, ◌==◌, Bool, true, false, ◌&&◌, ◌||◌, not, Option, none, some, List,
  [], ◌∷◌, ◌++◌, any, if◌then◌else◌,
}
use index_core.Incremental.Model.{Priority, TriggerSource, TriggerReason, ErrorClass}

-- Go's `<` on strings.
unfoldable pub str_less : Str → Str → Bool
str_less [] [] = false
str_less [] (y ∷ t) = true
str_less (x ∷ s) [] = false
str_less (x ∷ s) (y ∷ t) = ltb x y || (x == y && str_less s t)

abbrev pub is_valid_priority : Priority → Bool
is_valid_priority (Priority.other s) = false
is_valid_priority _ = true

abbrev pub is_valid_error_class : ErrorClass → Bool
is_valid_error_class (ErrorClass.other s) = false
is_valid_error_class _ = true

-- A string type of the package: its texts, and which of them its validation admits.
pub record Tag (A : Type 0) : Type 0 where
  pub text : A → Str
  pub is_valid : A → Bool

abbrev pub source_text : TriggerSource → Str
source_text TriggerSource.poll_schedule = codes "POLL_SCHEDULE"
source_text TriggerSource.mutation_hint = codes "MUTATION_HINT"
source_text TriggerSource.manual_operator = codes "MANUAL_OPERATOR"
source_text TriggerSource.provider_event = codes "PROVIDER_EVENT"
source_text TriggerSource.recovery = codes "RECOVERY"
source_text TriggerSource.full_verify_backstop = codes "FULL_VERIFY_BACKSTOP"
source_text (TriggerSource.other s) = s

abbrev pub is_valid_source : TriggerSource → Bool
is_valid_source (TriggerSource.other s) = false
is_valid_source _ = true

abbrev pub reason_text : TriggerReason → Str
reason_text TriggerReason.possible_change = codes "POSSIBLE_CHANGE"
reason_text TriggerReason.delete_hint = codes "DELETE_HINT"
reason_text TriggerReason.move_uncertain = codes "MOVE_UNCERTAIN"
reason_text TriggerReason.metadata_uncertain = codes "METADATA_UNCERTAIN"
reason_text TriggerReason.manual_verify = codes "MANUAL_VERIFY"
reason_text TriggerReason.drift_verify = codes "DRIFT_VERIFY"
reason_text TriggerReason.retry = codes "RETRY"
reason_text (TriggerReason.other s) = s

abbrev pub is_valid_reason : TriggerReason → Bool
is_valid_reason (TriggerReason.other s) = false
is_valid_reason _ = true

abbrev pub sources : Tag TriggerSource
sources = record { text = source_text; is_valid = is_valid_source }

abbrev pub reasons : Tag TriggerReason
reasons = record { text = reason_text; is_valid = is_valid_reason }

module _ {A : Type 0} (tag : Tag A) where
  -- `ContainsTriggerSource`, and the lookup in `seen`.
  abbrev pub has : List A → A → Bool
  has xs x = any (λ y. str_eq (tag.text y) (tag.text x)) xs

  -- The loop of the Normalize functions: `seen` holds what `out` holds.
  unfoldable pub distinct : List A → List A → Option (List A)
  distinct out [] = some out
  distinct out (x ∷ xs) =
      let rest = distinct (if has out x then out else out ++ x ∷ []) xs in
      if tag.is_valid x then rest else none

  -- The sort by text.
  unfoldable pub insert : A → List A → List A
  insert x [] = x ∷ []
  insert x (y ∷ ys) =
      let rest = insert x ys in if str_less (tag.text y) (tag.text x) then y ∷ rest else x ∷ y ∷ ys

  unfoldable pub sort : List A → List A
  sort [] = []
  sort (x ∷ xs) = insert x (sort xs)

  unfoldable pub normalize : List A → Option (List A)
  normalize xs = elim (distinct [] xs) [ none ↦ none | some ys ↦ some (sort ys) ]

  unfoldable pub union : List A → List A → Option (List A)
  union xs ys = normalize (xs ++ ys)

-- `MinTimePtr` and `MaxTimePtr`, two instants at a time.
unfoldable pub min_time : Option ℕ → Option ℕ → Option ℕ
min_time none b = b
min_time (some a) none = some a
min_time (some a) (some b) = if ltb b a then some b else some a

unfoldable pub max_time : Option ℕ → Option ℕ → Option ℕ
max_time none b = b
max_time (some a) none = some a
max_time (some a) (some b) = if ltb a b then some b else some a
