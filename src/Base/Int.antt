-- ===== src/Base/Int.antt =====
-- Go's signed integers. `negsuc n` is -(n + 1).
use Prim.Native.Nat.{ℕ, zero, suc, ◌+◌, ◌-◌, ◌≤◌, ◌<◌}
use mathlib.Core.Path.{◌≡◌}
use mathlib.Core.Logic.{◌↔◌}
use mathlib.Core.Bool.{Bool, true, false}
use native.Mathlib.Omega.{arith}
use index_core.Base.Tests.{ltb, leb, ◌==◌, if◌then◌else◌}

pub data ℤ : Type 0 where
  pos : ℕ → ℤ
  negsuc : ℕ → ℤ

abbrev pub pos_part : ℤ → ℕ
pos_part (pos n) = n
pos_part (negsuc n) = 0

abbrev pub neg_part : ℤ → ℕ
neg_part (pos n) = 0
neg_part (negsuc n) = suc n

-- a - b, as an integer.
abbrev pub sub_ℕ : ℕ → ℕ → ℤ
sub_ℕ a b = if leb b a then pos (a - b) else negsuc (b - a - 1)

infix 50 ◌≤ℤ◌
abbrev pub ◌≤ℤ◌ : ℤ → ℤ → Type 0
a ≤ℤ b = pos_part a + neg_part b ≤ pos_part b + neg_part a

infix 50 ◌<ℤ◌
abbrev pub ◌<ℤ◌ : ℤ → ℤ → Type 0
a <ℤ b = pos_part a + neg_part b < pos_part b + neg_part a

abbrev pub leb_ℤ : ℤ → ℤ → Bool
leb_ℤ a b = leb (pos_part a + neg_part b) (pos_part b + neg_part a)

abbrev pub ltb_ℤ : ℤ → ℤ → Bool
ltb_ℤ a b = ltb (pos_part a + neg_part b) (pos_part b + neg_part a)

abbrev pub eq_ℤ : ℤ → ℤ → Bool
eq_ℤ (pos a) (pos b) = a == b
eq_ℤ (negsuc a) (negsuc b) = a == b
eq_ℤ _ _ = false

pub eq_ℤ_iff : (a b : ℤ) → (eq_ℤ a b ≡ true) ↔ (a ≡ b)
eq_ℤ_iff (pos a) (pos b) = ground arith
eq_ℤ_iff (pos a) (negsuc b) = ground arith
eq_ℤ_iff (negsuc a) (pos b) = ground arith
eq_ℤ_iff (negsuc a) (negsuc b) = ground arith

-- `c + 1` on an int32: the largest value wraps to the smallest.
abbrev pub inc_int32 : ℤ → ℤ
inc_int32 (pos n) = if n == 2147483647 then negsuc 2147483647 else pos (n + 1)
inc_int32 (negsuc zero) = pos 0
inc_int32 (negsuc (suc n)) = negsuc n

-- `time.Time.Sub`: the difference of two instants in nanoseconds, held within an int64.
abbrev pub max_duration : ℕ
max_duration = 9223372036854775807

abbrev pub sub_time : ℕ → ℕ → ℤ
sub_time a b =
    if leb b a
    then pos (if leb (a - b) max_duration then a - b else max_duration)
    else negsuc (if leb (b - a - 1) max_duration then b - a - 1 else max_duration)

-- `a - b` on an int64 whose difference fits.
abbrev pub sub_ℤ : ℤ → ℤ → ℤ
sub_ℤ a b = sub_ℕ (pos_part a + neg_part b) (pos_part b + neg_part a)

-- `c + 1` on an int64.
abbrev pub inc_int64 : ℤ → ℤ
inc_int64 (pos n) = if n == max_duration then negsuc max_duration else pos (n + 1)
inc_int64 (negsuc zero) = pos 0
inc_int64 (negsuc (suc n)) = negsuc n
