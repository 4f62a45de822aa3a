-- ===== src/Prelude/Int.antt =====
-- Signed integers over the native numbers: Go's durations and differences of times.
use Prim.Native.Nat.{ℕ, suc, ◌+◌, ◌-◌, ◌%◌, ◌≤◌, ◌<◌}
use mathlib.Core.Bool.{Bool}
use c4isr_systems.Prelude.Tests.{ltb, leb, if◌then◌else◌}

-- `negsuc n` is -(n + 1).
pub data ℤ : Type 0 where
  pos : ℕ → ℤ
  negsuc : ℕ → ℤ

abbrev pub pos_part : ℤ → ℕ
pos_part (pos n) = n
pos_part (negsuc n) = 0

abbrev pub neg_part : ℤ → ℕ
neg_part (pos n) = 0
neg_part (negsuc n) = suc n

-- a - b, as an integer.
abbrev pub sub_ℕ : ℕ → ℕ → ℤ
sub_ℕ a b = if leb b a then pos (a - b) else negsuc (b - a - 1)

infix 50 ◌≤ℤ◌ ◌<ℤ◌
abbrev pub ◌≤ℤ◌ : ℤ → ℤ → Type 0
a ≤ℤ b = pos_part a + neg_part b ≤ pos_part b + neg_part a

abbrev pub ◌<ℤ◌ : ℤ → ℤ → Type 0
a <ℤ b = pos_part a + neg_part b < pos_part b + neg_part a

abbrev pub ltb_ℤ : ℤ → ℤ → Bool
ltb_ℤ a b = ltb (pos_part a + neg_part b) (pos_part b + neg_part a)

abbrev pub leb_ℤ : ℤ → ℤ → Bool
leb_ℤ a b = leb (pos_part a + neg_part b) (pos_part b + neg_part a)

-- `int64`: 2 ^ 63 and 2 ^ 64.
abbrev pub int64_half : ℕ
int64_half = 9223372036854775808

abbrev pub int64_mod : ℕ
int64_mod = 18446744073709551616

-- math.MaxInt64
abbrev pub max_int64 : ℕ
max_int64 = 9223372036854775807

-- The int64 that a product or a sum of non-negative int64 wraps to.
abbrev pub wrap_int64 : ℕ → ℤ
wrap_int64 n =
    if ltb (n % int64_mod) int64_half
    then pos (n % int64_mod)
    else negsuc (int64_mod - n % int64_mod - 1)

-- `time.Time.Sub`: the difference of two instants in nanoseconds, saturated to an int64.
abbrev pub sub_time : ℕ → ℕ → ℤ
sub_time a b =
    if leb b a
    then pos (if ltb max_int64 (a - b) then max_int64 else a - b)
    else negsuc (if leb int64_half (b - a) then max_int64 else b - a - 1)
