-- ===== src/Common/Word.antt =====
-- int64_t values as their 64-bit patterns. A difference wraps, and its sign is its top bit, which is
-- how daemonproxy compares timestamps (src/daemonproxy.h, `wake_t`).
use Prim.Native.Nat.{ℕ, ◌+◌, ◌-◌, ◌*◌, ◌%◌, ◌/◌, ◌^◌}
use mathlib.Core.Bool.{Bool, true, ◌&&◌}
use daemonproxy.Common.Compare.{ltb, leb, if◌then◌else◌}

abbrev pub word : ℕ
word = 2 ^ 64

abbrev pub half_word : ℕ
half_word = 2 ^ 63

abbrev pub add64 : ℕ → ℕ → ℕ
add64 a b = (a + b) % word

abbrev pub sub64 : ℕ → ℕ → ℕ
sub64 a b = (a + word - b % word) % word

abbrev pub mul64 : ℕ → ℕ → ℕ
mul64 a b = (a * b) % word

abbrev pub neg64 : ℕ → ℕ
neg64 a = sub64 0 a

-- The pattern stands for a number below zero.
abbrev pub is_negative : ℕ → Bool
is_negative a = leb half_word a

-- The pattern stands for a number above zero.
abbrev pub is_positive : ℕ → Bool
is_positive a = ltb 0 a && ltb a half_word

-- `a - b > 0`
abbrev pub after : ℕ → ℕ → Bool
after a b = is_positive (sub64 a b)

-- `a - b < 0`
abbrev pub before : ℕ → ℕ → Bool
before a b = is_negative (sub64 a b)

-- `a > b` on the numbers themselves
abbrev pub gt_signed : ℕ → ℕ → Bool
gt_signed a b =
    if is_negative a then is_negative b && ltb b a else if is_negative b then true else ltb b a

-- `x >> 32` and `x << 32` of a 32.32 fixed-point number, the first at a number not below zero
abbrev pub seconds : ℕ → ℕ
seconds a = a / 2 ^ 32

abbrev pub of_seconds : ℕ → ℕ
of_seconds s = (s * 2 ^ 32) % word
