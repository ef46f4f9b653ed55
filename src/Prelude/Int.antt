-- ===== src/Prelude/Int.antt =====
-- Go's int64: signed integers over the native numbers, and the wrap-around of 64-bit arithmetic.
use Prim.Native.Nat.{ℕ, suc, ◌+◌, ◌-◌, ◌*◌, ◌/◌, ◌%◌, ◌<◌}
use mathlib.Core.Path.{◌≡◌}
use mathlib.Core.Bool.{Bool, true, false}
use native.Mathlib.Omega.{arith}
use pine_vid_backend.Prelude.Tests.{ltb, leb, if◌then◌else◌}

-- `negsuc n` is -(n + 1).
pub data ℤ : Type 0 where
  pos : ℕ → ℤ
  negsuc : ℕ → ℤ

abbrev pub pos_part : ℤ → ℕ
pos_part (pos n) = n
pos_part (negsuc n) = 0

abbrev pub neg_part : ℤ → ℕ
neg_part (pos n) = 0
neg_part (negsuc n) = suc n

abbrev pub sub_ℕ : ℕ → ℕ → ℤ
sub_ℕ a b = if leb b a then pos (a - b) else negsuc (b - a - 1)

infixl 65 ◌+ℤ◌ ◌-ℤ◌
infixl 70 ◌*ℤ◌
unfoldable pub ◌+ℤ◌ : ℤ → ℤ → ℤ
a +ℤ b = sub_ℕ (pos_part a + pos_part b) (neg_part a + neg_part b)

unfoldable pub ◌-ℤ◌ : ℤ → ℤ → ℤ
a -ℤ b = sub_ℕ (pos_part a + neg_part b) (neg_part a + pos_part b)

unfoldable pub ◌*ℤ◌ : ℤ → ℤ → ℤ
a *ℤ b =
    sub_ℕ (pos_part a * pos_part b + neg_part a * neg_part b)
      (pos_part a * neg_part b + neg_part a * pos_part b)

abbrev pub ltb_ℤ : ℤ → ℤ → Bool
ltb_ℤ (pos a) (pos b) = ltb a b
ltb_ℤ (pos a) (negsuc b) = false
ltb_ℤ (negsuc a) (pos b) = true
ltb_ℤ (negsuc a) (negsuc b) = ltb b a

abbrev pub leb_ℤ : ℤ → ℤ → Bool
leb_ℤ (pos a) (pos b) = leb a b
leb_ℤ (pos a) (negsuc b) = false
leb_ℤ (negsuc a) (pos b) = true
leb_ℤ (negsuc a) (negsuc b) = leb b a

abbrev pub two_64 : ℕ
two_64 = 18446744073709551616

abbrev pub two_63 : ℕ
two_63 = 9223372036854775808

-- The conversion `uint64(x)`: the residue modulo 2^64.
unfoldable pub to_uint64 : ℤ → ℕ
to_uint64 (pos n) = n % two_64
to_uint64 (negsuc n) = two_64 - 1 - n % two_64

-- The conversion `int64(u)` of a word.
unfoldable pub of_uint64 : ℕ → ℤ
of_uint64 u = if ltb u two_63 then pos u else negsuc (two_64 - 1 - u)

-- What int64 arithmetic makes of an exact result.
unfoldable pub wrap64 : ℤ → ℤ
unfolding to_uint64 of_uint64
wrap64 a = of_uint64 (to_uint64 a)

-- Go's division truncates towards zero; the divisor here is positive.
unfoldable pub div_pos : ℤ → ℕ → ℤ
div_pos (pos n) d = pos (n / d)
div_pos (negsuc n) d = sub_ℕ 0 (suc n / d)

-- An exact result in range is left as it is.
pub wrap64-pos : (n : ℕ) → n < two_63 → wrap64 (pos n) ≡ pos n
unfolding wrap64
wrap64-pos n h = ground arith

pub to_uint64-pos : (n : ℕ) → n < two_64 → to_uint64 (pos n) ≡ n
unfolding to_uint64
to_uint64-pos n h = ground arith

-- A negative offset stays negative.
pub wrap64-negsuc : (n : ℕ) → n < two_63 → wrap64 (negsuc n) ≡ negsuc n
unfolding wrap64
wrap64-negsuc n h = ground arith

pub +ℤ-pos : (a b : ℕ) → pos a +ℤ pos b ≡ pos (a + b)
unfolding ◌+ℤ◌
+ℤ-pos a b = ground arith
