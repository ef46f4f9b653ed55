-- ===== src/Prelude/IntSums.antt =====
-- Sums and differences of integers.
use pine_vid_backend.Prelude.{ℕ, ◌+◌, ◌≡◌, arith}
use pine_vid_backend.Prelude.Int.{ℤ, pos, negsuc, ◌+ℤ◌, ◌-ℤ◌}

pub minus_zero : (a : ℤ) → a -ℤ pos 0 ≡ a
unfolding ◌-ℤ◌
minus_zero (pos a) = ground arith
minus_zero (negsuc a) = ground arith

pub minus_sum : (a : ℤ) (n m : ℕ) → a -ℤ pos n -ℤ pos m ≡ a -ℤ pos (n + m)
unfolding ◌-ℤ◌
minus_sum (pos a) n m = ground arith
minus_sum (negsuc a) n m = ground arith

pub moved_sum : (a : ℤ) (s n : ℕ) → pos (s + n) +ℤ (a -ℤ pos n) ≡ pos s +ℤ a
unfolding ◌-ℤ◌ ◌+ℤ◌
moved_sum (pos a) s n = ground arith
moved_sum (negsuc a) s n = ground arith
