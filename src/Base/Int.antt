-- ===== src/Base/Int.antt =====
-- Go's signed integers, and the conversion of a uint64 to an int64.
use Prim.Native.Nat.{ℕ, zero, suc, ◌-◌}
use mathlib.Core.Bool.{Bool, false}
use mc_prototype.Base.Tests.{if◌then◌else◌, ltb, leb, ◌==◌}

-- `negsuc n` is -(n + 1).
pub data ℤ : Type 0 where
  pos : ℕ → ℤ
  negsuc : ℕ → ℤ

-- The number of an integer that is at least 0, and 0 of a negative one.
abbrev pub to_ℕ : ℤ → ℕ
to_ℕ (pos n) = n
to_ℕ (negsuc n) = 0

-- n ≤ z and n ≡ z, for a number n.
abbrev pub le_ℤ : ℕ → ℤ → Bool
le_ℤ n (pos m) = leb n m
le_ℤ n (negsuc m) = false

abbrev pub eq_ℤ : ℕ → ℤ → Bool
eq_ℤ n (pos m) = n == m
eq_ℤ n (negsuc m) = false

-- 2 ^ 63 and 2 ^ 64.
abbrev pub int64_limit : ℕ
int64_limit = 9223372036854775808

abbrev pub uint64_limit : ℕ
uint64_limit = 18446744073709551616

-- int64(x) of a uint64 x: the same bits.
abbrev pub int64 : ℕ → ℤ
int64 x = if ltb x int64_limit then pos x else negsuc (uint64_limit - x - 1)

-- uint64(z) of an int64 z.
abbrev pub uint64 : ℤ → ℕ
uint64 (pos n) = n
uint64 (negsuc n) = uint64_limit - n - 1

-- z + 1 of an int64 z, which wraps round.
abbrev pub suc64 : ℤ → ℤ
suc64 (pos n) = if ltb (suc n) int64_limit then pos (suc n) else negsuc (int64_limit - 1)
suc64 (negsuc zero) = pos 0
suc64 (negsuc (suc n)) = negsuc n

abbrev pub is_positive : ℤ → Bool
is_positive (pos n) = ltb 0 n
is_positive (negsuc n) = false
