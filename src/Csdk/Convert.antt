-- ===== src/Csdk/Convert.antt =====
-- The conversions of Go numbers to C numbers, and the tests on `float64` values, that csdk.go makes.
use cubesql_go_driver.Prelude.{
  ℕ, ◌+◌, ◌-◌, ◌%◌, ◌/◌, ◌^◌, ℤ, pos, negsuc, Bool, not, ◌&&◌, ◌==◌, ltb, if◌then◌else◌, arith, ◌≡◌,
  ◌≤ℤ◌,
}

-- The 32-bit word read as a signed number.
signed32 : ℕ → ℤ
signed32 w = if ltb w (2 ^ 31) then pos w else negsuc (2 ^ 32 - 1 - w)

-- `C.int(n)` of a Go `int`: the low 32 bits.
unfoldable pub c_int : ℤ → ℤ
unfolding signed32
c_int (pos n) = signed32 (n % 2 ^ 32)
c_int (negsuc n) = signed32 (2 ^ 32 - 1 - n % 2 ^ 32)

-- A number that fits in 32 bits is passed to C unchanged.
pub c_int-of_small : (n : ℤ) → negsuc (2 ^ 31 - 1) ≤ℤ n → n ≤ℤ pos (2 ^ 31 - 1) → c_int n ≡ n
unfolding c_int
c_int-of_small (pos n) lo hi = ground arith
c_int-of_small (negsuc n) lo hi = ground arith

-- C sees every Go number modulo 2^32, so it cannot tell `n` from `n + 2^32`.
pub c_int-add_word : (n : ℕ) → c_int (pos (n + 2 ^ 32)) ≡ c_int (pos n)
unfolding c_int
c_int-add_word n = ground arith

-- `math.IsNaN` and `math.IsInf(_, 0)` of the value with these IEEE 754 bits.
unfoldable pub is_nan : ℕ → Bool
is_nan bits = (bits / 2 ^ 52 % 2048 == 2047) && not (bits % 2 ^ 52 == 0)

unfoldable pub is_inf : ℕ → Bool
is_inf bits = (bits / 2 ^ 52 % 2048 == 2047) && (bits % 2 ^ 52 == 0)
