-- ===== src/Core/Decimal/Range.antt =====
-- The range of `strconv.ParseInt(text, 10, 64)`.
use cubesql_go_driver.Prelude.{◌-◌, ◌^◌, ℤ, pos, negsuc, some, Bytes, [], ◌∷◌, ◌≡◌, arith, ◌≤ℤ◌}
use cubesql_go_driver.Core.Decimal.{parse_int}

-- A number that is parsed fits in an `int64`.
pub parse_int-InRange :
    (text : Bytes) (n : ℤ)
    → parse_int text ≡ some n
    → (negsuc (2 ^ 63 - 1) ≤ℤ n) × (n ≤ℤ pos (2 ^ 63 - 1))
unfolding parse_int
parse_int-InRange [] n h = ground arith
parse_int-InRange (c ∷ s) n h = ground arith
