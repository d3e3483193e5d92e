-- ===== src/Core/Decimal.antt =====
-- `strconv.ParseInt(text, 10, 64)`, of Go's standard library, as cubesql/rows.go and
-- database/cubesql/rows.go use it: an optional sign, decimal digits, and the range of `int64`.
pub mod Range
pub mod Print
use cubesql_go_driver.Prelude.{
  ℕ, suc, ◌+◌, ◌-◌, ◌*◌, ◌^◌, ℤ, pos, negsuc, Bool, ◌&&◌, Option, none, some, Bytes, List, [], ◌∷◌,
  ltb, leb, ◌==◌, if◌then◌else◌,
}

-- The value of the digits, most significant first.
unfoldable pub digits : ℕ → Bytes → Option ℕ
digits n [] = some n
digits n (c ∷ s) =
    let rest = digits (n * 10 + (c - 48)) s in if leb b'0' c && leb c b'9' then rest else none

unfoldable pub magnitude : Bytes → Option ℕ
unfolding digits
magnitude [] = none
magnitude (c ∷ s) = digits 0 (c ∷ s)

abbrev non_negative : Option ℕ → Option ℤ
non_negative none = none
non_negative (some n) = if ltb n (2 ^ 63) then some (pos n) else none

abbrev negated : Option ℕ → Option ℤ
negated none = none
negated (some n) =
    if n == 0 then some (pos 0) else if leb n (2 ^ 63) then some (negsuc (n - 1)) else none

unfoldable pub parse_int : Bytes → Option ℤ
unfolding magnitude
parse_int [] = none
parse_int (c ∷ s) =
    if c == b'+'
    then non_negative (magnitude s)
    else if c == b'-'
    then negated (magnitude s)
    else non_negative (magnitude (c ∷ s))
