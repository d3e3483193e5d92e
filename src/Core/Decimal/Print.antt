-- ===== src/Core/Decimal/Print.antt =====
-- Decimal texts of numbers, and what `strconv.ParseInt` makes of them.
use cubesql_go_driver.Prelude.{
  ℕ, zero, suc, ◌+◌, ◌-◌, ◌*◌, ◌/◌, ◌%◌, ◌^◌, ◌<◌, ◌≤◌, ℤ, pos, negsuc, Option, none, some, Bytes,
  [], ◌∷◌, ◌++◌, ltb, is_empty, if◌then◌else◌, Bool, true, false, ◌≡◌, refl, arith, ◌≤ℤ◌,
}
use cubesql_go_driver.Core.Decimal.{digits, magnitude, parse_int}

-- The digits of a number without leading zeros; `fuel` is at least the number.
unfoldable pub print_digits : (fuel n : ℕ) → Bytes
print_digits zero n = (48 + n % 10) ∷ []
print_digits (suc fuel) n =
    let front = print_digits fuel (n / 10) in
    if ltb n 10 then (48 + n) ∷ [] else front ++ (48 + n % 10) ∷ []

unfoldable pub print_int : ℤ → Bytes
unfolding print_digits
print_int (pos n) = print_digits n n
print_int (negsuc n) = b'-' ∷ print_digits (suc n) (suc n)

-- One more digit after a number.
abbrev one_more : Option ℕ → ℕ → Option ℕ
one_more none d = none
one_more (some n) d = some (n * 10 + d)

digits-push :
    (m d : ℕ) (s : Bytes) → d < 10 → digits m (s ++ (48 + d) ∷ []) ≡ one_more (digits m s) d
unfolding digits
digits-push m d [] h = ground arith
digits-push m d (c ∷ s) h = ground (arith, digits-push (m * 10 + (c - 48)) d s)

digits-print : (fuel n : ℕ) → n ≤ fuel → digits 0 (print_digits fuel n) ≡ some n
unfolding print_digits digits
digits-print zero n h = ground arith
digits-print (suc fuel) n h =
    let front = print_digits fuel (n / 10) in
    let pushed = digits-push 0 (n % 10) front (omega arith) in
    let before = digits-print fuel (n / 10) (omega (arith, h)) in ground (arith, pushed, before)

-- The text starts with a digit.
record Starts (s : Bytes) : Type 0 where
  pub first : ℕ
  pub rest : Bytes
  pub split : s ≡ first ∷ rest
  pub digit : (48 ≤ first) × (first < 58)

print-Starts : (fuel n : ℕ) → Starts (print_digits fuel n)
unfolding print_digits
print-Starts zero n = record { first = 48 + n % 10; rest = []; split = refl; digit = omega arith }
print-Starts (suc fuel) n = starts (print-Starts fuel (n / 10)) (ltb n 10) refl
  where
    last : Bytes
    last = (48 + n % 10) ∷ []

    starts :
        Starts (print_digits fuel (n / 10))
        → (b : Bool) → ltb n 10 ≡ b
        → Starts (if b then (48 + n) ∷ [] else print_digits fuel (n / 10) ++ last)
    starts front true h = record { first = 48 + n; rest = []; split = refl; digit = ground arith }
    starts front false h = record {
      first = front.first;
      rest = front.rest ++ last;
      split = rw front.split refl;
      digit = front.digit;
    }

pub print_int-given : (n : ℤ) → is_empty (print_int n) ≡ false
unfolding print_int
print_int-given (pos n) = rw ((print-Starts n n).split) refl
print_int-given (negsuc n) = refl

parse_int-unsigned :
    (s : Bytes) (n : ℕ) → Starts s → digits 0 s ≡ some n → n < 2 ^ 63 → parse_int s ≡ some (pos n)
unfolding parse_int magnitude
parse_int-unsigned [] n start h small = ground (arith, start.split)
parse_int-unsigned (c ∷ s) n start h small = ground (arith, start.split, start.digit, h, small)

parse_int-negated :
    (s : Bytes) (n : ℕ)
    → Starts s
    → digits 0 s ≡ some (suc n)
    → n < 2 ^ 63
    → parse_int (b'-' ∷ s) ≡ some (negsuc n)
unfolding parse_int magnitude
parse_int-negated [] n start h small = ground (arith, start.split)
parse_int-negated (c ∷ s) n start h small = ground (arith, h, small)

-- The decimal text of an `int64` is parsed to the number itself.
pub parse_int-print :
    (n : ℤ)
    → (negsuc (2 ^ 63 - 1) ≤ℤ n) × (n ≤ℤ pos (2 ^ 63 - 1))
    → parse_int (print_int n) ≡ some n
unfolding print_int
parse_int-print (pos n) (low, high) =
    parse_int-unsigned (print_digits n n) n (print-Starts n n) (digits-print n n (omega arith))
      (omega (arith, high))
parse_int-print (negsuc n) (low, high) =
    parse_int-negated (print_digits (suc n) (suc n)) n (print-Starts (suc n) (suc n))
      (digits-print (suc n) (suc n) (omega arith)) (omega (arith, low))
