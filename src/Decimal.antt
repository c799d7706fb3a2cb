-- ===== src/Decimal.antt =====
-- What the program takes from the C library to print and to read numbers: %lu and %i of printf,
-- strtoul, strtol and atoi. strtoul stops at ULONG_MAX; numbers of int do not overflow.
pub mod RoundTrip
use nget.Prelude.{
  ℕ, zero, suc, ◌+◌, ◌-◌, ◌*◌, ◌/◌, ◌%◌, ℤ, pos, negsuc, List, [], ◌∷◌, Bool, true, false, ◌&&◌,
  ◌||◌, ◌==◌, ltb, leb, if◌then◌else◌, Option, some, none, Text, ulong_max, ulong_mod,
}

-- Each round divides n by ten, so n rounds are enough.
unfoldable pub print_from : ℕ → ℕ → Text → Text
print_from zero n out = out
print_from (suc fuel) n out =
    let more = print_from fuel (n / 10) ((48 + n % 10) ∷ out) in
    if ltb n 10 then (48 + n % 10) ∷ out else more

unfoldable pub print_ulong : ℕ → Text
unfolding print_from
print_ulong n = print_from (suc n) n []

unfoldable pub print_int : ℤ → Text
unfolding print_ulong
print_int (pos n) = print_ulong n
print_int (negsuc n) = 45 ∷ print_ulong (suc n)

unfoldable pub is_digit : ℕ → Bool
is_digit c = leb 48 c && leb c 57

unfoldable pub is_blank : ℕ → Bool
is_blank c = c == 32 || (leb 9 c && leb c 13)

unfoldable pub skip_blanks : Text → Text
unfolding is_blank
skip_blanks [] = []
skip_blanks (c ∷ cs) = let rest = skip_blanks cs in if is_blank c then rest else c ∷ cs

-- the sign, and what is behind it
unfoldable pub take_sign : Text → Bool × Text
take_sign [] = (false, [])
take_sign (c ∷ cs) =
    if c == 45 then (true, cs) else if c == 43 then (false, cs) else (false, c ∷ cs)

-- the number that n is the start of, and the text behind it
unfoldable pub read_digits : Text → ℕ → ℕ × Text
unfolding is_digit
read_digits [] n = (n, [])
read_digits (c ∷ cs) n =
    let rest = read_digits cs (n * 10 + (c - 48)) in if is_digit c then rest else (n, c ∷ cs)

unfoldable pub starts_digit : Text → Bool
unfolding is_digit
starts_digit [] = false
starts_digit (c ∷ cs) = is_digit c

unfoldable pub negated : ℕ → ℤ
negated zero = pos 0
negated (suc n) = negsuc n

-- the number and the place behind it; none where no number is read
unfoldable pub strtol : Text → Option (ℤ × Text)
unfolding skip_blanks take_sign read_digits starts_digit negated
strtol s =
    let (minus, t) = take_sign (skip_blanks s) in
    let (n, rest) = read_digits t 0 in
    if starts_digit t then some ((if minus then negated n else pos n), rest) else none

unfoldable pub number_of : Option (ℤ × Text) → ℤ
number_of none = pos 0
number_of (some (n, rest)) = n

unfoldable pub atoi : Text → ℤ
unfolding strtol number_of
atoi s = number_of (strtol s)

unfoldable pub atoul : Text → ℕ
unfolding skip_blanks take_sign read_digits
atoul s =
    let (minus, t) = take_sign (skip_blanks s) in
    let (n, rest) = read_digits t 0 in
    if ltb ulong_max n then ulong_max else if minus then (ulong_mod - n) % ulong_mod else n
