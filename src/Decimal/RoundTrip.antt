-- ===== src/Decimal/RoundTrip.antt =====
-- A number that was printed is read back.
use nget.Prelude.{
  ℕ, zero, suc, ◌+◌, ◌/◌, ◌%◌, ◌≤◌, ◌≡◌, refl, ap, sym, ◌∙◌, ℤ, pos, negsuc, [], ◌∷◌, ◌++◌, true,
  false, some, Text, ulong_max, arith, append_nil,
}
use nget.Decimal.{
  print_from, print_ulong, print_int, is_digit, is_blank, skip_blanks, take_sign, read_digits,
  starts_digit, negated, strtol, number_of, atoi, atoul,
}

-- the text begins with a digit, and is followed by other digits
abbrev pub AllDigits : Text → Type 0
AllDigits [] = Unit {0}
AllDigits (c ∷ cs) = (48 ≤ c) × (c ≤ 57) × AllDigits cs

print_from-append :
    (f n : ℕ) (out rest : Text) → print_from f n out ++ rest ≡ print_from f n (out ++ rest)
unfolding print_from
print_from-append zero n out rest = refl
print_from-append (suc f) n out rest =
    ground (arith, print_from-append f (n / 10) ((48 + n % 10) ∷ out) rest)

read_digits-print_from :
    (f n : ℕ) (out : Text) → n ≤ f → read_digits (print_from (suc f) n out) 0 ≡ read_digits out n
unfolding print_from read_digits is_digit
read_digits-print_from zero n out h = ground arith
read_digits-print_from (suc f) n out h =
    ground (arith, read_digits-print_from f (n / 10) ((48 + n % 10) ∷ out))

starts_digit-print_from : (f n : ℕ) (out : Text) → starts_digit (print_from (suc f) n out) ≡ true
unfolding print_from starts_digit is_digit
starts_digit-print_from zero n out = ground arith
starts_digit-print_from (suc f) n out =
    ground (arith, starts_digit-print_from f (n / 10) ((48 + n % 10) ∷ out))

print_from-AllDigits : (f n : ℕ) (out : Text) → AllDigits out → AllDigits (print_from f n out)
unfolding print_from
print_from-AllDigits zero n out v = v
print_from-AllDigits (suc f) n out v =
    ground (arith, print_from-AllDigits f (n / 10) ((48 + n % 10) ∷ out))

pub print_ulong-AllDigits : (n : ℕ) → AllDigits (print_ulong n)
unfolding print_ulong
print_ulong-AllDigits n = print_from-AllDigits (suc n) n [] tt

starts_digit-print : (n : ℕ) (rest : Text) → starts_digit (print_ulong n ++ rest) ≡ true
unfolding print_ulong
starts_digit-print n rest =
    ap starts_digit (print_from-append (suc n) n [] rest) ∙ starts_digit-print_from n n rest

read_digits-stop :
    (n : ℕ) (rest : Text) → starts_digit rest ≡ false → read_digits rest n ≡ (n, rest)
unfolding read_digits starts_digit
read_digits-stop n [] e = refl
read_digits-stop n (c ∷ cs) e = rw e refl

read_digits-print :
    (n : ℕ) (rest : Text)
    → starts_digit rest ≡ false
    → read_digits (print_ulong n ++ rest) 0 ≡ (n, rest)
unfolding print_ulong
read_digits-print n rest e =
    ap (λ s. read_digits s 0) (print_from-append (suc n) n [] rest)
    ∙ read_digits-print_from n n rest (omega arith)
    ∙ read_digits-stop n rest e

-- a digit is no blank and no sign
plain-start : (s : Text) → starts_digit s ≡ true → take_sign (skip_blanks s) ≡ (false, s)
unfolding starts_digit is_digit skip_blanks is_blank take_sign
plain-start [] e = absurd cc
plain-start (c ∷ cs) e = ground arith

pub strtol-print_ulong :
    (n : ℕ) (rest : Text)
    → starts_digit rest ≡ false
    → strtol (print_ulong n ++ rest) ≡ some (pos n, rest)
unfolding strtol
strtol-print_ulong n rest e =
    rw
      (
        plain-start (print_ulong n ++ rest) (starts_digit-print n rest),
        starts_digit-print n rest,
        read_digits-print n rest e,
      )
      refl

minus-start :
    (n : ℕ) (rest : Text)
    → take_sign (skip_blanks (45 ∷ (print_ulong n ++ rest))) ≡ (true, print_ulong n ++ rest)
unfolding skip_blanks is_blank take_sign
minus-start n rest = refl

-- Where no digit follows, strtol reads back what %i printed, and stops behind it.
pub strtol-print_int :
    (n : ℤ) (rest : Text)
    → starts_digit rest ≡ false
    → strtol (print_int n ++ rest) ≡ some (n, rest)
unfolding print_int
strtol-print_int (pos n) rest e = strtol-print_ulong n rest e
strtol-print_int (negsuc n) rest e =
    unfold strtol negated in
    rw (minus-start (suc n) rest, starts_digit-print (suc n) rest, read_digits-print (suc n) rest e)
      refl

pub atoi-print_int : (n : ℤ) → atoi (print_int n) ≡ n
unfolding atoi number_of
atoi-print_int n = ap number_of (
    ap strtol (sym (append_nil (print_int n)))
    ∙ strtol-print_int n [] (unfold starts_digit in refl))

pub atoul-print_ulong : (n : ℕ) → n ≤ ulong_max → atoul (print_ulong n) ≡ n
unfolding atoul
atoul-print_ulong n h = rw (plain-start (print_ulong n) starts, digits) (ground arith)
  where
    starts : starts_digit (print_ulong n) ≡ true
    starts = ap starts_digit (sym (append_nil (print_ulong n))) ∙ starts_digit-print n []

    digits : read_digits (print_ulong n) 0 ≡ (n, [])
    digits =
        ap (λ s. read_digits s 0) (sym (append_nil (print_ulong n)))
        ∙ read_digits-print n [] (unfold starts_digit in refl)

pub starts_digit-print_ulong : (n : ℕ) → starts_digit (print_ulong n) ≡ true
starts_digit-print_ulong n =
    ap starts_digit (sym (append_nil (print_ulong n))) ∙ starts_digit-print n []

-- Where no digit follows, atoul reads back what %lu printed.
pub atoul-print_ulong_before :
    (n : ℕ) (rest : Text)
    → n ≤ ulong_max
    → starts_digit rest ≡ false
    → atoul (print_ulong n ++ rest) ≡ n
unfolding atoul
atoul-print_ulong_before n rest h e =
    rw (plain-start (print_ulong n ++ rest) (starts_digit-print n rest), read_digits-print n rest e)
      (ground arith)
