-- ===== src/Cache/Reader/Lines.antt =====
-- The tokens of the lines that the writer makes.
use nget.Prelude.{
  ℕ, ◌≢◌, ◌≡◌, refl, ap, sym, ◌∙◌, ℤ, pos, negsuc, List, [], ◌∷◌, ◌++◌, true, false, ◌==◌,
  if◌then◌else◌, some, none, Text, arith, length, append_nil, suc,
}
use nget.Decimal.{print_ulong, print_int, starts_digit, is_digit}
use nget.Decimal.RoundTrip.{AllDigits, print_ulong-AllDigits, starts_digit-print_ulong}
use nget.Buffy.{btoks, bgets}
use nget.Buffy.Tokens.{IsField, AllFields, joined_fields, is_end, btoks-joined_fields}
use nget.Cache.Writer.{starts_dot}
use nget.Cache.Reader.{tokens_of, line_text}

AllDigits-IsField : (s : Text) → AllDigits s → IsField 9 s
AllDigits-IsField [] v = tt
AllDigits-IsField (c ∷ cs) v = (ground arith, ground arith, ground arith, AllDigits-IsField cs v.2)

pub print_ulong-IsField : (n : ℕ) → IsField 9 (print_ulong n)
print_ulong-IsField n = AllDigits-IsField (print_ulong n) (print_ulong-AllDigits n)

pub print_int-IsField : (n : ℤ) → IsField 9 (print_int n)
unfolding print_int
print_int-IsField (pos n) = print_ulong-IsField n
print_int-IsField (negsuc n) =
    (ground arith, ground arith, ground arith, print_ulong-IsField (suc n))

pub btoks-line :
    (x : Text) (xs : List Text)
    → AllFields 9 (x ∷ xs)
    → btoks 9 (length (x ∷ xs)) true (joined_fields 9 x xs) ≡ (length (x ∷ xs), x ∷ xs, [])
btoks-line x xs v =
    ap (btoks 9 (length (x ∷ xs)) true) (sym (append_nil (joined_fields 9 x xs)))
    ∙ btoks-joined_fields 9 (length (x ∷ xs)) x xs [] (omega arith) v (omega arith)
        (unfold is_end in refl)

pub tokens_of-joined_fields :
    (x : Text) (xs : List Text)
    → AllFields 9 (x ∷ xs)
    → tokens_of (length (x ∷ xs)) (joined_fields 9 x xs) ≡ some (x ∷ xs)
unfolding tokens_of
tokens_of-joined_fields x xs v =
    ap (λ t. if t.0 == length (x ∷ xs) then some t.1 else none) (btoks-line x xs v) ∙ ground arith

pub IsField-append : (tok : ℕ) (s t : Text) → IsField tok s → IsField tok t → IsField tok (s ++ t)
IsField-append tok [] t v w = w
IsField-append tok (c ∷ cs) t v w = (v.0, v.1, v.2, IsField-append tok cs t v.3 w)

-- a line of fields does not start with a dot where its first field, not empty, does not
abbrev pub StartsPlain : Text → Type 0
StartsPlain [] = ⊥
StartsPlain (c ∷ cs) = c ≢ 46

pub joined_fields-plain :
    (x : Text) (xs : List Text) → StartsPlain x → starts_dot (joined_fields 9 x xs) ≡ false
unfolding starts_dot joined_fields
joined_fields-plain [] xs h = absurd h
joined_fields-plain (c ∷ cs) [] h = ground arith
joined_fields-plain (c ∷ cs) (y ∷ ys) h = ground arith

pub line_text-IsField : (s : Text) → IsField 10 s → line_text s ≡ s
unfolding line_text bgets
line_text-IsField [] v = refl
line_text-IsField (c ∷ cs) v = ground (arith, line_text-IsField cs v.3)

StartsPlain-digit : (s : Text) → starts_digit s ≡ true → StartsPlain s
unfolding starts_digit is_digit
StartsPlain-digit [] e = cc
StartsPlain-digit (c ∷ cs) e = ground arith

pub print_ulong-StartsPlain : (n : ℕ) → StartsPlain (print_ulong n)
print_ulong-StartsPlain n = StartsPlain-digit (print_ulong n) (starts_digit-print_ulong n)

pub print_int-StartsPlain : (n : ℤ) → StartsPlain (print_int n)
unfolding print_int
print_int-StartsPlain (pos n) = print_ulong-StartsPlain n
print_int-StartsPlain (negsuc n) = ground arith
