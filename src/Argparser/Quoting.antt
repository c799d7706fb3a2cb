-- ===== src/Argparser/Quoting.antt =====
-- Arguments written in quotes, and what parseargs reads from them.
use nget.Prelude.{
  ℕ, ◌≡◌, ◌≢◌, refl, ap, sym, ◌∙◌, List, [], ◌∷◌, ◌++◌, Bool, true, false, ◌==◌, if◌then◌else◌, inl,
  inr, Bool-cases, Text, ok, arith,
}
use nget.Argparser.{
  double_quote, backslash, is_quote, is_space, is_empty, ArgState, push_part, add_char,
  escaped_char, plain_char, starts_comment, next_char, returns, finish_args, parse_from, parseargs,
}

-- an argument in double quotes, with a backslash before each double quote in it, and a space behind
unfoldable pub quoted_chars : Text → Text → Text
quoted_chars [] rest = double_quote ∷ 32 ∷ rest
quoted_chars (c ∷ cs) rest =
    let more = quoted_chars cs rest in if c == double_quote then backslash ∷ c ∷ more else c ∷ more

unfoldable pub quoted_line : List Text → Text
unfolding quoted_chars
quoted_line [] = []
quoted_line (a ∷ more) = double_quote ∷ quoted_chars a (quoted_line more)

-- without a backslash
abbrev pub IsPlain : Text → Type 0
IsPlain [] = Unit {0}
IsPlain (c ∷ cs) = (c ≢ 92) × IsPlain cs

-- every argument has a character, and no backslash
abbrev pub AllArgs : List Text → Type 0
AllArgs [] = Unit {0}
AllArgs ([] ∷ more) = ⊥
AllArgs ((c ∷ cs) ∷ more) = IsPlain (c ∷ cs) × AllArgs more

abbrev outside : List Text → ArgState
outside argl = record { argl = argl; curpart = []; quote = 0; esc = false }

abbrev inside : List Text → Text → ArgState
inside argl cur = record { argl = argl; curpart = cur; quote = double_quote; esc = false }

++-nil : {A : Type 0} (xs : List A) → xs ++ [] ≡ xs
++-nil [] = refl
++-nil (x ∷ xs) = ap (λ zs. x ∷ zs) (++-nil xs)

++-assoc_one :
    {A : Type 0} (xs : List A) (c : A) (ys : List A) → (xs ++ c ∷ []) ++ ys ≡ xs ++ c ∷ ys
++-assoc_one [] c ys = refl
++-assoc_one (x ∷ xs) c ys = ap (λ zs. x ∷ zs) (++-assoc_one xs c ys)

-- behind the closing quote
abbrev closed : List Text → Text → ArgState
closed argl cur = record { argl = argl; curpart = cur; quote = 0; esc = false }

abbrev escaping : List Text → Text → ArgState
escaping argl cur = record { argl = argl; curpart = cur; quote = double_quote; esc = true }

next_char-inside :
    (c : ℕ) (argl : List Text) (cur : Text)
    → c ≢ 92
    → c ≢ 34
    → next_char c (inside argl cur) ≡ inside argl (cur ++ c ∷ [])
unfolding next_char plain_char add_char is_quote
next_char-inside c argl cur h k = ground arith

next_char-space :
    (argl : List Text) (c : ℕ) (cs : Text)
    → next_char 32 (closed argl (c ∷ cs)) ≡ outside (argl ++ (c ∷ cs) ∷ [])
unfolding next_char is_space push_part is_empty
next_char-space argl c cs = refl

next_char-closing :
    (argl : List Text) (cur : Text) → next_char double_quote (inside argl cur) ≡ closed argl cur
unfolding next_char plain_char is_space is_quote
next_char-closing argl cur = refl

next_char-opening : (argl : List Text) → next_char double_quote (outside argl) ≡ inside argl []
unfolding next_char plain_char is_space is_quote
next_char-opening argl = refl

module _ (ignorecomments : Bool) where
  returns-inside :
      (c : ℕ) (argl : List Text) (cur : Text) → returns ignorecomments c (inside argl cur) ≡ false
  unfolding returns starts_comment
  returns-inside c argl cur = ground arith

  parse_from-next :
      (c : ℕ) (cs : Text) (s : ArgState)
      → returns ignorecomments c s ≡ false
      → parse_from ignorecomments (c ∷ cs) s ≡ parse_from ignorecomments cs (next_char c s)
  unfolding parse_from
  parse_from-next c cs s e = rw e refl

  parse_char :
      (c : ℕ) (argl : List Text) (cur : Text) (more : Text)
      → c ≢ 92
      → parse_from ignorecomments
          (if c == double_quote then backslash ∷ c ∷ more else c ∷ more)
          (inside argl cur)
        ≡ parse_from ignorecomments more (inside argl (cur ++ c ∷ []))
  parse_char c argl cur more h = elim (Bool-cases (c == double_quote)) [
    | inl e ↦ rw e (
        parse_from-next backslash (c ∷ more) (inside argl cur) (returns-inside backslash argl cur)
        ∙ ap (parse_from ignorecomments (c ∷ more)) (backslash_next argl cur)
        ∙ parse_from-next c more (escaping argl cur) (unfold returns in refl)
        ∙ ap (parse_from ignorecomments more) (quote_next (ground (arith, e))))
    | inr e ↦ rw e (
        parse_from-next c more (inside argl cur) (returns-inside c argl cur)
        ∙ ap (parse_from ignorecomments more) (next_char-inside c argl cur h (ground (arith, e))))
  ]
    where
      backslash_next :
          (argl : List Text) (cur : Text)
          → next_char backslash (inside argl cur) ≡ escaping argl cur
      backslash_next argl cur = unfold next_char plain_char is_space in refl

      quote_next : c ≡ 34 → next_char c (escaping argl cur) ≡ inside argl (cur ++ c ∷ [])
      quote_next e = unfold next_char escaped_char is_quote in ground arith

  -- an argument inside its quotes, up to the space behind it
  parse_quoted :
      (cs : Text) (argl : List Text) (c : ℕ) (cur rest : Text)
      → IsPlain cs
      → parse_from ignorecomments (quoted_chars cs rest) (inside argl (c ∷ cur))
        ≡ parse_from ignorecomments rest (outside (argl ++ (c ∷ cur ++ cs) ∷ []))
  unfolding quoted_chars
  parse_quoted [] argl c cur rest v =
      parse_from-next double_quote (32 ∷ rest) (inside argl (c ∷ cur))
        (returns-inside double_quote argl (c ∷ cur))
      ∙ ap (parse_from ignorecomments (32 ∷ rest)) (next_char-closing argl (c ∷ cur))
      ∙ parse_from-next 32 rest (closed argl (c ∷ cur)) (unfold returns is_space in refl)
      ∙ ap (parse_from ignorecomments rest) (
          next_char-space argl c cur
          ∙ ap (λ zs. outside (argl ++ (c ∷ zs) ∷ [])) (sym (++-nil cur)))
  parse_quoted (d ∷ cs) argl c cur rest v =
      parse_char d argl (c ∷ cur) (quoted_chars cs rest) v.0
      ∙ parse_quoted cs argl c (cur ++ d ∷ []) rest v.1
      ∙ ap (λ zs. parse_from ignorecomments rest (outside (argl ++ (c ∷ zs) ∷ [])))
          (++-assoc_one cur d cs)

  parse_line :
      (xs argl : List Text)
      → AllArgs xs
      → parse_from ignorecomments (quoted_line xs) (outside argl) ≡ ok (argl ++ xs)
  unfolding quoted_line
  parse_line [] argl v =
      unfold parse_from finish_args push_part is_empty in ap ok (sym (++-nil argl))
  parse_line ([] ∷ more) argl v = absurd v
  parse_line ((c ∷ cs) ∷ more) argl v =
      parse_from-next double_quote (quoted_chars (c ∷ cs) (quoted_line more)) (outside argl)
        (unfold returns starts_comment is_space in ground arith)
      ∙ ap (parse_from ignorecomments (quoted_chars (c ∷ cs) (quoted_line more)))
          (next_char-opening argl)
      ∙ (unfold quoted_chars in parse_char c argl [] (quoted_chars cs (quoted_line more)) v.0.0)
      ∙ parse_quoted cs argl c [] (quoted_line more) v.0.1
      ∙ parse_line more (argl ++ (c ∷ cs) ∷ []) v.1
      ∙ ap ok (++-assoc_one argl (c ∷ cs) more)

  -- For arguments that are not empty and have no backslash, parseargs of the line that writes each in
  -- double quotes, with a backslash before a double quote, gives the arguments back, whether it
  -- ignores comments or not.
  pub parseargs-quoted_line :
      (xs : List Text) → AllArgs xs → parseargs (quoted_line xs) ignorecomments ≡ ok xs
  unfolding parseargs
  parseargs-quoted_line xs v = parse_line xs [] v
