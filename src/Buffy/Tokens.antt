-- ===== src/Buffy/Tokens.antt =====
-- What bgets and btoks read from a line that was written.
use nget.Prelude.{
  ℕ, ◌+◌, ◌≤◌, ◌<◌, ◌≡◌, ◌≢◌, refl, ap, sym, ◌∙◌, List, [], ◌∷◌, ◌++◌, Bool, true, ◌==◌, Text,
  arith, length, append_assoc, append_nil,
}
use nget.Buffy.{ends_token, is_swallowed, ends_line, next_num, next_token, toks_from, btoks}

-- no separator and no end of a line in the text
abbrev pub IsField : ℕ → Text → Type 0
IsField tok [] = Unit {0}
IsField tok (c ∷ cs) = (c ≢ tok) × (c ≢ 10) × (c ≢ 13) × IsField tok cs

abbrev pub AllFields : ℕ → List Text → Type 0
AllFields tok [] = Unit {0}
AllFields tok (x ∷ xs) = IsField tok x × AllFields tok xs

-- a line of fields, without its end
unfoldable pub joined_fields : ℕ → Text → List Text → Text
joined_fields tok x [] = x
joined_fields tok x (y ∷ ys) = x ++ (tok ∷ joined_fields tok y ys)

toks_from-char :
    (tok max num c : ℕ) (cur tail : Text)
    → num ≤ max
    → c ≢ tok
    → c ≢ 10
    → c ≢ 13
    → toks_from tok max true num cur (c ∷ tail) ≡ toks_from tok max true num (cur ++ c ∷ []) tail
unfolding toks_from next_num next_token ends_token is_swallowed ends_line
toks_from-char tok max num c cur tail h a b d = ground arith

toks_from-field :
    (tok max num : ℕ) (x cur tail : Text)
    → num ≤ max
    → IsField tok x
    → toks_from tok max true num cur (x ++ tail) ≡ toks_from tok max true num (cur ++ x) tail
toks_from-field tok max num [] cur tail h v =
    ap (λ s. toks_from tok max true num s tail) (sym (append_nil cur))
toks_from-field tok max num (c ∷ cs) cur tail h v =
    toks_from-char tok max num c cur (cs ++ tail) h v.0 v.1 v.2
    ∙ toks_from-field tok max num cs (cur ++ c ∷ []) tail h v.3
    ∙ ap (λ s. toks_from tok max true num s tail) (append_assoc cur (c ∷ []) cs)

toks_from-tok :
    (tok max num : ℕ) (cur tail : Text)
    → num < max
    → toks_from tok max true num cur (tok ∷ tail) ≡ (
      (toks_from tok max true (num + 1) [] tail).0,
      cur ∷ (toks_from tok max true (num + 1) [] tail).1,
      (toks_from tok max true (num + 1) [] tail).2,
    )
unfolding toks_from next_num next_token ends_token is_swallowed ends_line
toks_from-tok tok max num cur tail h = ground arith

-- the end of a line, or of the source
unfoldable pub is_end : Text → Bool
is_end [] = true
is_end (c ∷ cs) = c == 10

abbrev pub behind : Text → Text
behind [] = []
behind (c ∷ cs) = cs

toks_from-end :
    (tok max num : ℕ) (cur tail : Text)
    → tok ≢ 10
    → is_end tail ≡ true
    → toks_from tok max true num cur tail ≡ (num, cur ∷ [], behind tail)
unfolding toks_from ends_line is_end
toks_from-end tok max num cur [] a e = refl
toks_from-end tok max num cur (c ∷ tail) a e = ground arith

toks_from-joined :
    (tok max num : ℕ) (x : Text) (xs : List Text) (tail : Text)
    → tok ≢ 10
    → AllFields tok (x ∷ xs)
    → num + length xs ≤ max
    → is_end tail ≡ true
    → toks_from tok max true num [] (joined_fields tok x xs ++ tail)
      ≡ (num + length xs, x ∷ xs, behind tail)
unfolding joined_fields
toks_from-joined tok max num x [] tail a v h e =
    toks_from-field tok max num x [] tail (omega arith) v.0
    ∙ toks_from-end tok max num x tail a e
    ∙ ap (λ n. (n, x ∷ [], behind tail)) (omega arith)
toks_from-joined tok max num x (y ∷ ys) tail a v h e =
    ap (toks_from tok max true num []) (append_assoc x (tok ∷ joined_fields tok y ys) tail)
    ∙ toks_from-field tok max num x [] (tok ∷ (joined_fields tok y ys ++ tail)) (omega arith) v.0
    ∙ toks_from-tok tok max num x (joined_fields tok y ys ++ tail) (omega arith)
    ∙ ap (λ t. (t.0, x ∷ t.1, t.2))
        (toks_from-joined tok max (num + 1) y ys tail a v.1 (omega arith) e)
    ∙ ap (λ n. (n, x ∷ y ∷ ys, behind tail)) (omega arith)

-- Of a line of at most max fields with the separator between them, where no field has the separator
-- (which is not the end of a line) or an end of a line in it, btoks gives the number of fields and the
-- fields, and leaves what comes behind the line, or nothing at the end of the source.
pub btoks-joined_fields :
    (tok max : ℕ) (x : Text) (xs : List Text) (tail : Text)
    → tok ≢ 10
    → AllFields tok (x ∷ xs)
    → length (x ∷ xs) ≤ max
    → is_end tail ≡ true
    → btoks tok max true (joined_fields tok x xs ++ tail) ≡ (length (x ∷ xs), x ∷ xs, behind tail)
unfolding btoks
btoks-joined_fields tok max x xs tail a v h e =
    toks_from-joined tok max 1 x xs tail a v (omega arith) e
    ∙ ap (λ n. (n, x ∷ xs, behind tail)) (omega arith)
