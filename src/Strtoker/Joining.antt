-- ===== src/Strtoker/Joining.antt =====
-- Tokens joined by the separator, and what tok makes of them.
use nget.Prelude.{
  ℕ, zero, suc, ◌≡◌, ◌≢◌, refl, ap, ◌∙◌, List, [], ◌∷◌, ◌++◌, false, ltb, some, none, Text, arith,
  length,
}
use nget.Strtoker.{cut_at, add_token, tok_from, tok}

-- the token x and those of xs, with the separator between them
unfoldable pub joined : ℕ → Text → List Text → Text
joined sep x [] = x
joined sep x (y ∷ ys) = x ++ sep ∷ joined sep y ys

abbrev pub first_tokens : ℕ → List Text → List Text
first_tokens zero xs = []
first_tokens (suc n) [] = []
first_tokens (suc n) (x ∷ xs) = x ∷ first_tokens n xs

-- the separator is not in the text
abbrev pub IsFree : ℕ → Text → Type 0
IsFree sep [] = Unit {0}
IsFree sep (c ∷ cs) = (c ≢ sep) × IsFree sep cs

abbrev pub AllFree : ℕ → List Text → Type 0
AllFree sep [] = Unit {0}
AllFree sep (x ∷ xs) = IsFree sep x × AllFree sep xs

cut_at-free : (sep : ℕ) (x : Text) → IsFree sep x → cut_at sep x ≡ (x, none)
unfolding cut_at
cut_at-free sep [] v = refl
cut_at-free sep (c ∷ cs) v = ground (arith, cut_at-free sep cs v.1)

cut_at-joined : (sep : ℕ) (x r : Text) → IsFree sep x → cut_at sep (x ++ sep ∷ r) ≡ (x, some r)
unfolding cut_at
cut_at-joined sep [] r v = ground arith
cut_at-joined sep (c ∷ cs) r v = ground (arith, cut_at-joined sep cs r v.1)

tok_from-none : (n sep : ℕ) → tok_from n sep none ≡ ([], false)
unfolding tok_from
tok_from-none zero sep = refl
tok_from-none (suc n) sep = refl

first_tokens-nil : (n : ℕ) → first_tokens n [] ≡ []
first_tokens-nil zero = refl
first_tokens-nil (suc n) = refl

ltb-suc : (m n : ℕ) → ltb m n ≡ ltb (suc m) (suc n)
ltb-suc m n = ground arith

-- Where none of the tokens x and xs has the separator in it, tok with room for maxtoks tokens gives
-- the first maxtoks of them from the line that joins them, and tells whether there are more.
pub tok-joined :
    (maxtoks sep : ℕ) (x : Text) (xs : List Text)
    → AllFree sep (x ∷ xs)
    → tok maxtoks sep (joined sep x xs)
      ≡ (first_tokens maxtoks (x ∷ xs), ltb maxtoks (length (x ∷ xs)))
unfolding tok tok_from joined
tok-joined zero sep x xs v = ground arith
tok-joined (suc n) sep x [] v =
    ap (λ c. add_token (some c.0) (tok_from n sep c.1)) (cut_at-free sep x v.0)
    ∙ ap (add_token (some x)) (tok_from-none n sep)
    ∙ ground (arith, first_tokens-nil n)
tok-joined (suc n) sep x (y ∷ ys) v =
    ap (λ c. add_token (some c.0) (tok_from n sep c.1)) (cut_at-joined sep x (joined sep y ys) v.0)
    ∙ ap (add_token (some x)) (tok-joined n sep y ys v.1)
    ∙ ap (λ b. (x ∷ first_tokens n (y ∷ ys), b)) (ltb-suc n (length (y ∷ ys)))
