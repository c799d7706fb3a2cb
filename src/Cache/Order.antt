-- ===== src/Cache/Order.antt =====
-- c_nntp_file_base::operator< and operator==: the order of the files in a cache.
use nget.Prelude.{
  ◌≡◌, refl, ℤ, ltb_ℤ, eqb_ℤ, List, [], ◌∷◌, Bool, true, false, ◌&&◌, ◌||◌, not, Text, lt_text,
  eq_text, if◌then◌else◌, arith, eq_text→eq,
}
use nget.Cache.{FileBase}

-- operator< and == of vector<string>
unfoldable pub lt_texts : List Text → List Text → Bool
lt_texts xs [] = false
lt_texts [] (y ∷ ys) = true
lt_texts (x ∷ xs) (y ∷ ys) =
    if lt_text x y then true else if lt_text y x then false else lt_texts xs ys

unfoldable pub eq_texts : List Text → List Text → Bool
eq_texts [] [] = true
eq_texts [] (y ∷ ys) = false
eq_texts (x ∷ xs) [] = false
eq_texts (x ∷ xs) (y ∷ ys) = eq_text x y && eq_texts xs ys

unfoldable pub base_lt : FileBase → FileBase → Bool
base_lt a b =
    if ltb_ℤ a.req b.req
    then true
    else if ltb_ℤ b.req a.req
    then false
    else if ltb_ℤ a.partoff b.partoff
    then true
    else if ltb_ℤ b.partoff a.partoff
    then false
    else if lt_text a.author b.author
    then true
    else if lt_text b.author a.author
    then false
    else if lt_text a.subject b.subject
    then true
    else if lt_text b.subject a.subject
    then false
    else lt_texts a.references b.references

unfoldable pub base_eq : FileBase → FileBase → Bool
base_eq a b =
    eqb_ℤ a.req b.req
    && (eqb_ℤ a.partoff b.partoff
        && (eq_text a.author b.author
            && (eq_text a.subject b.subject && eq_texts a.references b.references)))

-- of two texts one is less, or they are equal, and only one of these
abbrev pub Trichotomy : Bool → Bool → Bool → Type 0
Trichotomy lt gt eq = ((lt || gt) ≡ not eq) × ((lt && gt) ≡ false)

lt_text-Trichotomy : (s t : Text) → Trichotomy (lt_text s t) (lt_text t s) (eq_text s t)
unfolding lt_text eq_text
lt_text-Trichotomy [] [] = (refl, refl)
lt_text-Trichotomy [] (y ∷ ys) = (refl, refl)
lt_text-Trichotomy (x ∷ xs) [] = (refl, refl)
lt_text-Trichotomy (x ∷ xs) (y ∷ ys) = ground (arith, lt_text-Trichotomy xs ys)

lt_texts-Trichotomy : (s t : List Text) → Trichotomy (lt_texts s t) (lt_texts t s) (eq_texts s t)
unfolding lt_texts eq_texts
lt_texts-Trichotomy [] [] = (refl, refl)
lt_texts-Trichotomy [] (y ∷ ys) = (refl, refl)
lt_texts-Trichotomy (x ∷ xs) [] = (refl, refl)
lt_texts-Trichotomy (x ∷ xs) (y ∷ ys) =
    ground (arith, lt_text-Trichotomy x y, lt_texts-Trichotomy xs ys)

-- Of two file keys either operator== holds and neither is less, or it does not hold and exactly
-- one of them is less than the other.
pub base_lt-Trichotomy : (a b : FileBase) → Trichotomy (base_lt a b) (base_lt b a) (base_eq a b)
unfolding base_lt base_eq
base_lt-Trichotomy a b = ground (
  arith,
  lt_text-Trichotomy a.author b.author,
  lt_text-Trichotomy a.subject b.subject,
  lt_texts-Trichotomy a.references b.references,
)

lt_text_trans : (r s t : Text) → lt_text r s ≡ true → lt_text s t ≡ true → lt_text r t ≡ true
unfolding lt_text
lt_text_trans r [] t h k = absurd (ground arith)
lt_text_trans r (y ∷ ys) [] h k = absurd (ground arith)
lt_text_trans [] (y ∷ ys) (z ∷ zs) h k = refl
lt_text_trans (x ∷ xs) (y ∷ ys) (z ∷ zs) h k = ground (arith, lt_text_trans xs ys zs)

-- one step of a lexicographic comparison
abbrev lex : Bool → Bool → Bool → Bool
lex lt gt rest = if lt then true else if gt then false else rest

-- how the comparisons of a and b, b and c, a and c go together
record Chained (lt gt lt' gt' lt'' gt'' : Bool) : Type 0 where
  up : lt ≡ true → lt' ≡ true → lt'' ≡ true
  under : lt ≡ true → lt' ≡ false → gt' ≡ false → lt'' ≡ true
  over : lt ≡ false → gt ≡ false → lt' ≡ true → lt'' ≡ true
  level : lt ≡ false → gt ≡ false → lt' ≡ false → gt' ≡ false → (lt'' ≡ false) × (gt'' ≡ false)

lex_trans :
    (lt gt lt' gt' lt'' gt'' r r' r'' : Bool)
    → Chained lt gt lt' gt' lt'' gt''
    → (r ≡ true → r' ≡ true → r'' ≡ true)
    → lex lt gt r ≡ true
    → lex lt' gt' r' ≡ true
    → lex lt'' gt'' r'' ≡ true
lex_trans lt gt lt' gt' lt'' gt'' r r' r'' c f h k =
    ground (arith, c.up, c.under, c.over, c.level, f)

abbrev ChainedTexts : Text → Text → Text → Type 0
ChainedTexts r s t =
    Chained (lt_text r s) (lt_text s r) (lt_text s t) (lt_text t s) (lt_text r t) (lt_text t r)

lt_text-Chained : (r s t : Text) → ChainedTexts r s t
lt_text-Chained r s t = record {
  up = lt_text_trans r s t;
  under = λ h k l. ground (arith, facts);
  over = λ h k l. ground (arith, facts);
  level = λ h k l m. ground (arith, facts);
}
  where
    facts :
        Trichotomy (lt_text r s) (lt_text s r) (eq_text r s)
        × Trichotomy (lt_text s t) (lt_text t s) (eq_text s t)
        × (eq_text r s ≡ true → r ≡ s)
        × (eq_text s t ≡ true → s ≡ t)
    facts = (lt_text-Trichotomy r s, lt_text-Trichotomy s t, eq_text→eq r s, eq_text→eq s t)

abbrev ChainedInts : ℤ → ℤ → ℤ → Type 0
ChainedInts a b c = Chained (ltb_ℤ a b) (ltb_ℤ b a) (ltb_ℤ b c) (ltb_ℤ c b) (ltb_ℤ a c) (ltb_ℤ c a)

ltb_ℤ-Chained : (a b c : ℤ) → ChainedInts a b c
ltb_ℤ-Chained a b c = record {
  up = λ h k. ground arith;
  under = λ h k l. ground arith;
  over = λ h k l. ground arith;
  level = λ h k l m. ground arith;
}

lt_texts_trans :
    (r s t : List Text) → lt_texts r s ≡ true → lt_texts s t ≡ true → lt_texts r t ≡ true
unfolding lt_texts
lt_texts_trans r [] t h k = cc
lt_texts_trans r (y ∷ ys) [] h k = cc
lt_texts_trans [] (y ∷ ys) (z ∷ zs) h k = refl
lt_texts_trans (x ∷ xs) (y ∷ ys) (z ∷ zs) h k =
    lex_trans _ _ _ _ _ _ _ _ _ (lt_text-Chained x y z) (lt_texts_trans xs ys zs) h k

-- The order of the file keys is transitive.
pub base_lt_trans :
    (a b c : FileBase) → base_lt a b ≡ true → base_lt b c ≡ true → base_lt a c ≡ true
unfolding base_lt
base_lt_trans a b c = lex_trans _ _ _ _ _ _ _ _ _ (ltb_ℤ-Chained a.req b.req c.req) (
    lex_trans _ _ _ _ _ _ _ _ _ (ltb_ℤ-Chained a.partoff b.partoff c.partoff) (
      lex_trans _ _ _ _ _ _ _ _ _ (lt_text-Chained a.author b.author c.author) (
        lex_trans _ _ _ _ _ _ _ _ _ (lt_text-Chained a.subject b.subject c.subject)
          (lt_texts_trans a.references b.references c.references))))
