-- ===== src/Paths/Splitting.antt =====
-- path_split takes apart what path_join joins.
use nget.Prelude.{ℕ, ◌≡◌, ◌≢◌, refl, ap, ◌∙◌, [], ◌∷◌, ◌++◌, true, false, Text, arith}
use nget.Paths.{
  pathsep, is_pathsep, lacks_sep, path_append, path_join, is_empty, reverse_onto, split_from,
  path_split,
}

-- no separator in the text
abbrev pub IsName : Text → Type 0
IsName [] = Unit {0}
IsName (c ∷ cs) = (c ≢ 47) × IsName cs

split_from-char :
    (c : ℕ) (head tail : Text) → c ≢ 47 → split_from (c ∷ head) tail ≡ split_from head (c ∷ tail)
unfolding split_from is_pathsep
split_from-char c head tail h = ground arith

split_from-name :
    (b rest tail : Text)
    → IsName b
    → split_from (reverse_onto b rest) tail ≡ split_from rest (b ++ tail)
unfolding reverse_onto
split_from-name [] rest tail v = refl
split_from-name (c ∷ cs) rest tail v =
    split_from-name cs (c ∷ rest) tail v.1 ∙ split_from-char c rest (cs ++ tail) v.0

reverse_onto-append :
    (xs ys zs : Text) → reverse_onto (xs ++ ys) zs ≡ reverse_onto ys (reverse_onto xs zs)
unfolding reverse_onto
reverse_onto-append [] ys zs = refl
reverse_onto-append (x ∷ xs) ys zs = reverse_onto-append xs ys (x ∷ zs)

reverse_onto-twice :
    (xs ys zs : Text) → reverse_onto (reverse_onto xs ys) zs ≡ reverse_onto ys (xs ++ zs)
unfolding reverse_onto
reverse_onto-twice [] ys zs = refl
reverse_onto-twice (x ∷ xs) ys zs = reverse_onto-twice xs (x ∷ ys) zs

append-nil : (xs : Text) → xs ++ [] ≡ xs
append-nil [] = refl
append-nil (x ∷ xs) = ap (λ ys. x ∷ ys) (append-nil xs)

-- there is a head before the separator, so the split is there
split_from-sep :
    (head : Text) (d : ℕ) (ds : Text)
    → is_empty head ≡ false
    → split_from (pathsep ∷ head) (d ∷ ds) ≡ (head, d ∷ ds)
unfolding split_from is_pathsep is_empty
split_from-sep [] d ds e = absurd cc
split_from-sep (c ∷ cs) d ds e = refl

is_empty-reverse : (xs : Text) (y : ℕ) (ys : Text) → is_empty (reverse_onto xs (y ∷ ys)) ≡ false
unfolding reverse_onto is_empty
is_empty-reverse [] y ys = refl
is_empty-reverse (x ∷ xs) y ys = is_empty-reverse xs x (y ∷ ys)

path_split-sep :
    (a : Text) (d : ℕ) (ds : Text)
    → is_empty (reverse_onto a []) ≡ false
    → IsName (d ∷ ds)
    → path_split (a ++ pathsep ∷ d ∷ ds) ≡ (a, d ∷ ds)
unfolding path_split
path_split-sep a d ds e v =
    ap (λ s. (reverse_onto s.0 [], s.1))
      (ap (λ r. split_from r []) (reverse_onto-append a (pathsep ∷ d ∷ ds) [])
        ∙ split_from-name (d ∷ ds) (pathsep ∷ reverse_onto a []) [] v
        ∙ ap (λ t. split_from (pathsep ∷ reverse_onto a []) t) (append-nil (d ∷ ds))
        ∙ split_from-sep (reverse_onto a []) d ds e)
    ∙ ap (λ h. (h, d ∷ ds)) (reverse_onto-twice a [] [] ∙ append-nil a)

-- Where a directory's name is not empty and does not end in the separator, and a file's name is not
-- empty and has no separator in it, path_split of the two joined gives them back.
pub path_split-path_join :
    (c : ℕ) (cs : Text) (d : ℕ) (ds : Text)
    → lacks_sep (c ∷ cs) ≡ true
    → IsName (d ∷ ds)
    → path_split (path_join (c ∷ cs) (d ∷ ds)) ≡ (c ∷ cs, d ∷ ds)
unfolding path_join path_append reverse_onto
path_split-path_join c cs d ds e v =
    rw e (path_split-sep (c ∷ cs) d ds (is_empty-reverse cs c []) v)
