-- ===== src/Cache/Additem/Weight.antt =====
-- Sums over the parts and the articles of the files: what they weigh under any weight.
use nget.Prelude.{ℕ, ◌+◌, ◌≡◌, refl, ℤ, List, [], ◌∷◌, ◌++◌, some, arith}
use nget.Cache.{ServerArticle, Part, NntpFile}
use nget.Cache.Parts.Laws.{find_part, place_part, update_part}

unfoldable pub weigh_articles : (ServerArticle → ℕ) → List ServerArticle → ℕ
weigh_articles w [] = 0
weigh_articles w (x ∷ xs) = w x + weigh_articles w xs

unfoldable pub weigh_parts : (Part → ℕ) → List Part → ℕ
weigh_parts g [] = 0
weigh_parts g (p ∷ ps) = g p + weigh_parts g ps

unfoldable pub weigh_files : (Part → ℕ) → List NntpFile → ℕ
weigh_files g [] = 0
weigh_files g (f ∷ fs) = weigh_parts g f.parts + weigh_files g fs

-- a part weighs what its articles weigh
abbrev pub by_articles : (ServerArticle → ℕ) → Part → ℕ
by_articles w p = weigh_articles w p.articles

-- every part weighs one
abbrev pub each_part : Part → ℕ
each_part p = 1

pub weigh_articles-append :
    (w : ServerArticle → ℕ) (xs ys : List ServerArticle)
    → weigh_articles w (xs ++ ys) ≡ weigh_articles w xs + weigh_articles w ys
unfolding weigh_articles
weigh_articles-append w [] ys = omega arith
weigh_articles-append w (x ∷ xs) ys = omega (arith, weigh_articles-append w xs ys)

pub weigh_files-append :
    (g : Part → ℕ) (xs ys : List NntpFile)
    → weigh_files g (xs ++ ys) ≡ weigh_files g xs + weigh_files g ys
unfolding weigh_files
weigh_files-append g [] ys = omega arith
weigh_files-append g (x ∷ xs) ys = omega (arith, weigh_files-append g xs ys)

pub weigh_parts-place_part :
    (g : Part → ℕ) (p : Part) (ps : List Part)
    → weigh_parts g (place_part p ps) ≡ g p + weigh_parts g ps
unfolding weigh_parts place_part
weigh_parts-place_part g p [] = refl
weigh_parts-place_part g p (q ∷ qs) = ground (arith, weigh_parts-place_part g p qs)

pub weigh_parts-update_part :
    (g : Part → ℕ) (n : ℤ) (p q : Part) (ps : List Part)
    → find_part n ps ≡ some q
    → weigh_parts g (update_part n p ps) + g q ≡ weigh_parts g ps + g p
unfolding weigh_parts update_part find_part
weigh_parts-update_part g n p q [] e = cc
weigh_parts-update_part g n p q (r ∷ ps) e = ground (arith, weigh_parts-update_part g n p q ps)
