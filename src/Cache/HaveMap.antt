-- ===== src/Cache/HaveMap.antt =====
-- c_nntp_file::get_server_have_map: how many parts of a file each server has. The map is a list of
-- server ids with their counts, in the order of the ids.
use nget.Prelude.{
  ℕ, ℤ, ◌+◌, ◌≤◌, ◌<◌, ◌≡◌, refl, sym, ap, ◌∙◌, List, [], ◌∷◌, Bool, true, false, not, ◌&&◌, ◌||◌,
  ◌==◌, ltb, if◌then◌else◌, inl, inr, Bool-cases, arith,
}
use nget.Cache.{ServerArticle, Part, NntpFile, count_partnum}
use nget.Cache.Additem.Weight.{weigh_parts}

abbrev pub ServerHaveMap : Type 0
ServerHaveMap = List (ℕ × ℕ)

-- an entry is made for the server if it has none; its count goes up by n
unfoldable pub add_have : ℕ → ℕ → ServerHaveMap → ServerHaveMap
add_have sid n [] = (sid, n) ∷ []
add_have sid n ((s, have) ∷ more) =
    if s == sid
    then (s, have + n) ∷ more
    else if ltb sid s
    then (sid, n) ∷ (s, have) ∷ more
    else (s, have) ∷ add_have sid n more

-- servers_already_found
unfoldable pub is_found : ℕ → List ℕ → Bool
is_found sid [] = false
is_found sid (s ∷ found) = s == sid || is_found sid found

-- the loop over the articles of a part; n is 1 for a part that counts, and else 0
unfoldable pub have_articles : ℕ → List ℕ → List ServerArticle → ServerHaveMap → ServerHaveMap
unfolding is_found add_have
have_articles n found [] m = m
have_articles n found (a ∷ more) m =
    let again = is_found a.serverid found in
    have_articles n (if again then found else a.serverid ∷ found) more
      (if again then m else add_have a.serverid n m)

unfoldable pub have_parts : ℤ → List Part → ServerHaveMap → ServerHaveMap
unfolding have_articles count_partnum
have_parts req [] m = m
have_parts req (p ∷ ps) m =
    have_parts req ps (have_articles (if count_partnum p.partnum req then 1 else 0) [] p.articles m)

unfoldable pub get_server_have_map : NntpFile → ServerHaveMap → ServerHaveMap
unfolding have_parts
get_server_have_map f m = have_parts f.req f.parts m

-- what the map says of a server, and 0 where it has no entry
unfoldable pub have_of : ℕ → ServerHaveMap → ℕ
have_of sid [] = 0
have_of sid ((s, have) ∷ more) = if s == sid then have else have_of sid more

-- whether the part has an article of the server
unfoldable pub has_server : ℕ → List ServerArticle → Bool
has_server sid [] = false
has_server sid (a ∷ more) = a.serverid == sid || has_server sid more

-- the keys rise, from b on
abbrev pub HasKeys : ℕ → ServerHaveMap → Type 0
HasKeys b [] = Unit {0}
HasKeys b ((s, have) ∷ more) = (b ≤ s) × HasKeys (s + 1) more

have_of-below : (sid b : ℕ) (m : ServerHaveMap) → HasKeys b m → sid < b → have_of sid m ≡ 0
unfolding have_of
have_of-below sid b [] v h = refl
have_of-below sid b ((s, have) ∷ more) v h = ground (arith, have_of-below sid (s + 1) more v.1)

add_have-HasKeys :
    (sid n b : ℕ) (m : ServerHaveMap) → HasKeys b m → b ≤ sid → HasKeys b (add_have sid n m)
unfolding add_have
add_have-HasKeys sid n b [] v h = (h, tt)
add_have-HasKeys sid n b ((s, have) ∷ more) v h =
    ground (arith, add_have-HasKeys sid n (s + 1) more v.1)

have_of-add_have :
    (sid k n b : ℕ) (m : ServerHaveMap)
    → HasKeys b m
    → have_of k (add_have sid n m) ≡ have_of k m + (if sid == k then n else 0)
unfolding have_of add_have
have_of-add_have sid k n b [] v = ground arith
have_of-add_have sid k n b ((s, have) ∷ more) v =
    ground (arith, have_of-add_have sid k n (s + 1) more v.1, have_of-below k (s + 1) more v.1)

module _ (k n : ℕ) where
  -- what a part adds to the count of the server k, when some servers are found already
  abbrev gains : List ℕ → List ServerArticle → ℕ
  gains found xs = if has_server k xs && not (is_found k found) then n else 0

  gains-again :
      (found : List ℕ) (a : ServerArticle) (more : List ServerArticle)
      → is_found a.serverid found ≡ true
      → gains found (a ∷ more) ≡ gains found more
  unfolding has_server
  gains-again found a more e = elim (Bool-cases (a.serverid == k)) [
    | inl f ↦
        let g : a.serverid ≡ k = ground (arith, f) in
        let h : is_found k found ≡ true = sym (ap (λ s. is_found s found) g) ∙ e in
        ground (arith, h)
    | inr f ↦ ground (arith, f)
  ]

  gains-new :
      (found : List ℕ) (a : ServerArticle) (more : List ServerArticle)
      → is_found a.serverid found ≡ false
      → gains found (a ∷ more)
        ≡ gains (a.serverid ∷ found) more + (if a.serverid == k then n else 0)
  unfolding has_server is_found
  gains-new found a more e = elim (Bool-cases (a.serverid == k)) [
    | inl f ↦
        let g : a.serverid ≡ k = ground (arith, f) in
        let h : is_found k found ≡ false = sym (ap (λ s. is_found s found) g) ∙ e in
        ground (arith, h, f)
    | inr f ↦ ground (arith, f)
  ]

  have_articles-have_of :
      (found : List ℕ) (xs : List ServerArticle) (m : ServerHaveMap)
      → HasKeys 0 m
      → HasKeys 0 (have_articles n found xs m)
        × (have_of k (have_articles n found xs m) ≡ have_of k m + gains found xs)
  unfolding have_articles
  have_articles-have_of found [] m v = (v, unfold has_server in omega arith)
  have_articles-have_of found (a ∷ more) m v = elim (Bool-cases (is_found a.serverid found)) [
    | inl e ↦ rw e (
        let (keys, same) = have_articles-have_of found more m v in
        (keys, omega (arith, same, gains-again found a more e)))
    | inr e ↦ rw e (
        let (keys, same) =
          have_articles-have_of (a.serverid ∷ found) more (add_have a.serverid n m)
            (add_have-HasKeys a.serverid n 0 m v (omega arith)) in
        (
          keys,
          omega (arith, same, gains-new found a more e, have_of-add_have a.serverid k n 0 m v),
        ))
  ]

-- a part that counts and has an article of the server
abbrev pub counts_for : ℕ → ℤ → Part → ℕ
counts_for k req p =
    if has_server k p.articles then (if count_partnum p.partnum req then 1 else 0) else 0

have_parts-have_of :
    (k : ℕ) (req : ℤ) (ps : List Part) (m : ServerHaveMap)
    → HasKeys 0 m
    → have_of k (have_parts req ps m) ≡ have_of k m + weigh_parts (counts_for k req) ps
unfolding have_parts weigh_parts
have_parts-have_of k req [] m v = omega arith
have_parts-have_of k req (p ∷ ps) m v =
    let n = if count_partnum p.partnum req then 1 else 0 in
    let (keys, same) = have_articles-have_of k n [] p.articles m v in
    have_parts-have_of k req ps (have_articles n [] p.articles m) keys
    ∙ omega (arith, same, part_gains n)
  where
    part_gains : (n : ℕ) → gains k n [] p.articles ≡ (if has_server k p.articles then n else 0)
    part_gains n = unfold is_found in ground arith

-- Of an empty map get_server_have_map makes one that says for each server how many of the parts
-- numbered 1 to req (of number req, where req is not positive) have an article of the server, and 0
-- where the map has no entry for it: a server with several articles of a part is counted once.
pub have_of-get_server_have_map :
    (k : ℕ) (f : NntpFile)
    → have_of k (get_server_have_map f []) ≡ weigh_parts (counts_for k f.req) f.parts
unfolding get_server_have_map
have_of-get_server_have_map k f =
    have_parts-have_of k f.req f.parts [] tt ∙ (unfold have_of in omega arith)
