-- ===== src/Cache/Parts/Laws.antt =====
-- The parts of a file as a map from part numbers.
use nget.Prelude.{
  ◌≡◌, refl, ◌∙◌, ap, sym, neg_part, ℤ, ◌<ℤ◌, ◌≤ℤ◌, ltb_ℤ, eqb_ℤ, List, [], ◌∷◌, if◌then◌else◌,
  arith, Option, none, some, set, get_elem?,
}
use nget.Cache.{Part}
use nget.Cache.Parts.{part, addpart, set_part, insert_at, with_partnum}
use nget.Cache.Parts.Search.{Rising, IsSorted, rank, lower_bound-eq-rank}

-- the same operations by recursion on the list
unfoldable pub find_part : ℤ → List Part → Option Part
find_part n [] = none
find_part n (p ∷ ps) = if eqb_ℤ p.partnum n then some p else find_part n ps

unfoldable pub place_part : Part → List Part → List Part
place_part p [] = p ∷ []
place_part p (q ∷ qs) = if ltb_ℤ q.partnum p.partnum then q ∷ place_part p qs else p ∷ q ∷ qs

unfoldable pub update_part : ℤ → Part → List Part → List Part
update_part n p [] = []
update_part n p (q ∷ qs) = if eqb_ℤ q.partnum n then p ∷ qs else q ∷ update_part n p qs

pub find_part-above : (n m : ℤ) (ps : List Part) → Rising m ps → n ≤ℤ m → find_part n ps ≡ none
unfolding find_part
find_part-above n m [] v h = refl
find_part-above n m (p ∷ ps) v h = ground (arith, find_part-above n p.partnum ps v.1)

get_elem?-rank :
    (n m : ℤ) (ps : List Part)
    → Rising m ps
    → with_partnum n (get_elem? ps (rank n ps)) ≡ find_part n ps
unfolding with_partnum rank find_part
get_elem?-rank n m [] v = refl
get_elem?-rank n m (p ∷ ps) v =
    ground (arith, get_elem?-rank n p.partnum ps v.1, find_part-above n p.partnum ps v.1)

-- a number below every part
abbrev pub first_less : List Part → ℤ
first_less [] = ℤ.pos 0
first_less (p ∷ ps) = ℤ.negsuc (neg_part p.partnum)

pub IsSorted-Rising : (ps : List Part) → IsSorted ps → Rising (first_less ps) ps
IsSorted-Rising [] v = tt
IsSorted-Rising (p ∷ ps) v = (ground arith, v)

pub Rising-IsSorted : (m : ℤ) (ps : List Part) → Rising m ps → IsSorted ps
Rising-IsSorted m [] v = tt
Rising-IsSorted m (p ∷ ps) v = v.1

-- On parts in rising order the halving search for a number finds the part that a walk through the
-- list finds, or none where that finds none.
pub part-eq-find_part : (n : ℤ) (ps : List Part) → IsSorted ps → part n ps ≡ find_part n ps
unfolding part
part-eq-find_part n ps v =
    ap (λ i. with_partnum n (get_elem? ps i)) (lower_bound-eq-rank ps n v)
    ∙ get_elem?-rank n (first_less ps) ps (IsSorted-Rising ps v)

insert_at-rank : (p : Part) (ps : List Part) → insert_at (rank p.partnum ps) p ps ≡ place_part p ps
unfolding insert_at rank place_part
insert_at-rank p [] = refl
insert_at-rank p (q ∷ qs) = ground (arith, insert_at-rank p qs)

pub addpart-eq-place_part :
    (p : Part) (ps : List Part) → IsSorted ps → addpart p ps ≡ place_part p ps
unfolding addpart
addpart-eq-place_part p ps v =
    ap (λ i. insert_at i p ps) (lower_bound-eq-rank ps p.partnum v) ∙ insert_at-rank p ps

set-rank :
    (n m : ℤ) (p q : Part) (ps : List Part)
    → Rising m ps
    → find_part n ps ≡ some q
    → set ps (rank n ps) p ≡ update_part n p ps
unfolding rank update_part find_part
set-rank n m p q [] v e = refl
set-rank n m p q (r ∷ ps) v e =
    ground (arith, set-rank n r.partnum p q ps v.1, find_part-above n r.partnum ps v.1)

pub set_part-eq-update_part :
    (n : ℤ) (p q : Part) (ps : List Part)
    → IsSorted ps
    → part n ps ≡ some q
    → set_part n p ps ≡ update_part n p ps
unfolding set_part
set_part-eq-update_part n p q ps v e =
    ap (λ i. set ps i p) (lower_bound-eq-rank ps n v)
    ∙ set-rank n (first_less ps) p q ps (IsSorted-Rising ps v) (sym (part-eq-find_part n ps v) ∙ e)

place_part-Rising :
    (m : ℤ) (p : Part) (ps : List Part)
    → Rising m ps
    → m <ℤ p.partnum
    → find_part p.partnum ps ≡ none
    → Rising m (place_part p ps)
unfolding place_part find_part
place_part-Rising m p [] v h e = ground arith
place_part-Rising m p (q ∷ qs) v h e = ground (arith, place_part-Rising q.partnum p qs v.1)

place_part-IsSorted :
    (p : Part) (ps : List Part)
    → IsSorted ps
    → find_part p.partnum ps ≡ none
    → IsSorted (place_part p ps)
unfolding place_part find_part
place_part-IsSorted p [] v e = tt
place_part-IsSorted p (q ∷ qs) v e = ground (arith, place_part-Rising q.partnum p qs v)

find_part-place_part :
    (n : ℤ) (p : Part) (ps : List Part)
    → IsSorted ps
    → find_part n (place_part p ps) ≡ (if eqb_ℤ p.partnum n then some p else find_part n ps)
unfolding find_part place_part
find_part-place_part n p [] v = refl
find_part-place_part n p (q ∷ qs) v =
    ground (arith, find_part-place_part n p qs (Rising-IsSorted q.partnum qs v))

-- If the parts are in rising order and none has p's number, addpart(p) keeps them in rising order.
pub addpart-IsSorted :
    (p : Part) (ps : List Part) → IsSorted ps → part p.partnum ps ≡ none → IsSorted (addpart p ps)
addpart-IsSorted p ps v e =
    rw (addpart-eq-place_part p ps v)
      (place_part-IsSorted p ps v (sym (part-eq-find_part p.partnum ps v) ∙ e))

-- If the parts are in rising order and none has p's number, after addpart(p) that number finds p,
-- and every other number finds what it found before.
pub part-addpart :
    (n : ℤ) (p : Part) (ps : List Part)
    → IsSorted ps
    → part p.partnum ps ≡ none
    → part n (addpart p ps) ≡ (if eqb_ℤ p.partnum n then some p else part n ps)
part-addpart n p ps v e =
    part-eq-find_part n (addpart p ps) (addpart-IsSorted p ps v e)
    ∙ ap (find_part n) (addpart-eq-place_part p ps v)
    ∙ find_part-place_part n p ps v
    ∙ ap (λ o. if eqb_ℤ p.partnum n then some p else o) (sym (part-eq-find_part n ps v))
