-- ===== src/Cache/Reader/Parts.antt =====
-- A part that comes behind the parts of a file, and what the vector operations do to it.
use nget.Prelude.{
  ◌≤ℤ◌, ◌<ℤ◌, ◌≡◌, refl, ap, ◌∙◌, ℤ, List, [], ◌∷◌, ◌++◌, some, arith, length, set, get_elem?,
}
use nget.Cache.{Part}
use nget.Cache.Parts.{
  lower_bound, part, with_partnum, addpart, set_part, removepart, erase_found, erase_at,
}
use nget.Cache.Parts.Search.{Rising, IsSorted, rank, lower_bound-eq-rank}
use nget.Cache.Parts.Laws.{place_part, addpart-eq-place_part}

-- no number is above n
abbrev pub AllUpTo : ℤ → List Part → Type 0
AllUpTo n [] = Unit {0}
AllUpTo n (p ∷ ps) = (p.partnum ≤ℤ n) × AllUpTo n ps

pub AllUpTo-mono : (m n : ℤ) (ps : List Part) → AllUpTo m ps → m ≤ℤ n → AllUpTo n ps
AllUpTo-mono m n [] v h = tt
AllUpTo-mono m n (p ∷ ps) v h = (omega arith, AllUpTo-mono m n ps v.1 h)

pub AllUpTo-snoc :
    (n : ℤ) (ps : List Part) (q : Part) → AllUpTo n ps → q.partnum ≤ℤ n → AllUpTo n (ps ++ q ∷ [])
AllUpTo-snoc n [] q v h = (h, tt)
AllUpTo-snoc n (p ∷ ps) q v h = (v.0, AllUpTo-snoc n ps q v.1 h)

Rising-snoc :
    (m n : ℤ) (ps : List Part) (q : Part)
    → Rising m ps
    → AllUpTo n ps
    → n <ℤ q.partnum
    → m <ℤ q.partnum
    → Rising m (ps ++ q ∷ [])
Rising-snoc m n [] q v b h k = (k, tt)
Rising-snoc m n (p ∷ ps) q v b h k = (v.0, Rising-snoc p.partnum n ps q v.1 b.1 h (omega arith))

pub IsSorted-snoc :
    (n : ℤ) (ps : List Part) (q : Part)
    → IsSorted ps
    → AllUpTo n ps
    → n <ℤ q.partnum
    → IsSorted (ps ++ q ∷ [])
IsSorted-snoc n [] q v b h = tt
IsSorted-snoc n (p ∷ ps) q v b h = Rising-snoc p.partnum n ps q v b.1 h (omega arith)

rank-snoc :
    (n : ℤ) (ps : List Part) (q : Part)
    → AllUpTo n ps
    → n <ℤ q.partnum
    → rank q.partnum (ps ++ q ∷ []) ≡ length ps
unfolding rank
rank-snoc n [] q b h = ground arith
rank-snoc n (p ∷ ps) q b h = ground (arith, rank-snoc n ps q b.1 h)

place_part-snoc :
    (n : ℤ) (ps : List Part) (q : Part)
    → AllUpTo n ps
    → n <ℤ q.partnum
    → place_part q ps ≡ ps ++ q ∷ []
unfolding place_part
place_part-snoc n [] q b h = refl
place_part-snoc n (p ∷ ps) q b h = ground (arith, place_part-snoc n ps q b.1 h)

set-snoc : (ps : List Part) (q r : Part) → set (ps ++ q ∷ []) (length ps) r ≡ ps ++ r ∷ []
set-snoc [] q r = refl
set-snoc (p ∷ ps) q r = ap (λ xs. p ∷ xs) (set-snoc ps q r)

get_elem?-snoc : (ps : List Part) (q : Part) → get_elem? (ps ++ q ∷ []) (length ps) ≡ some q
get_elem?-snoc [] q = refl
get_elem?-snoc (p ∷ ps) q = get_elem?-snoc ps q

erase_at-snoc : (ps : List Part) (q : Part) → erase_at (length ps) (ps ++ q ∷ []) ≡ ps
unfolding erase_at
erase_at-snoc [] q = refl
erase_at-snoc (p ∷ ps) q = ap (λ xs. p ∷ xs) (erase_at-snoc ps q)

module _ (n : ℤ) (ps : List Part) (q : Part) (v : IsSorted ps) (b : AllUpTo n ps)
    (h : n <ℤ q.partnum) where
  pub addpart-snoc : addpart q ps ≡ ps ++ q ∷ []
  addpart-snoc = addpart-eq-place_part q ps v ∙ place_part-snoc n ps q b h

  lower_bound-snoc : lower_bound (ps ++ q ∷ []) q.partnum ≡ length ps
  lower_bound-snoc =
      lower_bound-eq-rank (ps ++ q ∷ []) q.partnum (IsSorted-snoc n ps q v b h)
      ∙ rank-snoc n ps q b h

  pub set_part-snoc : (r : Part) → set_part q.partnum r (ps ++ q ∷ []) ≡ ps ++ r ∷ []
  unfolding set_part
  set_part-snoc r = ap (λ i. set (ps ++ q ∷ []) i r) lower_bound-snoc ∙ set-snoc ps q r

  part-snoc : part q.partnum (ps ++ q ∷ []) ≡ some q
  unfolding part with_partnum
  part-snoc =
      ap (λ i. with_partnum q.partnum (get_elem? (ps ++ q ∷ []) i)) lower_bound-snoc
      ∙ ap (with_partnum q.partnum) (get_elem?-snoc ps q)
      ∙ ground arith

  pub removepart-snoc : removepart q.partnum (ps ++ q ∷ []) ≡ ps
  unfolding removepart erase_found
  removepart-snoc =
      ap (λ o. erase_found (lower_bound (ps ++ q ∷ []) q.partnum) o (ps ++ q ∷ [])) part-snoc
      ∙ ap (λ i. erase_at i (ps ++ q ∷ [])) lower_bound-snoc
      ∙ erase_at-snoc ps q
