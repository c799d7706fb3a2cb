-- ===== src/Cache/Parts.antt =====
-- c_nntp_file_parts: the parts of a file, a vector sorted by part number, searched by halving.
pub mod Search
pub mod Laws
use nget.Prelude.{
  ℕ, zero, suc, ◌+◌, ◌-◌, ◌/◌, ℤ, ltb_ℤ, eqb_ℤ, List, [], ◌∷◌, Option, some, none, Bool, true,
  false, ◌==◌, ◌&&◌, if◌then◌else◌, length, get_elem?, set,
}
use nget.Cache.{Part, ServerArticle}

-- parts[i]->partnum < partnum; the search asks for no i behind the end
unfoldable pub is_below : List Part → ℕ → ℤ → Bool
is_below [] i n = false
is_below (p ∷ ps) zero n = ltb_ℤ p.partnum n
is_below (p ∷ ps) (suc i) n = is_below ps i n

-- the loop of lower_bound, with fuel
unfoldable pub search_from : ℕ → ℕ → ℕ → List Part → ℤ → ℕ
unfolding is_below
search_from zero first len ps n = first
search_from (suc fuel) first len ps n =
    let half = len / 2 in
    let upper = search_from fuel (first + half + 1) (len - half - 1) ps n in
    let lower = search_from fuel first half ps n in
    if len == 0 then first else if is_below ps (first + half) n then upper else lower

-- Each pass makes `len` smaller, so its first value is enough fuel.
unfoldable pub lower_bound : List Part → ℤ → ℕ
unfolding search_from
lower_bound ps n = search_from (length ps) 0 (length ps) ps n

-- vector::insert and vector::erase at an index
unfoldable pub insert_at : ℕ → Part → List Part → List Part
insert_at zero p ps = p ∷ ps
insert_at (suc i) p [] = p ∷ []
insert_at (suc i) p (q ∷ qs) = q ∷ insert_at i p qs

unfoldable pub erase_at : ℕ → List Part → List Part
erase_at i [] = []
erase_at zero (p ∷ ps) = ps
erase_at (suc i) (p ∷ ps) = p ∷ erase_at i ps

unfoldable pub with_partnum : ℤ → Option Part → Option Part
with_partnum n none = none
with_partnum n (some p) = if eqb_ℤ p.partnum n then some p else none

unfoldable pub part : ℤ → List Part → Option Part
unfolding with_partnum lower_bound
part n ps = with_partnum n (get_elem? ps (lower_bound ps n))

is_some : Option Part → Bool
is_some none = false
is_some (some p) = true

unfoldable pub haspart : ℤ → List Part → Bool
unfolding is_some part
haspart n ps = is_some (part n ps)

unfoldable pub addpart : Part → List Part → List Part
unfolding lower_bound insert_at
addpart p ps = insert_at (lower_bound ps p.partnum) p ps

unfoldable pub erase_found : ℕ → Option Part → List Part → List Part
erase_found i none ps = ps
erase_found i (some p) ps = erase_at i ps

unfoldable pub removepart : ℤ → List Part → List Part
unfolding erase_found erase_at part lower_bound
removepart n ps = erase_found (lower_bound ps n) (part n ps) ps

-- a change of the part with number `n` through its pointer
unfoldable pub set_part : ℤ → Part → List Part → List Part
unfolding lower_bound
set_part n p ps = set ps (lower_bound ps n) p
