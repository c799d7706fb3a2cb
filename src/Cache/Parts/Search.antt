-- ===== src/Cache/Parts/Search.antt =====
-- lower_bound of c_nntp_file_parts finds the first part whose number is not below the given one.
use nget.Prelude.{
  ℕ, ◌≤ℤ◌, ltb, zero, suc, ◌+◌, ◌-◌, ◌/◌, ◌≤◌, ◌<◌, ◌≡◌, refl, ℤ, ◌<ℤ◌, ltb_ℤ, List, [], ◌∷◌,
  if◌then◌else◌, length, arith,
}
use nget.Cache.{Part}
use nget.Cache.Parts.{is_below, search_from, lower_bound}

-- the numbers rise, from above `n`
abbrev pub Rising : ℤ → List Part → Type 0
Rising n [] = Unit {0}
Rising n (p ∷ ps) = (n <ℤ p.partnum) × Rising p.partnum ps

abbrev pub IsSorted : List Part → Type 0
IsSorted [] = Unit {0}
IsSorted (p ∷ ps) = Rising p.partnum ps

-- how many of the parts come before the number `n`
unfoldable pub rank : ℤ → List Part → ℕ
rank n [] = 0
rank n (p ∷ ps) = if ltb_ℤ p.partnum n then suc (rank n ps) else 0

pub rank-le : (n : ℤ) (ps : List Part) → rank n ps ≤ length ps
unfolding rank
rank-le n [] = omega arith
rank-le n (p ∷ ps) = ground (arith, rank-le n ps)

pub rank-above : (n m : ℤ) (ps : List Part) → Rising m ps → n ≤ℤ m → rank n ps ≡ 0
unfolding rank
rank-above n m [] v h = refl
rank-above n m (p ∷ ps) v h = ground arith

is_below-rank :
    (n : ℤ) (m : ℤ) (ps : List Part) (i : ℕ)
    → Rising m ps
    → i < length ps
    → is_below ps i n ≡ ltb i (rank n ps)
unfolding is_below rank
is_below-rank n m [] i v h = absurd (omega arith)
is_below-rank n m (p ∷ ps) zero v h = ground arith
is_below-rank n m (p ∷ ps) (suc i) v h =
    ground (arith, is_below-rank n p.partnum ps i v.1, rank-above n p.partnum ps v.1)

is_below-sorted :
    (n : ℤ) (ps : List Part) (i : ℕ)
    → IsSorted ps
    → i < length ps
    → is_below ps i n ≡ ltb i (rank n ps)
unfolding is_below rank
is_below-sorted n [] i v h = absurd (omega arith)
is_below-sorted n (p ∷ ps) zero v h = ground arith
is_below-sorted n (p ∷ ps) (suc i) v h =
    ground (arith, is_below-rank n p.partnum ps i v, rank-above n p.partnum ps v)

-- the loop, when the answer lies between `first` and `first + len`
search_from-rank :
    (fuel first len : ℕ) (ps : List Part) (n : ℤ)
    → IsSorted ps
    → len ≤ fuel
    → first ≤ rank n ps
    → rank n ps ≤ first + len
    → first + len ≤ length ps
    → search_from fuel first len ps n ≡ rank n ps
unfolding search_from
search_from-rank zero first len ps n v f lo hi e = omega arith
search_from-rank (suc fuel) first len ps n v f lo hi e = ground (
  arith,
  is_below-sorted n ps (first + len / 2) v,
  search_from-rank fuel (first + len / 2 + 1) (len - len / 2 - 1) ps n v,
  search_from-rank fuel first (len / 2) ps n v,
)

-- On parts in rising order the halving search stops at the first part whose number is not below
-- the given one, or at the end: at the index that counts the parts before it.
pub lower_bound-eq-rank : (ps : List Part) (n : ℤ) → IsSorted ps → lower_bound ps n ≡ rank n ps
unfolding lower_bound
lower_bound-eq-rank ps n v =
    search_from-rank (length ps) 0 (length ps) ps n v (omega arith) (omega arith)
      (omega (arith, rank-le n ps)) (omega arith)
