-- ===== src/Nrange/Total.antt =====
-- c_nrange::get_total: the sum over the ranges counts the numbers of the set.
use nget.Prelude.{
  ◌%◌, ℕ, zero, suc, ◌+◌, ◌-◌, ◌≤◌, ◌<◌, ◌≡◌, refl, [], ◌∷◌, leb, if◌then◌else◌, ulong_max,
  ulong_mod, add_ulong, sub_ulong, arith,
}
use nget.Nrange.{Range, Rlist, get_total, total_from}
use nget.Nrange.Members.{mem, Above, IsValid, mem_below}

-- how many of the numbers below `n` are in the set
pub count_below : ℕ → Rlist → ℕ
count_below zero r = 0
count_below (suc n) r = (if mem n r then 1 else 0) + count_below n r

-- the sizes of the ranges, added up with no wrap-around
unfoldable pub size : Rlist → ℕ
size [] = 0
size (x ∷ xs) = (x.high + 1 - x.low) + size xs

pub count_below-range :
    (n b : ℕ) (x : Range) (xs : Rlist)
    → Above b (x ∷ xs)
    → count_below n (x ∷ xs)
      ≡ (if leb n x.low then 0 else if leb n x.high then n - x.low else x.high + 1 - x.low)
        + count_below n xs
unfolding count_below mem
count_below-range zero b x xs v = ground arith
count_below-range (suc n) b x xs v =
    ground (arith, count_below-range n b x xs v, mem_below (x.high + 2) n xs v.3)

count_below-nil : (n : ℕ) → count_below n [] ≡ 0
unfolding count_below mem
count_below-nil zero = refl
count_below-nil (suc n) = omega (arith, count_below-nil n)

pub count_below-size : (n b : ℕ) (r : Rlist) → Above b r → ulong_max < n → count_below n r ≡ size r
unfolding size
count_below-size n b [] v h = count_below-nil n
count_below-size n b (x ∷ xs) v h =
    ground (arith, count_below-range n b x xs v, count_below-size n (x.high + 2) xs v.3 h)

total_from-size :
    (tot b : ℕ) (r : Rlist)
    → Above b r
    → tot < ulong_mod
    → total_from tot r ≡ (tot + size r) % ulong_mod
unfolding total_from size
total_from-size tot b [] v h = omega arith
total_from-size tot b (x ∷ xs) v h = omega (
  arith,
  total_from-size (add_ulong tot (add_ulong (sub_ulong x.high x.low) 1)) (x.high + 2) xs v.3
      (omega arith),
)

-- On a well-formed list get_total() is the number of unsigned longs in the set, modulo 2^64.
pub get_total-eq-count : (r : Rlist) → IsValid r → get_total r ≡ count_below ulong_mod r % ulong_mod
unfolding get_total
get_total-eq-count r v =
    rw (count_below-size ulong_mod 0 r v (omega arith))
      (omega (arith, total_from-size 0 0 r v (omega arith)))

pub count_below-zero : (n b : ℕ) (r : Rlist) → Above b r → n ≤ b → count_below n r ≡ 0
count_below-zero n b [] v h = count_below-nil n
count_below-zero n b (x ∷ xs) v h =
    ground (arith, count_below-range n b x xs v, count_below-zero n (x.high + 2) xs v.3)
