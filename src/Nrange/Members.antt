-- ===== src/Nrange/Members.antt =====
-- The numbers that an Rlist stands for, and when it is well formed.
use nget.Prelude.{
  ℕ, ◌+◌, ◌≤◌, ◌<◌, ◌≡◌, refl, [], ◌∷◌, Bool, false, leb, ◌&&◌, ◌||◌, ulong_max, arith,
}
use nget.Nrange.{Rlist, check}

-- `n` lies between `l` and `h`
abbrev pub within : ℕ → ℕ → ℕ → Bool
within l h n = leb l n && leb n h

-- `n` is in one of the ranges
unfoldable pub mem : ℕ → Rlist → Bool
mem n [] = false
mem n (x ∷ xs) = within x.low x.high n || mem n xs

-- the ranges are in order, not empty, at or above `b`, and no two touch
abbrev pub Above : ℕ → Rlist → Type 0
Above b [] = Unit {0}
Above b (x ∷ xs) = (b ≤ x.low) × (x.low ≤ x.high) × (x.high ≤ ulong_max) × Above (x.high + 2) xs

abbrev pub IsValid : Rlist → Type 0
IsValid r = Above 0 r

pub Above-mono : (b c : ℕ) (r : Rlist) → c ≤ b → Above b r → Above c r
Above-mono b c [] h v = tt
Above-mono b c (x ∷ xs) h v = (omega arith, v.1, v.2, v.3)

-- below its bound a list has no number
pub mem_below : (b n : ℕ) (r : Rlist) → Above b r → n < b → mem n r ≡ false
unfolding mem
mem_below b n [] v h = refl
mem_below b n (x ∷ xs) v h = ground (arith, mem_below (x.high + 2) n xs v.3)

check-Above : (b n : ℕ) (r : Rlist) → Above b r → check n r ≡ mem n r
unfolding check mem
check-Above b n [] v = refl
check-Above b n (x ∷ xs) v =
    ground (arith, check-Above (x.high + 2) n xs v.3, mem_below (x.high + 2) n xs v.3)

-- On a well-formed list check(n) says whether one of the ranges holds n.
pub check-eq-mem : (n : ℕ) (r : Rlist) → IsValid r → check n r ≡ mem n r
check-eq-mem n r v = check-Above 0 n r v
