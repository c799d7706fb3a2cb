-- ===== src/Knapsack/Sums.antt =====
-- Sums over the positions that knapsack_minsize keeps, and over those that it leaves.
use nget.Prelude.{
  dec_le, ℕ, zero, suc, ◌+◌, ◌≤◌, ◌<◌, ◌≡◌, refl, ap, List, [], ◌∷◌, false, if◌then◌else◌, arith,
}
use nget.Knapsack.Chosen.{contains, left_out}
use nget.Knapsack.Walk.{IsDescending, IsDescending-weaken}

-- sums over positions
unfoldable pub sum_over : (ℕ → ℕ) → List ℕ → ℕ
sum_over f [] = 0
sum_over f (i ∷ is) = f i + sum_over f is

unfoldable pub total : (ℕ → ℕ) → ℕ → ℕ → ℕ
total f i zero = 0
total f i (suc n) = f i + total f (suc i) n

unfoldable pub taken : (ℕ → ℕ) → ℕ → ℕ → List ℕ → ℕ
taken f i zero R = 0
taken f i (suc n) R = (if contains R i then f i else 0) + taken f (suc i) n R

module _ (f : ℕ → ℕ) where
  pub left_out-taken :
      (i n : ℕ) (R : List ℕ) → sum_over f (left_out i n R) + taken f i n R ≡ total f i n
  unfolding sum_over total taken left_out
  left_out-taken i zero R = omega arith
  left_out-taken i (suc n) R = ground (arith, left_out-taken (suc i) n R)

  abbrev at_end : List ℕ → ℕ → ℕ
  at_end R k = if contains R k then f k else 0

  taken_last : (i n : ℕ) (R : List ℕ) → taken f i (suc n) R ≡ taken f i n R + at_end R (i + n)
  unfolding taken
  taken_last i zero R = omega (arith, ap (at_end R) (zero_right i))
    where
      zero_right : (i : ℕ) → i ≡ i + 0
      zero_right i = omega arith
  taken_last i (suc n) R = omega (arith, taken_last (suc i) n R, ap (at_end R) (suc_right i n))
    where
      suc_right : (i n : ℕ) → suc i + n ≡ i + suc n
      suc_right i n = omega arith

  pub taken_nil : (i n : ℕ) → taken f i n [] ≡ 0
  unfolding taken contains
  taken_nil i zero = refl
  taken_nil i (suc n) = ground (arith, taken_nil (suc i) n)

  taken_above : (i n k : ℕ) (R : List ℕ) → i + n ≤ k → taken f i n (k ∷ R) ≡ taken f i n R
  unfolding taken contains
  taken_above i zero k R h = refl
  taken_above i (suc n) k R h = ground (arith, taken_above (suc i) n k R (omega arith))

  contains_above : (n : ℕ) (R : List ℕ) → IsDescending n R → contains R n ≡ false
  unfolding contains IsDescending
  contains_above n [] d = refl
  contains_above n (k ∷ R) (lt, d) =
      ground (arith, contains_above n R (IsDescending-weaken R (omega arith) d))

  the_same : (n k : ℕ) → n ≤ k → k < suc n → 0 + n ≡ k
  the_same n k h g = omega arith

  pub taken-sum_over : (n : ℕ) (R : List ℕ) → IsDescending n R → taken f 0 n R ≡ sum_over f R
  unfolding sum_over IsDescending contains
  taken-sum_over n [] d = taken_nil 0 n
  taken-sum_over zero (k ∷ R) (lt, d) = absurd (omega arith)
  taken-sum_over (suc n) (k ∷ R) (lt, d) = elim (dec_le n k) [
    | Dec.yes le ↦ ground (
      arith,
      taken_last 0 n (k ∷ R),
      taken_above 0 n k R (omega arith),
      taken-sum_over n R (IsDescending-weaken R (omega arith) d),
      ap f (the_same n k le (omega arith)),
    )
    | Dec.no nle ↦ ground (
      arith,
      taken_last 0 n (k ∷ R),
      contains_above n (k ∷ R) (omega arith, d),
      taken-sum_over n (k ∷ R) (omega arith, d),
    )
  ]
