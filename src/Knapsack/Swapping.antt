-- ===== src/Knapsack/Swapping.antt =====
-- What a set of items and the set of the other items have together, with value and size exchanged.
use nget.Prelude.{
  ℕ, zero, suc, ◌+◌, ◌≡◌, refl, ap, List, [], ◌∷◌, Bool, true, false, not, arith, length,
}
use nget.Knapsack.Optimum.{reversed_onto, chosen_value, chosen_size}
use nget.Knapsack.Chosen.{value_of, size_of, sum_values, sum_sizes, swapped, left_out}
use nget.Knapsack.Walk.{value_sum, size_sum, IsDescending}
use nget.Knapsack.Sums.{sum_over, total, left_out-taken, taken-sum_over}

value_sum-sum_over :
    (items : List (ℕ × ℕ)) (is : List ℕ) → value_sum items is ≡ sum_over (value_of items) is
unfolding value_sum sum_over
value_sum-sum_over items [] = refl
value_sum-sum_over items (i ∷ is) = omega (arith, value_sum-sum_over items is)

size_sum-sum_over :
    (items : List (ℕ × ℕ)) (is : List ℕ) → size_sum items is ≡ sum_over (size_of items) is
unfolding size_sum sum_over
size_sum-sum_over items [] = refl
size_sum-sum_over items (i ∷ is) = omega (arith, size_sum-sum_over items is)

total_tail : (f g : ℕ → ℕ) (i n : ℕ) → ((k : ℕ) → f (suc k) ≡ g k) → total f (suc i) n ≡ total g i n
unfolding total
total_tail f g i zero same = refl
total_tail f g i (suc n) same = omega (arith, same i, total_tail f g (suc i) n same)

total_values_tail :
    (x : ℕ × ℕ) (items : List (ℕ × ℕ)) (n : ℕ)
    → total (value_of (x ∷ items)) 1 n ≡ total (value_of items) 0 n
unfolding value_of
total_values_tail (value, size) items n = total_tail _ _ 0 n (λ k. refl)

total_sizes_tail :
    (x : ℕ × ℕ) (items : List (ℕ × ℕ)) (n : ℕ)
    → total (size_of (x ∷ items)) 1 n ≡ total (size_of items) 0 n
unfolding size_of
total_sizes_tail (value, size) items n = total_tail _ _ 0 n (λ k. refl)

total-sum_values :
    (items : List (ℕ × ℕ)) → total (value_of items) 0 (length items) ≡ sum_values items
unfolding total sum_values value_of
total-sum_values [] = refl
total-sum_values ((value, size) ∷ items) =
    omega (arith, total_values_tail (value, size) items (length items), total-sum_values items)

total-sum_sizes : (items : List (ℕ × ℕ)) → total (size_of items) 0 (length items) ≡ sum_sizes items
unfolding total sum_sizes size_of
total-sum_sizes [] = refl
total-sum_sizes ((value, size) ∷ items) =
    omega (arith, total_sizes_tail (value, size) items (length items), total-sum_sizes items)

module _ (items : List (ℕ × ℕ)) (R : List ℕ) (d : IsDescending (length items) R) where
  pub value_sum-left_out :
      value_sum items (left_out 0 (length items) R) + value_sum items R ≡ sum_values items
  value_sum-left_out = omega (
    arith,
    value_sum-sum_over items (left_out 0 (length items) R),
    value_sum-sum_over items R,
    left_out-taken (value_of items) 0 (length items) R,
    taken-sum_over (value_of items) (length items) R d,
    total-sum_values items,
  )

  pub size_sum-left_out :
      size_sum items (left_out 0 (length items) R) + size_sum items R ≡ sum_sizes items
  size_sum-left_out = omega (
    arith,
    size_sum-sum_over items (left_out 0 (length items) R),
    size_sum-sum_over items R,
    left_out-taken (size_of items) 0 (length items) R,
    taken-sum_over (size_of items) (length items) R d,
    total-sum_sizes items,
  )

-- the items with value and size exchanged
pub length-swapped : (items : List (ℕ × ℕ)) → length (swapped items) ≡ length items
unfolding swapped
length-swapped [] = refl
length-swapped ((value, size) ∷ items) = ap suc (length-swapped items)

value_of-swapped : (items : List (ℕ × ℕ)) (i : ℕ) → value_of (swapped items) i ≡ size_of items i
unfolding swapped value_of size_of
value_of-swapped [] i = refl
value_of-swapped ((value, size) ∷ items) zero = refl
value_of-swapped ((value, size) ∷ items) (suc i) = value_of-swapped items i

size_of-swapped : (items : List (ℕ × ℕ)) (i : ℕ) → size_of (swapped items) i ≡ value_of items i
unfolding swapped value_of size_of
size_of-swapped [] i = refl
size_of-swapped ((value, size) ∷ items) zero = refl
size_of-swapped ((value, size) ∷ items) (suc i) = size_of-swapped items i

pub value_sum-swapped :
    (items : List (ℕ × ℕ)) (is : List ℕ) → value_sum (swapped items) is ≡ size_sum items is
unfolding value_sum size_sum
value_sum-swapped items [] = refl
value_sum-swapped items (i ∷ is) =
    omega (arith, value_of-swapped items i, value_sum-swapped items is)

pub size_sum-swapped :
    (items : List (ℕ × ℕ)) (is : List ℕ) → size_sum (swapped items) is ≡ value_sum items is
unfolding value_sum size_sum
size_sum-swapped items [] = refl
size_sum-swapped items (i ∷ is) = omega (arith, size_of-swapped items i, size_sum-swapped items is)

swapped-reversed_onto :
    (xs ys : List (ℕ × ℕ)) → reversed_onto (swapped xs) (swapped ys) ≡ swapped (reversed_onto xs ys)
unfolding swapped reversed_onto
swapped-reversed_onto [] ys = refl
swapped-reversed_onto ((value, size) ∷ xs) ys = swapped-reversed_onto xs ((value, size) ∷ ys)

sum_values-reversed_onto :
    (xs ys : List (ℕ × ℕ)) → sum_values (reversed_onto xs ys) ≡ sum_values xs + sum_values ys
unfolding sum_values reversed_onto
sum_values-reversed_onto [] ys = omega arith
sum_values-reversed_onto ((value, size) ∷ xs) ys =
    omega (arith, sum_values-reversed_onto xs ((value, size) ∷ ys))

sum_sizes-reversed_onto :
    (xs ys : List (ℕ × ℕ)) → sum_sizes (reversed_onto xs ys) ≡ sum_sizes xs + sum_sizes ys
unfolding sum_sizes reversed_onto
sum_sizes-reversed_onto [] ys = omega arith
sum_sizes-reversed_onto ((value, size) ∷ xs) ys =
    omega (arith, sum_sizes-reversed_onto xs ((value, size) ∷ ys))

-- the choice of what another one leaves
unfoldable pub negated_choice : List (ℕ × ℕ) → List Bool → List Bool
negated_choice [] bs = []
negated_choice (x ∷ xs) [] = true ∷ negated_choice xs []
negated_choice (x ∷ xs) (b ∷ bs) = not b ∷ negated_choice xs bs

chosen_nil : (xs : List (ℕ × ℕ)) → (chosen_value xs [] ≡ 0) × (chosen_size xs [] ≡ 0)
unfolding chosen_value chosen_size
chosen_nil [] = (refl, refl)
chosen_nil (x ∷ xs) = (refl, refl)

pub chosen-negated_choice_choice :
    (xs : List (ℕ × ℕ)) (bs : List Bool)
    → (chosen_value xs bs + chosen_size (swapped xs) (negated_choice xs bs) ≡ sum_values xs)
      × (chosen_size xs bs + chosen_value (swapped xs) (negated_choice xs bs) ≡ sum_sizes xs)
unfolding negated_choice swapped chosen_value chosen_size sum_values sum_sizes
chosen-negated_choice_choice [] bs = (refl, refl)
chosen-negated_choice_choice ((value, size) ∷ xs) [] = (
  omega (arith, (chosen-negated_choice_choice xs []).0, (chosen_nil xs).0),
  omega (arith, (chosen-negated_choice_choice xs []).1, (chosen_nil xs).1),
)
chosen-negated_choice_choice ((value, size) ∷ xs) (true ∷ bs) = (
  omega (arith, (chosen-negated_choice_choice xs bs).0),
  omega (arith, (chosen-negated_choice_choice xs bs).1),
)
chosen-negated_choice_choice ((value, size) ∷ xs) (false ∷ bs) = (
  omega (arith, (chosen-negated_choice_choice xs bs).0),
  omega (arith, (chosen-negated_choice_choice xs bs).1),
)

pub swapped-reversed :
    (xs : List (ℕ × ℕ)) → reversed_onto (swapped xs) [] ≡ swapped (reversed_onto xs [])
unfolding swapped
swapped-reversed xs = swapped-reversed_onto xs []

pub sums-reversed :
    (xs : List (ℕ × ℕ))
    → (sum_values (reversed_onto xs []) ≡ sum_values xs)
      × (sum_sizes (reversed_onto xs []) ≡ sum_sizes xs)
unfolding sum_values sum_sizes
sums-reversed xs =
    (omega (arith, sum_values-reversed_onto xs []), omega (arith, sum_sizes-reversed_onto xs []))
