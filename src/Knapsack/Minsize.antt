-- ===== src/Knapsack/Minsize.antt =====
-- knapsack_minsize keeps what a best choice of the complement leaves.
use Prim.Native.Nat.{min}
use nget.Prelude.{
  ℕ, ◌+◌, ◌-◌, ◌≤◌, ◌<◌, ◌≡◌, ap, sym, subst, List, [], Bool, arith, length, pos, negsuc, ◌-ℤ◌,
  dec_le,
}
use nget.Knapsack.{knapsack_value}
use nget.Knapsack.Optimum.{reversed_onto, chosen_value, chosen_size, knapsack_value-IsBest}
use nget.Knapsack.Chosen.{
  int_max, knapsack_result, sum_values, sum_sizes, swapped, left_out, Minsize, minsize_of,
  knapsack_minsize,
}
use nget.Knapsack.Walk.{value_sum, size_sum, IsDescending, AllSized}
use nget.Knapsack.Result.{knapsack_result-sums}
use nget.Knapsack.Swapping.{
  value_sum-left_out, size_sum-left_out, length-swapped, value_sum-swapped, size_sum-swapped,
  swapped-reversed, sums-reversed, negated_choice, chosen-negated_choice_choice,
}

minsize_enough :
    (items : List (ℕ × ℕ)) (target : ℕ)
    → target ≤ sum_values items
    → knapsack_minsize items target ≡ minsize_of items (pos (sum_values items - target))
unfolding knapsack_minsize ◌-ℤ◌
minsize_enough items target h = ap (minsize_of items) difference
  where
    difference : pos (sum_values items) -ℤ pos target ≡ pos (sum_values items - target)
    difference = ground arith

minsize_short :
    (items : List (ℕ × ℕ)) (target : ℕ)
    → sum_values items < target
    → knapsack_minsize items target ≡ minsize_of items (negsuc (target - sum_values items - 1))
unfolding knapsack_minsize ◌-ℤ◌
minsize_short items target h = ap (minsize_of items) difference
  where
    difference : pos (sum_values items) -ℤ pos target ≡ negsuc (target - sum_values items - 1)
    difference = ground arith

-- the items in `result` have the size that is returned, enough value where all have, and no choice
-- with enough value is smaller
unfoldable IsMinsize : List (ℕ × ℕ) → ℕ → Minsize → Type 0
IsMinsize items target m =
    (size_sum items m.result ≡ m.size)
    × (min target (sum_values items) ≤ value_sum items m.result)
    × ((bs : List Bool)
        → target ≤ chosen_value (reversed_onto items []) bs
        → m.size ≤ chosen_size (reversed_onto items []) bs)

module _ (items : List (ℕ × ℕ)) (target : ℕ) where
  abbrev targetprime : ℕ
  targetprime = sum_values items - target

  abbrev resultprime : List ℕ
  resultprime = knapsack_result (swapped items) targetprime

  chosen_least :
      (bs : List Bool)
      → target ≤ chosen_value (reversed_onto items []) bs
      → sum_sizes items
        ≤ chosen_size (reversed_onto items []) bs + knapsack_value (swapped items) targetprime
  chosen_least bs h = omega (
    arith,
    subst
        (λ xs.
          chosen_size xs (negated_choice before bs) ≤ targetprime
          → chosen_value xs (negated_choice before bs) ≤ knapsack_value (swapped items) targetprime)
        (swapped-reversed items)
        ((knapsack_value-IsBest (swapped items) targetprime).1 (negated_choice before bs))
        (omega (arith, (chosen-negated_choice_choice before bs).0, (sums-reversed items).0)),
    (chosen-negated_choice_choice before bs).1,
    (sums-reversed items).1,
  )
    where
      before : List (ℕ × ℕ)
      before = reversed_onto items []

  enough-IsMinsize :
      length items ≤ int_max
      → AllSized (swapped items)
      → target ≤ sum_values items
      → IsMinsize items target (minsize_of items (pos targetprime))
  unfolding IsMinsize minsize_of
  enough-IsMinsize short valued h = (
    omega (arith, same, size_sum-left_out items resultprime d),
    omega (arith, fits, value_sum-left_out items resultprime d),
    λ bs g. omega (arith, chosen_least bs g),
  )
    where
      sums :
          IsDescending (length (swapped items)) resultprime
          × (size_sum (swapped items) resultprime ≤ targetprime)
          × (value_sum (swapped items) resultprime ≡ knapsack_value (swapped items) targetprime)
      sums =
          knapsack_result-sums (swapped items) targetprime (omega (arith, length-swapped items))
            valued

      d : IsDescending (length items) resultprime
      d = subst (λ n. IsDescending n resultprime) (length-swapped items) sums.0

      fits : value_sum items resultprime ≤ targetprime
      fits = omega (arith, sums.1, size_sum-swapped items resultprime)

      same : size_sum items resultprime ≡ knapsack_value (swapped items) targetprime
      same = omega (arith, sums.2, value_sum-swapped items resultprime)

  short-IsMinsize :
      sum_values items < target
      → IsMinsize items target (minsize_of items (negsuc (target - sum_values items - 1)))
  unfolding IsMinsize minsize_of
  short-IsMinsize h = (
    omega (arith, all_sizes),
    omega (arith, all_values),
    λ bs g. absurd (omega (arith, (chosen-negated_choice_choice _ bs).0, (sums-reversed items).0)),
  )
    where
      all_values : value_sum items (left_out 0 (length items) []) + 0 ≡ sum_values items
      all_values = unfold value_sum in value_sum-left_out items [] (unfold IsDescending in tt)

      all_sizes : size_sum items (left_out 0 (length items) []) + 0 ≡ sum_sizes items
      all_sizes = unfold size_sum in size_sum-left_out items [] (unfold IsDescending in tt)

knapsack_minsize-IsMinsize :
    (items : List (ℕ × ℕ)) (target : ℕ)
    → length items ≤ int_max
    → AllSized (swapped items)
    → IsMinsize items target (knapsack_minsize items target)
knapsack_minsize-IsMinsize items target short valued = elim (dec_le target (sum_values items)) [
  | Dec.yes h ↦
      subst (IsMinsize items target) (sym (minsize_enough items target h))
        (enough-IsMinsize items target short valued h)
  | Dec.no h ↦
      subst (IsMinsize items target) (sym (minsize_short items target (omega arith)))
        (short-IsMinsize items target (omega arith))
]

-- Where there are INT_MAX items at most and none has value 0, the items that knapsack_minsize puts
-- into `result` have together the size that it returns, and their values reach the target, or what
-- all items have together where that is less.
pub knapsack_minsize-sums :
    (items : List (ℕ × ℕ)) (target : ℕ)
    → length items ≤ int_max
    → AllSized (swapped items)
    → (size_sum items (knapsack_minsize items target).result ≡ (knapsack_minsize items target).size)
      × (min target (sum_values items) ≤ value_sum items (knapsack_minsize items target).result)
unfolding IsMinsize
knapsack_minsize-sums items target short valued = (m.0, m.1)
  where
    m : IsMinsize items target (knapsack_minsize items target)
    m = knapsack_minsize-IsMinsize items target short valued

-- Where there are INT_MAX items at most and none has value 0, no choice of the items whose values
-- reach the target has a smaller size than knapsack_minsize returns. (A choice names the items from
-- the last to the first.)
pub knapsack_minsize-least :
    (items : List (ℕ × ℕ)) (target : ℕ) (bs : List Bool)
    → length items ≤ int_max
    → AllSized (swapped items)
    → target ≤ chosen_value (reversed_onto items []) bs
    → (knapsack_minsize items target).size ≤ chosen_size (reversed_onto items []) bs
unfolding IsMinsize
knapsack_minsize-least items target bs short valued h =
    (knapsack_minsize-IsMinsize items target short valued).2 bs h
