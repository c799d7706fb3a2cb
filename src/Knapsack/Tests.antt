-- ===== src/Knapsack/Tests.antt =====
-- Runs of knapsack, and its theorem at concrete items.
use Prim.Native.Nat.{min}
use nget.Prelude.{true, ℕ, ◌≡◌, ◌≤◌, refl, List, [], ◌∷◌, Bool, length, arith, ◌-ℤ◌}
use nget.Knapsack.{knapsack_value}
use nget.Knapsack.Chosen.{sum_values, int_max, knapsack_result, knapsack_minsize, swapped}
use nget.Knapsack.Walk.{value_sum, size_sum, IsDescending, AllSized}
use nget.Knapsack.Result.{knapsack_result-sums}
use nget.Knapsack.Minsize.{knapsack_minsize-sums, knapsack_minsize-least}
use nget.Knapsack.Optimum.{reversed_onto, chosen_size, chosen_value, Attains, knapsack_value-IsBest}

abbrev three_items : List (ℕ × ℕ)
three_items = (6, 2) ∷ (5, 3) ∷ (4, 1) ∷ []

three_value : knapsack_value three_items 4 ≡ 10
unfolding knapsack_value
three_value = refl

knapsack_value-IsBest_example :
    Attains (reversed_onto three_items []) 4 (knapsack_value three_items 4)
    × ((bs : List Bool)
        → chosen_size (reversed_onto three_items []) bs ≤ 4
        → chosen_value (reversed_onto three_items []) bs ≤ knapsack_value three_items 4)
knapsack_value-IsBest_example = knapsack_value-IsBest three_items 4

-- items 0 and 2 have value 10 and size 3
three_result : knapsack_result three_items 4 ≡ 2 ∷ 0 ∷ []
unfolding knapsack_result
three_result = refl

three_minsize : knapsack_minsize three_items 9 ≡ (record { size = 3; result = 0 ∷ 2 ∷ [] })
unfolding knapsack_minsize ◌-ℤ◌
three_minsize = refl

-- more than all items have together
three_short : (knapsack_minsize three_items 16).result ≡ 0 ∷ 1 ∷ 2 ∷ []
unfolding knapsack_minsize ◌-ℤ◌
three_short = refl

three_short_enough : length three_items ≤ int_max
three_short_enough = omega arith

three_sized : AllSized three_items
unfolding AllSized
three_sized = (omega arith, (omega arith, (omega arith, tt)))

three_valued : AllSized (swapped three_items)
unfolding AllSized swapped
three_valued = (omega arith, (omega arith, (omega arith, tt)))

knapsack_result-sums_example :
    IsDescending (length three_items) (knapsack_result three_items 4)
    × (size_sum three_items (knapsack_result three_items 4) ≤ 4)
    × (value_sum three_items (knapsack_result three_items 4) ≡ knapsack_value three_items 4)
knapsack_result-sums_example = knapsack_result-sums three_items 4 three_short_enough three_sized

knapsack_minsize-sums_example :
    (size_sum three_items (knapsack_minsize three_items 9).result
      ≡ (knapsack_minsize three_items 9).size)
    × (min 9 (sum_values three_items)
        ≤ value_sum three_items (knapsack_minsize three_items 9).result)
knapsack_minsize-sums_example = knapsack_minsize-sums three_items 9 three_short_enough three_valued

-- items 1 and 2
one_and_two : 9 ≤ chosen_value (reversed_onto three_items []) (true ∷ true ∷ [])
unfolding chosen_value reversed_onto
one_and_two = omega arith

knapsack_minsize-least_example :
    (knapsack_minsize three_items 9).size
    ≤ chosen_size (reversed_onto three_items []) (true ∷ true ∷ [])
knapsack_minsize-least_example =
    knapsack_minsize-least three_items 9 (true ∷ true ∷ []) three_short_enough three_valued
      one_and_two
