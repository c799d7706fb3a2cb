-- ===== src/Knapsack/Chosen.antt =====
-- knapsack.cc: the walk back through the table that names the chosen items, and knapsack_minsize.
use nget.Prelude.{
  ℕ, zero, suc, ◌+◌, ◌-◌, List, [], ◌∷◌, Bool, false, ltb, ◌==◌, ◌||◌, if◌then◌else◌, Option, some,
  none, ℤ, pos, negsuc, ◌-ℤ◌, length,
}
use nget.Knapsack.{best_at, knapsack_tables, knapsack_value}

abbrev pub int_max : ℕ
int_max = 2147483647

unfoldable pub value_of : List (ℕ × ℕ) → ℕ → ℕ
value_of [] i = 0
value_of ((value, size) ∷ items) zero = value
value_of ((value, size) ∷ items) (suc i) = value_of items i

unfoldable pub size_of : List (ℕ × ℕ) → ℕ → ℕ
size_of [] i = 0
size_of ((value, size) ∷ items) zero = size
size_of ((value, size) ∷ items) (suc i) = size_of items i

abbrev later : Option ℕ → ℕ → Bool → Option ℕ
later (some i) x b = some i
later none x b = if b then some x else none

-- the search from the end of best[j] for an entry below `last`
unfoldable pub last_before : List ℕ → ℕ → Option ℕ
last_before [] last = none
last_before (x ∷ xs) last = later (last_before xs last) x (ltb x last)

-- the loop that inserts into `result`; an entry is only used below the one before it, which bounds
-- the rounds
unfoldable pub walk_back : ℕ → List (List ℕ) → List (ℕ × ℕ) → ℕ → ℕ → List ℕ
unfolding best_at last_before size_of
walk_back zero best items j last = []
walk_back (suc fuel) best items zero last = []
walk_back (suc fuel) best items (suc j) last = elim (last_before (best_at best (suc j)) last) [
  | some i ↦ i ∷ walk_back fuel best items (suc j - size_of items i) i
  | none ↦ []
]

-- the set `result` of knapsack, from the last item to the first
unfoldable pub knapsack_result : List (ℕ × ℕ) → ℕ → List ℕ
unfolding walk_back knapsack_tables
knapsack_result items target =
    walk_back (length items) (knapsack_tables target items).best items target int_max

unfoldable pub contains : List ℕ → ℕ → Bool
contains [] i = false
contains (x ∷ xs) i = (i == x) || contains xs i

-- sum_values
unfoldable pub sum_values : List (ℕ × ℕ) → ℕ
sum_values [] = 0
sum_values ((value, size) ∷ items) = value + sum_values items

-- sum_sizes
unfoldable pub sum_sizes : List (ℕ × ℕ) → ℕ
sum_sizes [] = 0
sum_sizes ((value, size) ∷ items) = size + sum_sizes items

-- the call of knapsack with the sizes for the values
unfoldable pub swapped : List (ℕ × ℕ) → List (ℕ × ℕ)
swapped [] = []
swapped ((value, size) ∷ items) = (size, value) ∷ swapped items

-- the loop that inserts what is not in `resultprime`, from item i on
unfoldable pub left_out : ℕ → ℕ → List ℕ → List ℕ
unfolding contains
left_out i zero resultprime = []
left_out i (suc n) resultprime =
    let rest = left_out (suc i) n resultprime in if contains resultprime i then rest else i ∷ rest

-- what knapsack_minsize returns, and the set it fills
pub record Minsize : Type 0 where
  pub size : ℕ
  pub result : List ℕ

unfoldable pub minsize_of : List (ℕ × ℕ) → ℤ → Minsize
unfolding sum_sizes left_out knapsack_result knapsack_value swapped
minsize_of items (pos targetprime) = record {
  size = sum_sizes items - knapsack_value (swapped items) targetprime;
  result = left_out 0 (length items) (knapsack_result (swapped items) targetprime);
}
minsize_of items (negsuc n) = record {
  size = sum_sizes items;
  result = left_out 0 (length items) [];
}

unfoldable pub knapsack_minsize : List (ℕ × ℕ) → ℕ → Minsize
unfolding minsize_of sum_values
knapsack_minsize items target = minsize_of items (pos (sum_values items) -ℤ pos target)
