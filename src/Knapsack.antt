-- ===== src/Knapsack.antt =====
-- knapsack.cc: the best choice of items within a size, by a table that is updated in place. Values
-- and sizes are not negative, and the sums do not overflow; an item is its value and its size.
pub mod Optimum
pub mod Chosen
pub mod Table
pub mod Walk
pub mod Result
pub mod Sums
pub mod Swapping
pub mod Minsize
mod Tests
use nget.Prelude.{
  ℕ, zero, suc, ◌+◌, ◌-◌, List, [], ◌∷◌, ◌++◌, Bool, true, false, ltb, leb, ◌==◌, if◌then◌else◌,
  Option, some, none,
}

-- V and best, by the size j
pub record Tables : Type 0 where
  pub values : List ℕ
  pub best : List (List ℕ)

unfoldable pub value_at : List ℕ → ℕ → ℕ
value_at [] j = 0
value_at (x ∷ xs) zero = x
value_at (x ∷ xs) (suc j) = value_at xs j

unfoldable pub set_value : List ℕ → ℕ → ℕ → List ℕ
set_value [] j v = []
set_value (x ∷ xs) zero v = v ∷ xs
set_value (x ∷ xs) (suc j) v = x ∷ set_value xs j v

unfoldable pub best_at : List (List ℕ) → ℕ → List ℕ
best_at [] j = []
best_at (x ∷ xs) zero = x
best_at (x ∷ xs) (suc j) = best_at xs j

unfoldable pub push_best : List (List ℕ) → ℕ → ℕ → List (List ℕ)
push_best [] j i = []
push_best (x ∷ xs) zero i = (x ++ i ∷ []) ∷ xs
push_best (x ∷ xs) (suc j) i = x ∷ push_best xs j i

-- V[j] and best[j] for item i
unfoldable pub offer_item : ℕ → ℕ → ℕ → ℕ → Tables → Tables
unfolding value_at set_value push_best
offer_item i value size j t =
    let othersol = value_at t.values (j - size) + value in
    if ltb (value_at t.values j) othersol
    then record { values = set_value t.values j othersol; best = push_best t.best j i }
    else t

-- the loop over j, from j down to the item's size
unfoldable pub offer_down : ℕ → ℕ → ℕ → ℕ → Tables → Tables
unfolding offer_item
offer_down i value size zero t = if leb size 0 then offer_item i value size 0 t else t
offer_down i value size (suc j) t =
    let rest = offer_down i value size j (offer_item i value size (suc j) t) in
    if leb size (suc j) then rest else t

-- the loop over the items, from item i on
unfoldable pub offer_items : ℕ → ℕ → List (ℕ × ℕ) → Tables → Tables
unfolding offer_down
offer_items i target [] t = t
offer_items i target ((value, size) ∷ items) t =
    offer_items (suc i) target items (offer_down i value size target t)

unfoldable pub zeros : ℕ → List ℕ
zeros zero = []
zeros (suc n) = 0 ∷ zeros n

unfoldable pub no_best : ℕ → List (List ℕ)
no_best zero = []
no_best (suc n) = [] ∷ no_best n

unfoldable pub knapsack_tables : ℕ → List (ℕ × ℕ) → Tables
unfolding offer_items zeros no_best
knapsack_tables target items =
    offer_items 0 target items (record { values = zeros (suc target); best = no_best (suc target) })

-- what knapsack returns
unfoldable pub knapsack_value : List (ℕ × ℕ) → ℕ → ℕ
unfolding knapsack_tables value_at
knapsack_value items target = value_at (knapsack_tables target items).values target
