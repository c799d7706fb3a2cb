-- ===== src/Knapsack/Optimum.antt =====
-- The table holds the best values.
use nget.Prelude.{
  ℕ, zero, suc, ◌+◌, ◌-◌, ◌≤◌, ◌<◌, ◌≡◌, refl, ap, ◌∙◌, List, [], ◌∷◌, Bool, true, false, inl, inr,
  Bool-cases, ltb, leb, ◌==◌, ◌&&◌, if◌then◌else◌, arith, length,
}
use nget.Knapsack.{
  Tables, value_at, set_value, offer_item, offer_down, offer_items, zeros, knapsack_tables,
  knapsack_value,
}

abbrev larger : ℕ → ℕ → ℕ
larger m n = if ltb m n then n else m

-- the best value of items that fit into the size, the last item first: each is left or, if it fits,
-- taken
unfoldable pub optimum : List (ℕ × ℕ) → ℕ → ℕ
optimum [] j = 0
optimum ((value, size) ∷ before) j =
    if leb size j
    then larger (optimum before j) (optimum before (j - size) + value)
    else optimum before j

value_at-set :
    (xs : List ℕ) (j k v : ℕ)
    → j < length xs
    → value_at (set_value xs j v) k ≡ (if k == j then v else value_at xs k)
unfolding value_at set_value
value_at-set [] j k v h = absurd (omega arith)
value_at-set (x ∷ xs) zero zero v h = refl
value_at-set (x ∷ xs) zero (suc k) v h = ground arith
value_at-set (x ∷ xs) (suc j) zero v h = ground arith
value_at-set (x ∷ xs) (suc j) (suc k) v h = ground (arith, value_at-set xs j k v (omega arith))

length-set_value : (xs : List ℕ) (j v : ℕ) → length (set_value xs j v) ≡ length xs
unfolding set_value
length-set_value [] j v = refl
length-set_value (x ∷ xs) zero v = refl
length-set_value (x ∷ xs) (suc j) v = ap suc (length-set_value xs j v)

module _ (i value size : ℕ) where
  pub length-offer_item :
      (j : ℕ) (t : Tables) → length (offer_item i value size j t).values ≡ length t.values
  unfolding offer_item
  length-offer_item j t =
      ground (arith, length-set_value t.values j (value_at t.values (j - size) + value))

  pub value_at-offer_item :
      (j k : ℕ) (t : Tables)
      → j < length t.values
      → value_at (offer_item i value size j t).values k ≡ (
          if k == j
          then larger (value_at t.values j) (value_at t.values (j - size) + value)
          else value_at t.values k)
  unfolding offer_item
  value_at-offer_item j k t h =
      ground (arith, value_at-set t.values j k (value_at t.values (j - size) + value) h)

  length-offer_down :
      (j : ℕ) (t : Tables) → length (offer_down i value size j t).values ≡ length t.values
  unfolding offer_down
  length-offer_down zero t = ground (arith, length-offer_item 0 t)
  length-offer_down (suc j) t =
      ground (
        arith,
        length-offer_item (suc j) t,
        length-offer_down j (offer_item i value size (suc j) t),
      )

  -- after the loop from j down, the entries from the item's size to j are the better of two from
  -- before the loop
  value_at-offer_down :
      (j k : ℕ) (t : Tables)
      → j < length t.values
      → value_at (offer_down i value size j t).values k ≡ (
          if leb size k && leb k j
          then larger (value_at t.values k) (value_at t.values (k - size) + value)
          else value_at t.values k)
  unfolding offer_down
  value_at-offer_down zero k t h = ground (arith, value_at-offer_item 0 k t h)
  value_at-offer_down (suc j) k t h = ground (
    arith,
    value_at-offer_down j k (offer_item i value size (suc j) t)
        (omega (arith, length-offer_item (suc j) t)),
    value_at-offer_item (suc j) k t h,
    value_at-offer_item (suc j) (k - size) t h,
  )

-- the items, the last one first, on top of others
unfoldable pub reversed_onto : List (ℕ × ℕ) → List (ℕ × ℕ) → List (ℕ × ℕ)
reversed_onto [] ys = ys
reversed_onto (x ∷ xs) ys = reversed_onto xs (x ∷ ys)

-- the table when the loop over the items is behind `before`
pub record IsTable (target : ℕ) (before : List (ℕ × ℕ)) (t : Tables) : Type 0 where
  pub size : length t.values ≡ suc target
  pub holds : (k : ℕ) → k ≤ target → value_at t.values k ≡ optimum before k

pub offer_down-IsTable :
    (i value size target : ℕ) (before : List (ℕ × ℕ)) (t : Tables)
    → IsTable target before t
    → IsTable target ((value, size) ∷ before) (offer_down i value size target t)
unfolding optimum
offer_down-IsTable i value size target before t v = record {
  size = length-offer_down i value size target t ∙ v.size;
  holds = λ k h. ground (
    arith,
    value_at-offer_down i value size target k t (omega (arith, v.size)),
    v.holds k h,
    v.holds (k - size) (omega arith),
  );
}

offer_items-IsTable :
    (i target : ℕ) (items before : List (ℕ × ℕ)) (t : Tables)
    → IsTable target before t
    → IsTable target (reversed_onto items before) (offer_items i target items t)
unfolding offer_items reversed_onto
offer_items-IsTable i target [] before t v = v
offer_items-IsTable i target ((value, size) ∷ items) before t v =
    offer_items-IsTable (suc i) target items ((value, size) ∷ before)
      (offer_down i value size target t) (offer_down-IsTable i value size target before t v)

pub length-zeros : (n : ℕ) → length (zeros n) ≡ n
unfolding zeros
length-zeros zero = refl
length-zeros (suc n) = ap suc (length-zeros n)

pub value_at-zeros : (n k : ℕ) → value_at (zeros n) k ≡ 0
unfolding zeros value_at
value_at-zeros zero k = refl
value_at-zeros (suc n) zero = refl
value_at-zeros (suc n) (suc k) = value_at-zeros n k

pub knapsack_value-optimum :
    (items : List (ℕ × ℕ)) (target : ℕ)
    → knapsack_value items target ≡ optimum (reversed_onto items []) target
unfolding knapsack_value knapsack_tables
knapsack_value-optimum items target = table.holds target (omega arith)
  where
    table : IsTable target (reversed_onto items []) (knapsack_tables target items)
    table = offer_items-IsTable 0 target items [] _ (record {
      size = length-zeros (suc target);
      holds = λ k h. value_at-zeros (suc target) k ∙ (unfold optimum in refl);
    })

-- a choice of items: for each whether it is taken
unfoldable pub chosen_value : List (ℕ × ℕ) → List Bool → ℕ
chosen_value [] bs = 0
chosen_value (x ∷ xs) [] = 0
chosen_value ((value, size) ∷ xs) (b ∷ bs) = (if b then value else 0) + chosen_value xs bs

unfoldable pub chosen_size : List (ℕ × ℕ) → List Bool → ℕ
chosen_size [] bs = 0
chosen_size (x ∷ xs) [] = 0
chosen_size ((value, size) ∷ xs) (b ∷ bs) = (if b then size else 0) + chosen_size xs bs

chosen-le-optimum :
    (xs : List (ℕ × ℕ)) (bs : List Bool) (j : ℕ)
    → chosen_size xs bs ≤ j
    → chosen_value xs bs ≤ optimum xs j
unfolding chosen_size chosen_value optimum
chosen-le-optimum [] bs j h = omega arith
chosen-le-optimum (x ∷ xs) [] j h = omega arith
chosen-le-optimum ((value, size) ∷ xs) (false ∷ bs) j h =
    ground (arith, chosen-le-optimum xs bs j (omega arith))
chosen-le-optimum ((value, size) ∷ xs) (true ∷ bs) j h =
    ground (arith, chosen-le-optimum xs bs (j - size) (omega arith))

-- what a best choice is
abbrev pub Attains : List (ℕ × ℕ) → ℕ → ℕ → Type 0
Attains xs j v = (bs : List Bool) × (chosen_size xs bs ≤ j) × (chosen_value xs bs ≡ v)

leave : (x : ℕ × ℕ) (xs : List (ℕ × ℕ)) (j v : ℕ) → Attains xs j v → Attains (x ∷ xs) j v
unfolding chosen_size chosen_value
leave (value, size) xs j v (bs, fits, same) = (false ∷ bs, omega arith, omega arith)

take_item :
    (value size : ℕ) (xs : List (ℕ × ℕ)) (j v : ℕ)
    → size ≤ j
    → Attains xs (j - size) v
    → Attains ((value, size) ∷ xs) j (v + value)
unfolding chosen_size chosen_value
take_item value size xs j v h (bs, fits, same) = (true ∷ bs, omega arith, omega arith)

optimum-Attains : (xs : List (ℕ × ℕ)) (j : ℕ) → Attains xs j (optimum xs j)
unfolding optimum
optimum-Attains [] j = ([], unfold chosen_size in omega arith, unfold chosen_value in refl)
optimum-Attains ((value, size) ∷ xs) j = elim (Bool-cases (leb size j)) [
  | inl e ↦ rw e (elim (Bool-cases (ltb (optimum xs j) (optimum xs (j - size) + value))) [
    | inl f ↦ rw f (take_item value size xs j _ (ground (arith, e)) (optimum-Attains xs (j - size)))
    | inr f ↦ rw f (leave (value, size) xs j _ (optimum-Attains xs j))
  ])
  | inr e ↦ rw e (leave (value, size) xs j _ (optimum-Attains xs j))
]

-- The value that knapsack returns is the value of some choice of the items whose sizes add up to at
-- most the target, and no such choice has a greater one. (A choice names the items from the last to
-- the first.)
pub knapsack_value-IsBest :
    (items : List (ℕ × ℕ)) (target : ℕ)
    → Attains (reversed_onto items []) target (knapsack_value items target)
      × ((bs : List Bool)
          → chosen_size (reversed_onto items []) bs ≤ target
          → chosen_value (reversed_onto items []) bs ≤ knapsack_value items target)
knapsack_value-IsBest items target = rw (knapsack_value-optimum items target) (
    (
      optimum-Attains (reversed_onto items []) target,
      λ bs h. chosen-le-optimum (reversed_onto items []) bs target h,
    ))
