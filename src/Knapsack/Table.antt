-- ===== src/Knapsack/Table.antt =====
-- The table `best`: for each size, the items that improved its value.
use nget.Prelude.{
  ℕ, zero, suc, ◌+◌, ◌-◌, ◌≤◌, ◌<◌, ◌≡◌, refl, ap, ◌∙◌, List, [], ◌∷◌, ◌++◌, Bool, inl, inr,
  Bool-cases, ltb, leb, ◌==◌, ◌&&◌, if◌then◌else◌, Option, some, none, arith, length, dec_le,
}
use nget.Knapsack.{
  Tables, value_at, best_at, push_best, offer_item, offer_down, offer_items, no_best,
  knapsack_tables,
}
use nget.Knapsack.Optimum.{
  optimum, reversed_onto, IsTable, value_at-offer_item, length-offer_item, offer_down-IsTable,
  length-zeros, value_at-zeros,
}
use nget.Knapsack.Chosen.{last_before}

-- whether item (value, size) makes a better choice of size j than the items before it
abbrev pub improves : ℕ → ℕ → List (ℕ × ℕ) → ℕ → Bool
improves value size before j =
    leb size j && ltb (optimum before j) (optimum before (j - size) + value)

-- best[j] when the loop over the items is behind `before`
unfoldable pub improved : List (ℕ × ℕ) → ℕ → List ℕ
improved [] j = []
improved ((value, size) ∷ before) j =
    if improves value size before j
    then improved before j ++ length before ∷ []
    else improved before j

best_at-push :
    (best : List (List ℕ)) (j k i : ℕ)
    → j < length best
    → best_at (push_best best j i) k ≡ (if k == j then best_at best k ++ i ∷ [] else best_at best k)
unfolding best_at push_best
best_at-push [] j k i h = absurd (omega arith)
best_at-push (x ∷ xs) zero zero i h = refl
best_at-push (x ∷ xs) zero (suc k) i h = ground arith
best_at-push (x ∷ xs) (suc j) zero i h = ground arith
best_at-push (x ∷ xs) (suc j) (suc k) i h = ground (arith, best_at-push xs j k i (omega arith))

length-push_best : (best : List (List ℕ)) (j i : ℕ) → length (push_best best j i) ≡ length best
unfolding push_best
length-push_best [] j i = refl
length-push_best (x ∷ xs) zero i = refl
length-push_best (x ∷ xs) (suc j) i = ap suc (length-push_best xs j i)

module _ (i value size : ℕ) where
  length-best-offer_item :
      (j : ℕ) (t : Tables) → length (offer_item i value size j t).best ≡ length t.best
  unfolding offer_item
  length-best-offer_item j t = ground (arith, length-push_best t.best j i)

  best_at-offer_item :
      (j k : ℕ) (t : Tables)
      → j < length t.best
      → best_at (offer_item i value size j t).best k ≡ (
          if k == j && ltb (value_at t.values j) (value_at t.values (j - size) + value)
          then best_at t.best k ++ i ∷ []
          else best_at t.best k)
  unfolding offer_item
  best_at-offer_item j k t h = ground (arith, best_at-push t.best j k i h)

  length-best-offer_down :
      (j : ℕ) (t : Tables) → length (offer_down i value size j t).best ≡ length t.best
  unfolding offer_down
  length-best-offer_down zero t = ground (arith, length-best-offer_item 0 t)
  length-best-offer_down (suc j) t = ground (
    arith,
    length-best-offer_item (suc j) t,
    length-best-offer_down j (offer_item i value size (suc j) t),
  )

  -- item i's test of size k
  abbrev takes : ℕ → Tables → Bool
  takes k t = leb size k && ltb (value_at t.values k) (value_at t.values (k - size) + value)

  takes-offer_item :
      (j k : ℕ) (t : Tables)
      → k ≤ j
      → suc j < length t.values
      → takes k (offer_item i value size (suc j) t) ≡ takes k t
  takes-offer_item j k t h g = ground (
    arith,
    value_at-offer_item i value size (suc j) k t g,
    value_at-offer_item i value size (suc j) (k - size) t g,
  )

  best_at-offer_down :
      (j k : ℕ) (t : Tables)
      → j < length t.best
      → j < length t.values
      → best_at (offer_down i value size j t).best k ≡ (
          if leb k j
          then (if takes k t then best_at t.best k ++ i ∷ [] else best_at t.best k)
          else best_at t.best k)
  unfolding offer_down
  best_at-offer_down zero k t h g = ground (arith, best_at-offer_item 0 k t h)
  best_at-offer_down (suc j) k t h g = elim (Bool-cases (leb size (suc j))) [
    | inl e ↦ rw e (elim (dec_le k j) [
      | Dec.yes le ↦
          best_at-offer_down j k next here there
          ∙ ground (arith, takes-offer_item j k t le g, best_at-offer_item (suc j) k t h)
      | Dec.no nle ↦
          best_at-offer_down j k next here there ∙ ground (arith, best_at-offer_item (suc j) k t h)
    ])
    | inr e ↦ rw e (ground arith)
  ]
    where
      next : Tables
      next = offer_item i value size (suc j) t

      here : j < length next.best
      here = omega (arith, length-best-offer_item (suc j) t)

      there : j < length next.values
      there = omega (arith, length-offer_item i value size (suc j) t)

-- `best` when the loop over the items is behind `before`
record IsBestTable (target : ℕ) (before : List (ℕ × ℕ)) (t : Tables) : Type 0 where
  size : length t.best ≡ suc target
  holds : (k : ℕ) → k ≤ target → best_at t.best k ≡ improved before k

offer_down-IsBestTable :
    (value size target : ℕ) (before : List (ℕ × ℕ)) (t : Tables)
    → IsTable target before t
    → IsBestTable target before t
    → IsBestTable target ((value, size) ∷ before) (offer_down (length before) value size target t)
unfolding improved
offer_down-IsBestTable value size target before t v b = record {
  size = length-best-offer_down (length before) value size target t ∙ b.size;
  holds = λ k h. ground (
    arith,
    best_at-offer_down (length before) value size target k t (omega (arith, b.size))
        (omega (arith, v.size)),
    b.holds k h,
    v.holds k h,
    v.holds (k - size) (omega arith),
  );
}

offer_items-IsBestTable :
    (target : ℕ) (items before : List (ℕ × ℕ)) (t : Tables)
    → IsTable target before t
    → IsBestTable target before t
    → IsBestTable target (reversed_onto items before) (offer_items (length before) target items t)
unfolding offer_items reversed_onto
offer_items-IsBestTable target [] before t v b = b
offer_items-IsBestTable target ((value, size) ∷ items) before t v b =
    offer_items-IsBestTable target items ((value, size) ∷ before)
      (offer_down (length before) value size target t)
      (offer_down-IsTable (length before) value size target before t v)
      (offer_down-IsBestTable value size target before t v b)

length-no_best : (n : ℕ) → length (no_best n) ≡ n
unfolding no_best
length-no_best zero = refl
length-no_best (suc n) = ap suc (length-no_best n)

best_at-no_best : (n k : ℕ) → best_at (no_best n) k ≡ []
unfolding no_best best_at
best_at-no_best zero k = refl
best_at-no_best (suc n) zero = refl
best_at-no_best (suc n) (suc k) = best_at-no_best n k

pub best_at-improved :
    (items : List (ℕ × ℕ)) (target k : ℕ)
    → k ≤ target
    → best_at (knapsack_tables target items).best k ≡ improved (reversed_onto items []) k
unfolding knapsack_tables
best_at-improved items target k h = table.holds k h
  where
    table : IsBestTable target (reversed_onto items []) (knapsack_tables target items)
    table =
        offer_items-IsBestTable target items [] _
          (record {
            size = length-zeros (suc target);
            holds = λ j g. value_at-zeros (suc target) j ∙ (unfold optimum in refl);
          })
          (record {
            size = length-no_best (suc target);
            holds = λ j g. best_at-no_best (suc target) j ∙ (unfold improved in refl);
          })

-- the last item that improves the choice of size j
unfoldable pub pick : List (ℕ × ℕ) → ℕ → Option ℕ
pick [] j = none
pick ((value, size) ∷ before) j =
    if improves value size before j then some (length before) else pick before j

last_before-append :
    (xs : List ℕ) (i last : ℕ)
    → last_before (xs ++ i ∷ []) last ≡ (if ltb i last then some i else last_before xs last)
unfolding last_before
last_before-append [] i last = ground arith
last_before-append (x ∷ xs) i last = ground (arith, last_before-append xs i last)

pub last_before-improved :
    (before : List (ℕ × ℕ)) (j last : ℕ)
    → length before ≤ last
    → last_before (improved before j) last ≡ pick before j
unfolding improved pick
last_before-improved [] j last h = unfold last_before in refl
last_before-improved ((value, size) ∷ before) j last h = ground (
  arith,
  last_before-append (improved before j) (length before) last,
  last_before-improved before j last (omega arith),
)

-- below the last item, it makes no difference
pub last_before-tail :
    (x : ℕ × ℕ) (before : List (ℕ × ℕ)) (j last : ℕ)
    → last ≤ length before
    → last_before (improved (x ∷ before) j) last ≡ last_before (improved before j) last
unfolding improved
last_before-tail (value, size) before j last h =
    ground (arith, last_before-append (improved before j) (length before) last)
