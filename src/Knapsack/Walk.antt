-- ===== src/Knapsack/Walk.antt =====
-- The walk back names items that fit and have the value that knapsack returns.
use nget.Prelude.{
  ℕ, zero, suc, ◌+◌, ◌-◌, ◌≤◌, ◌<◌, ◌≡◌, refl, ap, sym, ◌∙◌, List, [], ◌∷◌, true, inl, inr,
  Bool-cases, if◌then◌else◌, some, arith, length,
}
use nget.Knapsack.{best_at, knapsack_tables}
use nget.Knapsack.Optimum.{optimum, reversed_onto}
use nget.Knapsack.Chosen.{int_max, value_of, size_of, last_before, walk_back, knapsack_result}
use nget.Knapsack.Table.{
  improves, improved, pick, best_at-improved, last_before-improved, last_before-tail,
}

-- the walk along the items, the last one first
unfoldable pub walked : List (ℕ × ℕ) → ℕ → List ℕ
walked [] j = []
walked ((value, size) ∷ before) zero = []
walked ((value, size) ∷ before) (suc j) =
    if improves value size before (suc j)
    then length before ∷ walked before (suc j - size)
    else walked before (suc j)

value_of-reversed :
    (xs ys : List (ℕ × ℕ)) (k : ℕ) → value_of (reversed_onto xs ys) (length xs + k) ≡ value_of ys k
unfolding reversed_onto value_of
value_of-reversed [] ys k = ap (value_of ys) (omega arith)
value_of-reversed (x ∷ xs) ys k =
    ap (value_of (reversed_onto xs (x ∷ ys))) (omega arith) ∙ value_of-reversed xs (x ∷ ys) (suc k)

value_of-length :
    (xs ys : List (ℕ × ℕ)) (value size : ℕ)
    → value_of (reversed_onto xs ((value, size) ∷ ys)) (length xs) ≡ value
unfolding value_of
value_of-length xs ys value size =
    ap (value_of (reversed_onto xs ((value, size) ∷ ys))) (omega arith)
    ∙ value_of-reversed xs ((value, size) ∷ ys) 0

size_of-reversed :
    (xs ys : List (ℕ × ℕ)) (k : ℕ) → size_of (reversed_onto xs ys) (length xs + k) ≡ size_of ys k
unfolding reversed_onto size_of
size_of-reversed [] ys k = ap (size_of ys) (omega arith)
size_of-reversed (x ∷ xs) ys k =
    ap (size_of (reversed_onto xs (x ∷ ys))) (omega arith) ∙ size_of-reversed xs (x ∷ ys) (suc k)

size_of-length :
    (xs ys : List (ℕ × ℕ)) (value size : ℕ)
    → size_of (reversed_onto xs ((value, size) ∷ ys)) (length xs) ≡ size
unfolding size_of
size_of-length xs ys value size =
    ap (size_of (reversed_onto xs ((value, size) ∷ ys))) (omega arith)
    ∙ size_of-reversed xs ((value, size) ∷ ys) 0

-- `best` tells of the items `before` what the loop over them entered
abbrev Tells : List (List ℕ) → List (ℕ × ℕ) → ℕ → Type 0
Tells best before target =
    (k last : ℕ)
    → k ≤ target
    → last ≤ length before
    → last_before (best_at best k) last ≡ last_before (improved before k) last

module _ (best : List (List ℕ)) (target : ℕ) where
  walk_back-walked :
      (fuel : ℕ) (before after : List (ℕ × ℕ)) (j last : ℕ)
      → j ≤ target
      → length before ≤ fuel
      → Tells best before target
      → last_before (best_at best j) last ≡ pick before j
      → walk_back fuel best (reversed_onto before after) j last ≡ walked before j
  unfolding walk_back walked pick reversed_onto
  walk_back-walked zero [] after j last le enough tells found = refl
  walk_back-walked zero (x ∷ before) after j last le enough tells found = absurd (omega arith)
  walk_back-walked (suc fuel) [] after zero last le enough tells found = refl
  walk_back-walked (suc fuel) [] after (suc j) last le enough tells found =
      rw (walk_back, found) refl
  walk_back-walked (suc fuel) (x ∷ before) after zero last le enough tells found = refl
  walk_back-walked (suc fuel) ((value, size) ∷ before) after (suc j) last le enough tells found =
      elim (Bool-cases (improves value size before (suc j))) [
        | inl e ↦
            rw (walk_back, found ∙ picked e, size_of-length before after value size, e)
              (ap (λ is. length before ∷ is)
                (walk_back-walked fuel before ((value, size) ∷ after) (suc j - size) (length before)
                  (omega arith) (omega arith) below
                  (below _ _ (omega arith) (omega arith)
                    ∙ last_before-improved before _ _ (omega arith))))
        | inr e ↦ rw e (
            walk_back-walked (suc fuel) before ((value, size) ∷ after) (suc j) last le (omega arith)
              below (found ∙ (unfold pick in (rw e refl))))
      ]
    where
      picked :
          improves value size before (suc j) ≡ true
          → pick ((value, size) ∷ before) (suc j) ≡ some (length before)
      picked e = unfold pick in (rw e refl)

      below : Tells best before target
      below k l lk ll = tells k l lk (omega arith) ∙ last_before-tail (value, size) before k l ll

-- what the items at these positions have together
unfoldable pub value_sum : List (ℕ × ℕ) → List ℕ → ℕ
unfolding value_of
value_sum items [] = 0
value_sum items (i ∷ is) = value_of items i + value_sum items is

unfoldable pub size_sum : List (ℕ × ℕ) → List ℕ → ℕ
unfolding size_of
size_sum items [] = 0
size_sum items (i ∷ is) = size_of items i + size_sum items is

-- positions below n, each once, from the last to the first
unfoldable pub IsDescending : ℕ → List ℕ → Type 0
IsDescending n [] = Unit
IsDescending n (i ∷ is) = (i < n) × IsDescending i is

pub IsDescending-weaken : (is : List ℕ) {m n : ℕ} → m ≤ n → IsDescending m is → IsDescending n is
unfolding IsDescending
IsDescending-weaken [] h d = tt
IsDescending-weaken (i ∷ is) h (lt, d) = (omega arith, d)

pub walked-IsDescending :
    (before : List (ℕ × ℕ)) (j : ℕ) → IsDescending (length before) (walked before j)
unfolding walked IsDescending
walked-IsDescending [] j = tt
walked-IsDescending ((value, size) ∷ before) zero = tt
walked-IsDescending ((value, size) ∷ before) (suc j) =
    elim (Bool-cases (improves value size before (suc j))) [
      | inl e ↦ rw e ((omega arith, walked-IsDescending before (suc j - size)))
      | inr e ↦ rw e (IsDescending-weaken _ (omega arith) (walked-IsDescending before (suc j)))
    ]

-- no size is 0
unfoldable pub AllSized : List (ℕ × ℕ) → Type 0
AllSized [] = Unit
AllSized ((value, size) ∷ items) = (0 < size) × AllSized items

optimum_zero : (before : List (ℕ × ℕ)) → AllSized before → optimum before 0 ≡ 0
unfolding optimum AllSized
optimum_zero [] sized = refl
optimum_zero ((value, size) ∷ before) (positive, sized) = ground (arith, optimum_zero before sized)

pub size_sum-walked :
    (before after : List (ℕ × ℕ)) (j : ℕ)
    → size_sum (reversed_onto before after) (walked before j) ≤ j
unfolding walked size_sum reversed_onto
size_sum-walked [] after j = omega arith
size_sum-walked ((value, size) ∷ before) after zero = omega arith
size_sum-walked ((value, size) ∷ before) after (suc j) = ground (
  arith,
  size_of-length before after value size,
  size_sum-walked before ((value, size) ∷ after) (suc j - size),
  size_sum-walked before ((value, size) ∷ after) (suc j),
)

pub value_sum-walked :
    (before after : List (ℕ × ℕ)) (j : ℕ)
    → AllSized before
    → value_sum (reversed_onto before after) (walked before j) ≡ optimum before j
unfolding walked value_sum reversed_onto optimum AllSized
value_sum-walked [] after j sized = refl
value_sum-walked ((value, size) ∷ before) after zero (positive, sized) =
    ground (arith, optimum_zero before sized)
value_sum-walked ((value, size) ∷ before) after (suc j) (positive, sized) = ground (
  arith,
  value_of-length before after value size,
  value_sum-walked before ((value, size) ∷ after) (suc j - size) sized,
  value_sum-walked before ((value, size) ∷ after) (suc j) sized,
)

reversed_onto_nil :
    (xs ys : List (ℕ × ℕ)) → reversed_onto (reversed_onto xs ys) [] ≡ reversed_onto ys xs
unfolding reversed_onto
reversed_onto_nil [] ys = refl
reversed_onto_nil (x ∷ xs) ys = reversed_onto_nil xs (x ∷ ys)

pub reversed_twice : (xs : List (ℕ × ℕ)) → reversed_onto (reversed_onto xs []) [] ≡ xs
unfolding reversed_onto
reversed_twice xs = reversed_onto_nil xs []

pub length-reversed_onto :
    (xs ys : List (ℕ × ℕ)) → length (reversed_onto xs ys) ≡ length xs + length ys
unfolding reversed_onto
length-reversed_onto [] ys = omega arith
length-reversed_onto (x ∷ xs) ys = length-reversed_onto xs (x ∷ ys) ∙ omega arith

pub knapsack_result-walked :
    (items : List (ℕ × ℕ)) (target : ℕ)
    → length items ≤ int_max
    → knapsack_result items target ≡ walked (reversed_onto items []) target
unfolding knapsack_result
knapsack_result-walked items target short =
    ap (λ xs. walk_back (length items) table xs target int_max) (sym (reversed_twice items))
    ∙ walk_back-walked table target (length items) before [] target int_max (omega arith)
        (omega (arith, length-reversed_onto items []))
        (λ k last le below. ap (λ xs. last_before xs last) (best_at-improved items target k le))
        (ap (λ xs. last_before xs int_max) (best_at-improved items target target (omega arith))
          ∙ last_before-improved before target int_max
              (omega (arith, length-reversed_onto items [])))
  where
    before : List (ℕ × ℕ)
    before = reversed_onto items []

    table : List (List ℕ)
    table = (knapsack_tables target items).best
