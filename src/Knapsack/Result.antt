-- ===== src/Knapsack/Result.antt =====
-- What knapsack puts into its result set.
use nget.Prelude.{ℕ, ◌≤◌, ◌≡◌, ap, sym, ◌∙◌, List, [], ◌∷◌, arith, length, subst}
use nget.Knapsack.{knapsack_value}
use nget.Knapsack.Optimum.{reversed_onto, knapsack_value-optimum}
use nget.Knapsack.Chosen.{int_max, knapsack_result}
use nget.Knapsack.Walk.{
  walked, value_sum, size_sum, IsDescending, AllSized, walked-IsDescending, size_sum-walked,
  value_sum-walked, reversed_twice, length-reversed_onto, knapsack_result-walked,
}

reversed_onto-AllSized :
    (xs ys : List (ℕ × ℕ)) → AllSized xs → AllSized ys → AllSized (reversed_onto xs ys)
unfolding reversed_onto AllSized
reversed_onto-AllSized [] ys h g = g
reversed_onto-AllSized (x ∷ xs) ys (positive, h) g =
    reversed_onto-AllSized xs (x ∷ ys) h (positive, g)

-- Where there are INT_MAX items at most and none has size 0, the items that knapsack puts into the
-- result set are items of the list, each once, their sizes add up to at most the target, and their
-- values add up to the number that knapsack returns: the walk back ends where its assertions want
-- it.
pub knapsack_result-sums :
    (items : List (ℕ × ℕ)) (target : ℕ)
    → length items ≤ int_max
    → AllSized items
    → IsDescending (length items) (knapsack_result items target)
      × (size_sum items (knapsack_result items target) ≤ target)
      × (value_sum items (knapsack_result items target) ≡ knapsack_value items target)
knapsack_result-sums items target short sized = rw (knapsack_result-walked items target short) (
  subst (λ n. IsDescending n (walked before target)) (length-reversed_onto items [] ∙ omega arith)
      (walked-IsDescending before target),
  subst (λ xs. size_sum xs (walked before target) ≤ target) (reversed_twice items)
      (size_sum-walked before [] target),
  ap (λ xs. value_sum xs (walked before target)) (sym (reversed_twice items))
      ∙ value_sum-walked before [] target
          (reversed_onto-AllSized items [] sized (unfold AllSized in tt))
      ∙ sym (knapsack_value-optimum items target),
)
  where
    before : List (ℕ × ℕ)
    before = reversed_onto items []
