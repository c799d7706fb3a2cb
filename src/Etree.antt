-- ===== src/Etree.antt =====
-- make_pred of etree.cc: the stack machine that builds a predicate from the parts of an
-- expression in postfix order. `comparison_maker`, which the code takes as a template argument,
-- is a parameter, and gives none where the code gets a null pointer.
pub mod Postfix
mod Tests
use nget.Prelude.{
  List, [], ◌∷◌, Bool, ◌||◌, if◌then◌else◌, Option, some, none, Text, eq_text, Outcome, ok, thrown,
  and_then,
}

-- predAnd and predOr over what comparison_maker makes
pub data Pred (A : Type 0) : Type 0 where
  comparison : A → Pred A
  pred_and : Pred A → Pred A → Pred A
  pred_or : Pred A → Pred A → Pred A

pub data PredError : Type 0 where
  not_enough_arguments : Text → PredError
  no_match_type : Text → PredError
  unfinished_expression : PredError
  empty_expression : PredError

-- "&&", "and", "||", "or"
unfoldable pub is_and : Text → Bool
unfolding eq_text
is_and x = eq_text x (38 ∷ 38 ∷ []) || eq_text x (97 ∷ 110 ∷ 100 ∷ [])

unfoldable pub is_operator : Text → Bool
unfolding is_and
is_operator x = is_and x || (eq_text x (124 ∷ 124 ∷ []) || eq_text x (111 ∷ 114 ∷ []))

-- what x and y point to
pub data Pending : Type 0 where
  nothing : Pending
  with_x : Text → Pending
  with_xy : Text → Text → Pending

unfoldable pub join_preds : {A : Type 0} → Text → Pred A → Pred A → Pred A
unfolding is_and
join_preds x px py = if is_and x then pred_and px py else pred_or px py

-- an operator takes the top of the stack as its right side
unfoldable pub apply_operator :
    {A : Type 0} → Text → List (Pred A) → Outcome PredError (Pending × List (Pred A))
unfolding join_preds
apply_operator x (py ∷ px ∷ ps) = ok (nothing, join_preds x px py ∷ ps)
apply_operator x (p ∷ []) = thrown (not_enough_arguments x)
apply_operator x [] = thrown (not_enough_arguments x)

unfoldable pub push_comparison :
    {A : Type 0} → Text → Option A → List (Pred A) → Outcome PredError (Pending × List (Pred A))
push_comparison x none ps = thrown (no_match_type x)
push_comparison x (some p) ps = ok (nothing, comparison p ∷ ps)

-- after the loop
unfoldable pub finish_pred : {A : Type 0} → Pending × List (Pred A) → Outcome PredError (Pred A)
finish_pred (nothing, []) = thrown empty_expression
finish_pred (nothing, p ∷ []) = ok p
finish_pred (nothing, p ∷ q ∷ ps) = thrown unfinished_expression
finish_pred (with_x x, ps) = thrown unfinished_expression
finish_pred (with_xy x y, ps) = thrown unfinished_expression

module _ {A : Type 0} (comparison_maker : Text → Text → Text → Option A) where
  -- a pass of the loop
  unfoldable pub pred_step :
      Text → Pending × List (Pred A) → Outcome PredError (Pending × List (Pred A))
  unfolding is_operator apply_operator push_comparison
  pred_step i (nothing, ps) = if is_operator i then apply_operator i ps else ok (with_x i, ps)
  pred_step i (with_x x, ps) = ok (with_xy x i, ps)
  pred_step i (with_xy x y, ps) = push_comparison x (comparison_maker i x y) ps

  unfoldable pub pred_loop :
      List Text → Pending × List (Pred A) → Outcome PredError (Pending × List (Pred A))
  unfolding pred_step and_then
  pred_loop [] s = ok s
  pred_loop (i ∷ more) s = and_then (pred_step i s) (λ t. pred_loop more t)

  unfoldable pub make_pred : List Text → Outcome PredError (Pred A)
  unfolding pred_loop finish_pred
  make_pred parts = and_then (pred_loop parts (nothing, [])) finish_pred
