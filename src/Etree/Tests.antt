-- ===== src/Etree/Tests.antt =====
-- Runs of make_pred, and its theorem at a concrete expression.
use nget.Prelude.{
  ◌≡◌, refl, List, [], ◌∷◌, if◌then◌else◌, Option, some, none, Text, eq_text, ok, thrown,
}
use nget.Etree.{comparison, pred_and, make_pred, not_enough_arguments, unfinished_expression}
use nget.Etree.Postfix.{Expression, compare, join, meaning, postfix, make_pred-postfix}

-- knows the comparison "=", and makes the first letters of its sides
some_maker : Text → Text → Text → Option (List Text)
unfolding eq_text
some_maker z x y = if eq_text z (61 ∷ []) then some (x ∷ y ∷ []) else none

abbrev a_name : Text
a_name = 97 ∷ []

abbrev equals : Text
equals = 61 ∷ []

abbrev and_text : Text
and_text = 38 ∷ 38 ∷ []

abbrev both_equal : Expression
both_equal = join and_text (compare a_name a_name equals) (compare equals a_name equals)

missing_side :
    make_pred some_maker (a_name ∷ a_name ∷ equals ∷ and_text ∷ [])
    ≡ thrown (not_enough_arguments and_text)
unfolding make_pred some_maker eq_text
missing_side = refl

missing_operator : make_pred some_maker (a_name ∷ a_name ∷ []) ≡ thrown unfinished_expression
unfolding make_pred some_maker eq_text
missing_operator = refl

make_pred-postfix_example :
    make_pred some_maker (postfix both_equal [])
    ≡ ok (pred_and (comparison (a_name ∷ a_name ∷ [])) (comparison (equals ∷ a_name ∷ [])))
make_pred-postfix_example =
    make_pred-postfix some_maker both_equal
      (pred_and (comparison (a_name ∷ a_name ∷ [])) (comparison (equals ∷ a_name ∷ [])))
      (unfold meaning some_maker eq_text in refl)
