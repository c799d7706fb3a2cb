-- ===== src/Etree/Postfix.antt =====
-- Expressions in postfix order, and what make_pred makes of them.
use nget.Prelude.{
  ◌≡◌, refl, ap, ◌∙◌, List, [], ◌∷◌, Bool, true, false, if◌then◌else◌, Option, some, none, Text, ok,
  and_then,
}
use nget.Etree.{
  Pred, comparison, nothing, is_operator, join_preds, apply_operator, push_comparison, finish_pred,
  pred_step, pred_loop, make_pred,
}

pub data Expression : Type 0 where
  compare : Text → Text → Text → Expression
  join : Text → Expression → Expression → Expression

-- the parts of an expression, in the order in which make_pred takes them
unfoldable pub postfix : Expression → List Text → List Text
postfix (compare x y z) rest = x ∷ y ∷ z ∷ rest
postfix (join x l r) rest = postfix l (postfix r (x ∷ rest))

module _ {A : Type 0} (comparison_maker : Text → Text → Text → Option A) where
  -- the predicate that an expression stands for; none where a name is an operator or is not, out of
  -- place, or where comparison_maker makes nothing
  leaf : Option A → Option (Pred A)
  leaf none = none
  leaf (some p) = some (comparison p)

  both : Text → Option (Pred A) → Option (Pred A) → Option (Pred A)
  unfolding join_preds
  both x (some l) (some r) = some (join_preds x l r)
  both x none r = none
  both x (some l) none = none

  unfoldable pub meaning : Expression → Option (Pred A)
  unfolding leaf both is_operator
  meaning (compare x y z) = if is_operator x then none else leaf (comparison_maker z x y)
  meaning (join x l r) = if is_operator x then both x (meaning l) (meaning r) else none

  leaf-pushed :
      (x : Text) (o : Option A) (p : Pred A) (ps : List (Pred A))
      → leaf o ≡ some p
      → push_comparison x o ps ≡ ok (nothing, p ∷ ps)
  unfolding leaf push_comparison
  leaf-pushed x none p ps e = cc
  leaf-pushed x (some a) p ps e = cc

  both-parts :
      (x : Text) (l r : Option (Pred A)) (p : Pred A)
      → both x l r ≡ some p
      → (pl : Pred A) × (pr : Pred A) × (l ≡ some pl) × (r ≡ some pr) × (join_preds x pl pr ≡ p)
  unfolding both
  both-parts x (some l) (some r) p e = (l, r, refl, refl, cc)
  both-parts x none r p e = absurd cc
  both-parts x (some l) none p e = absurd cc

  cond-some :
      (b : Bool) (o : Option (Pred A)) (p : Pred A)
      → (if b then none else o) ≡ some p
      → (b ≡ false) × (o ≡ some p)
  cond-some true o p h = absurd cc
  cond-some false o p h = (refl, h)

  then-some :
      (b : Bool) (o : Option (Pred A)) (p : Pred A)
      → (if b then o else none) ≡ some p
      → (b ≡ true) × (o ≡ some p)
  then-some true o p h = (refl, h)
  then-some false o p h = absurd cc

  pred_loop-postfix :
      (e : Expression) (p : Pred A) (rest : List Text) (ps : List (Pred A))
      → meaning e ≡ some p
      → pred_loop comparison_maker (postfix e rest) (nothing, ps)
        ≡ pred_loop comparison_maker rest (nothing, p ∷ ps)
  unfolding pred_loop pred_step postfix meaning and_then
  pred_loop-postfix (compare x y z) p rest ps h =
      let (e, g) = cond-some (is_operator x) (leaf (comparison_maker z x y)) p h in
      rw e (
        ap (λ o. and_then o (λ t. pred_loop comparison_maker rest t))
          (leaf-pushed x (comparison_maker z x y) p ps g))
  pred_loop-postfix (join x l r) p rest ps h =
      let (e, g) = then-some (is_operator x) (both x (meaning l) (meaning r)) p h in
      let (pl, pr, el, er, ej) = both-parts x (meaning l) (meaning r) p g in
      pred_loop-postfix l pl (postfix r (x ∷ rest)) ps el
      ∙ pred_loop-postfix r pr (x ∷ rest) (pl ∷ ps) er
      ∙ rw e
          (unfold apply_operator in ap (λ q. pred_loop comparison_maker rest (nothing, q ∷ ps)) ej)

  -- Where an expression has a meaning (no name at the left of a comparison is an operator, every
  -- operator is one of the four, and comparison_maker knows each comparison), make_pred of its parts
  -- in postfix order is that meaning: the predicate with the operators' sides in their order.
  pub make_pred-postfix :
      (e : Expression) (p : Pred A)
      → meaning e ≡ some p
      → make_pred comparison_maker (postfix e []) ≡ ok p
  unfolding make_pred pred_loop and_then finish_pred
  make_pred-postfix e p h = ap (λ o. and_then o finish_pred) (pred_loop-postfix e p [] [] h)
