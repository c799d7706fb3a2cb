-- ===== src/Nrange/Insert.antt =====
-- c_nrange::insert, one number and a range: what is in the set afterwards, and its form.
use nget.Prelude.{
  dec_lt, ℕ, inl, inr, ◌+◌, ◌-◌, ◌≤◌, ◌<◌, ◌≡◌, refl, [], ◌∷◌, some, none, leb, ◌==◌, ◌||◌,
  if◌then◌else◌, ulong_max, arith, Option, Option-cases, ◌∙◌, ap,
}
use nget.Nrange.{
  lower_bound, find, set_low, erase, store, insert_at, insert_changed, insert_join, Range, range,
  Rlist, insert_one,
}
use nget.Nrange.Members.{mem, Above, IsValid}

-- an iterator at a key that is not below `n`
abbrev IsFrom : ℕ → Option Range → Type 0
IsFrom n none = Unit {0}
IsFrom n (some i) = n ≤ i.high

lower_bound-IsFrom : (n : ℕ) (r : Rlist) → IsFrom n (lower_bound n r)
unfolding lower_bound
lower_bound-IsFrom n [] = tt
lower_bound-IsFrom n (x ∷ xs) = ground (arith, lower_bound-IsFrom n xs)

module _ (n : ℕ) (x : Range) (xs : Rlist) (h : x.high + 1 < n) where
  lower_bound_skip : lower_bound n (x ∷ xs) ≡ lower_bound n xs
  unfolding lower_bound
  lower_bound_skip = ground arith

  set_low_skip : (k v : ℕ) → n ≤ k → set_low k v (x ∷ xs) ≡ x ∷ set_low k v xs
  unfolding set_low
  set_low_skip k v m = ground arith

  find_skip : find (n - 1) (x ∷ xs) ≡ find (n - 1) xs
  unfolding find
  find_skip = ground arith

find-key : (k : ℕ) (r : Rlist) (j : Range) → find k r ≡ some j → j.high ≡ k
unfolding find
find-key k [] j e = cc
find-key k (x ∷ xs) j e = ground (arith, find-key k xs j)

insert_join_skip :
    (n : ℕ) (x : Range) (xs : Rlist) (i j : Option Range)
    → x.high + 1 < n
    → IsFrom n i
    → IsFrom (n - 1) j
    → insert_join n i j (x ∷ xs) ≡ x ∷ insert_join n i j xs
unfolding insert_join erase store set_low
insert_join_skip n x xs none none h p q = ground arith
insert_join_skip n x xs (some i) none h p q = ground arith
insert_join_skip n x xs none (some j) h p q = ground arith
insert_join_skip n x xs (some i) (some j) h p q = ground arith

insert_changed_skip :
    (n : ℕ) (x : Range) (xs : Rlist) (i : Option Range)
    → x.high + 1 < n
    → IsFrom n i
    → insert_changed n i (x ∷ xs) ≡ x ∷ insert_changed n i xs
unfolding insert_changed
insert_changed_skip n x xs i h p =
    ground (arith, find_skip n x xs h, insert_join_skip n x xs i (find (n - 1) xs) h p q)
  where
    q : IsFrom (n - 1) (find (n - 1) xs)
    q = elim (Option-cases (find (n - 1) xs)) [
      | inl e ↦ rw e tt
      | inr (j, e) ↦ rw e (omega (arith, find-key (n - 1) xs j e))
    ]

-- a range that ends below n - 1 is not touched
insert_at_skip :
    (n : ℕ) (x : Range) (xs : Rlist) (i : Option Range)
    → x.high + 1 < n
    → n ≤ ulong_max
    → IsFrom n i
    → insert_at n i (x ∷ xs) ≡ x ∷ insert_at n i xs
unfolding insert_at
insert_at_skip n x xs none h m p = insert_changed_skip n x xs none h p
insert_at_skip n x xs (some i) h m p = ground (
  arith,
  set_low_skip n x xs h i.high n p,
  insert_changed_skip n x (set_low i.high n xs) (some i) h p,
  insert_changed_skip n x xs none h tt,
)

insert_one_skip :
    (n : ℕ) (x : Range) (xs : Rlist)
    → x.high + 1 < n
    → n ≤ ulong_max
    → insert_one n (x ∷ xs) ≡ x ∷ insert_one n xs
unfolding insert_one
insert_one_skip n x xs h m =
    ap (λ i. insert_at n i (x ∷ xs)) (lower_bound_skip n x xs h)
    ∙ insert_at_skip n x xs (lower_bound n xs) h m (lower_bound-IsFrom n xs)

find_below : (b k : ℕ) (r : Rlist) → Above b r → k < b → find k r ≡ none
unfolding find
find_below b k [] v h = refl
find_below b k (x ∷ xs) v h = ground (arith, find_below (x.high + 2) k xs v.3)

-- what insert(n) does at the first range that n is not clear above
abbrev glue : Range → Rlist → Rlist
glue x [] = x ∷ []
glue x (y ∷ ys) = if y.low == x.high + 1 then range x.low y.high ∷ ys else x ∷ y ∷ ys

touch : ℕ → Range → Rlist → Rlist
touch n x xs =
    if leb x.low n
    then (if leb n x.high then x ∷ xs else glue (range x.low n) xs)
    else if x.low == n + 1
    then range n x.high ∷ xs
    else range n n ∷ x ∷ xs

module _ (b n : ℕ) (x : Range) (h : b ≤ n) (m : n ≤ x.high + 1) (u : n ≤ ulong_max) where
  insert_one_meets : (xs : Rlist) → Above b (x ∷ xs) → insert_one n (x ∷ xs) ≡ touch n x xs
  unfolding insert_one touch
  insert_one_meets [] v = ground arith
  insert_one_meets (y ∷ ys) v = ground (arith, find_below (y.high + 2) (n - 1) ys v.3.3)

  touch-Above : (xs : Rlist) → Above b (x ∷ xs) → Above b (touch n x xs)
  unfolding touch
  touch-Above [] v = ground arith
  touch-Above (y ∷ ys) v = ground arith

  touch-mem :
      (k : ℕ) (xs : Rlist) → Above b (x ∷ xs) → mem k (touch n x xs) ≡ (k == n || mem k (x ∷ xs))
  unfolding touch mem
  touch-mem k [] v = ground arith
  touch-mem k (y ∷ ys) v = ground arith

insert_one-Above :
    (b n : ℕ) (r : Rlist) → Above b r → b ≤ n → n ≤ ulong_max → Above b (insert_one n r)
insert_one-Above b n [] v h u = unfold insert_one in ground arith
insert_one-Above b n (x ∷ xs) v h u = elim (dec_lt (x.high + 1) n) [
  | yes far ↦
      rw (insert_one_skip n x xs far u)
        (v.0, v.1, v.2, insert_one-Above (x.high + 2) n xs v.3 (omega arith) u)
  | no near ↦
      rw (insert_one_meets b n x h (omega arith) u xs v) (touch-Above b n x h (omega arith) u xs v)
]

insert_one-mem-Above :
    (b n k : ℕ) (r : Rlist)
    → Above b r
    → b ≤ n
    → n ≤ ulong_max
    → mem k (insert_one n r) ≡ (k == n || mem k r)
unfolding mem
insert_one-mem-Above b n k [] v h u = unfold insert_one in ground arith
insert_one-mem-Above b n k (x ∷ xs) v h u = elim (dec_lt (x.high + 1) n) [
  | yes far ↦
      rw (insert_one_skip n x xs far u)
        (ground (arith, insert_one-mem-Above (x.high + 2) n k xs v.3 (omega arith) u))
  | no near ↦
      rw (insert_one_meets b n x h (omega arith) u xs v) (touch-mem b n x h (omega arith) u k xs v)
]

-- On a well-formed list insert(n) adds n, at most ULONG_MAX, and takes nothing away.
pub insert_one-mem :
    (n k : ℕ) (r : Rlist) → IsValid r → n ≤ ulong_max → mem k (insert_one n r) ≡ (k == n || mem k r)
insert_one-mem n k r v u = insert_one-mem-Above 0 n k r v (omega arith) u

-- insert(n) of a number at most ULONG_MAX leaves a well-formed list well formed.
pub insert_one-IsValid : (n : ℕ) (r : Rlist) → IsValid r → n ≤ ulong_max → IsValid (insert_one n r)
insert_one-IsValid n r v u = insert_one-Above 0 n r v (omega arith) u
