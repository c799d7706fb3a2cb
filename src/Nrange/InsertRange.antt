-- ===== src/Nrange/InsertRange.antt =====
-- c_nrange::insert(l, h).
use nget.Prelude.{
  dec_lt, ℕ, ◌+◌, ◌-◌, ◌≤◌, ◌<◌, ◌≡◌, refl, [], ◌∷◌, some, none, ltb, ◌||◌, if◌then◌else◌,
  ulong_max, arith, Option,
}
use nget.Nrange.{
  insert_over, insert_low, lower_bound, set_low, store, Range, range, Rlist, insert, varmax, varmin,
  erase_range, insert_from,
}
use nget.Nrange.Members.{mem, within, Above, IsValid}

abbrev before_low : ℕ → ℕ
before_low l = if ltb varmin l then l - 1 else l

abbrev after_high : ℕ → ℕ
after_high h = if ltb h varmax then h + 1 else h

-- an iterator above the key `n`
abbrev IsAbove : ℕ → Option Range → Type 0
IsAbove n none = Unit {0}
IsAbove n (some i) = n < i.high

lower_bound-IsAbove : (k n : ℕ) (r : Rlist) → k < n → IsAbove k (lower_bound n r)
unfolding lower_bound
lower_bound-IsAbove k n [] h = tt
lower_bound-IsAbove k n (x ∷ xs) h = ground (arith, lower_bound-IsAbove k n xs)

-- what insert(l, h) leaves of the ranges from the first that it reaches on
swallow : ℕ → ℕ → Rlist → Rlist
swallow l h [] = range l h ∷ []
swallow l h (y ∷ ys) =
    if ltb y.high h
    then swallow l h ys
    else if ltb (h + 1) y.low
    then range l h ∷ y ∷ ys
    else range l y.high ∷ ys

-- the same insertion by recursion on the list
place : ℕ → ℕ → Rlist → Rlist
place l h [] = range l h ∷ []
place l h (x ∷ xs) =
    if ltb (x.high + 1) l
    then x ∷ place l h xs
    else if ltb x.high h
    then swallow (if ltb x.low l then x.low else l) h xs
    else if ltb (h + 1) x.low
    then range l h ∷ x ∷ xs
    else range (if ltb x.low l then x.low else l) x.high ∷ xs

module _ (l h : ℕ) (x : Range) (q : l ≤ h) (p : x.high + 1 < l) where
  insert_from_skip :
      (h1 : ℕ) (j : Range) (i : Option Range) (xs : Rlist)
      → x.high < j.high
      → IsAbove x.high i
      → insert_from l h h1 j i (x ∷ xs) ≡ x ∷ insert_from l h h1 j i xs
  unfolding insert_from
  insert_from_skip h1 j none xs a b = ground arith
  insert_from_skip h1 j (some i) xs a b = ground arith

  insert_low_skip :
      (h1 : ℕ) (j : Option Range) (xs : Rlist)
      → IsAbove x.high j
      → insert_low l h h1 j (x ∷ xs) ≡ x ∷ insert_low l h h1 j xs
  unfolding insert_low
  insert_low_skip h1 none xs b = ground arith
  insert_low_skip h1 (some j) xs b = ground (
    arith,
    insert_from_skip h1 j (lower_bound h xs) xs b (lower_bound-IsAbove x.high h xs (omega arith)),
  )

  insert_skip : (xs : Rlist) → insert l h (x ∷ xs) ≡ x ∷ insert l h xs
  unfolding insert
  insert_skip [] = ground arith
  insert_skip (y ∷ ys) = ground (
    arith,
    insert_low_skip (after_high h) (lower_bound (before_low l) (y ∷ ys)) (y ∷ ys)
        (lower_bound-IsAbove x.high (before_low l) (y ∷ ys) (ground arith)),
  )

-- erase(j, i) and the entry made after it
insert_over-eq-swallow :
    (l h b k : ℕ) (xs : Rlist)
    → Above b xs
    → k < b
    → h ≤ ulong_max
    → insert_over l h (after_high h) (lower_bound h xs) (erase_range k (lower_bound h xs) xs)
      ≡ swallow l h xs
unfolding insert_over swallow lower_bound erase_range store set_low
insert_over-eq-swallow l h b k [] v p u = ground arith
insert_over-eq-swallow l h b k (y ∷ ys) v p u =
    ground
      (arith, insert_over-eq-swallow l h (y.high + 2) k ys v.3, lower_bound-IsAbove y.high h ys)

module _ (l h : ℕ) (x : Range) (xs : Rlist) (b : ℕ) (v : Above b (x ∷ xs)) (q : l ≤ h)
    (u : h ≤ ulong_max) (p : l ≤ x.high + 1) where
  insert_meets : insert l h (x ∷ xs) ≡ place l h (x ∷ xs)
  unfolding insert place
  insert_meets = elim (dec_lt x.high h) [
    | yes wide ↦ ground (
      arith,
      insert_over-eq-swallow l h (x.high + 2) x.high xs v.3,
      insert_over-eq-swallow x.low h (x.high + 2) x.high xs v.3,
      lower_bound-IsAbove x.high h xs wide,
    )
    | no inside ↦ ground arith
  ]

insert-eq-place :
    (l h b : ℕ) (r : Rlist) → Above b r → l ≤ h → h ≤ ulong_max → insert l h r ≡ place l h r
unfolding place
insert-eq-place l h b [] v q u = unfold insert in refl
insert-eq-place l h b (x ∷ xs) v q u = elim (dec_lt (x.high + 1) l) [
  | yes far ↦
      rw (insert_skip l h x q far xs) (ground (arith, insert-eq-place l h (x.high + 2) xs v.3))
  | no near ↦ insert_meets l h x xs b v q u (omega arith)
]

swallow-Above :
    (l h b c : ℕ) (xs : Rlist)
    → Above b xs
    → c ≤ l
    → l ≤ h
    → l ≤ b
    → h ≤ ulong_max
    → Above c (swallow l h xs)
unfolding swallow
swallow-Above l h b c [] v p q w u = ground arith
swallow-Above l h b c (y ∷ ys) v p q w u = ground (arith, swallow-Above l h (y.high + 2) c ys v.3)

swallow-mem :
    (l h b k : ℕ) (xs : Rlist)
    → Above b xs
    → l ≤ h
    → l ≤ b
    → mem k (swallow l h xs) ≡ (within l h k || mem k xs)
unfolding swallow mem
swallow-mem l h b k [] v q w = refl
swallow-mem l h b k (y ∷ ys) v q w = ground (arith, swallow-mem l h (y.high + 2) k ys v.3)

place-Above :
    (l h b : ℕ) (r : Rlist) → Above b r → b ≤ l → l ≤ h → h ≤ ulong_max → Above b (place l h r)
unfolding place
place-Above l h b [] v p q u = ground arith
place-Above l h b (x ∷ xs) v p q u = ground (
  arith,
  place-Above l h (x.high + 2) xs v.3,
  swallow-Above l h (x.high + 2) b xs v.3,
  swallow-Above x.low h (x.high + 2) b xs v.3,
)

place-mem :
    (l h b k : ℕ) (r : Rlist) → Above b r → l ≤ h → mem k (place l h r) ≡ (within l h k || mem k r)
unfolding place mem
place-mem l h b k [] v q = refl
place-mem l h b k (x ∷ xs) v q = ground (
  arith,
  place-mem l h (x.high + 2) k xs v.3,
  swallow-mem l h (x.high + 2) k xs v.3,
  swallow-mem x.low h (x.high + 2) k xs v.3,
)

-- On a well-formed list insert(l, h) adds the numbers from l to h and takes nothing away, if l is
-- at most h and h at most ULONG_MAX.
pub insert-mem :
    (l h k : ℕ) (r : Rlist)
    → IsValid r
    → l ≤ h
    → h ≤ ulong_max
    → mem k (insert l h r) ≡ (within l h k || mem k r)
insert-mem l h k r v q u = rw (insert-eq-place l h 0 r v q u) (place-mem l h 0 k r v q)

-- insert(l, h) leaves a well-formed list well formed, if l is at most h and h at most ULONG_MAX.
pub insert-IsValid :
    (l h : ℕ) (r : Rlist) → IsValid r → l ≤ h → h ≤ ulong_max → IsValid (insert l h r)
insert-IsValid l h r v q u =
    rw (insert-eq-place l h 0 r v q u) (place-Above l h 0 r v (omega arith) q u)
