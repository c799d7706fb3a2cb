-- ===== src/Nrange/Remove/Cut.antt =====
-- What a pass of remove(l, h) cuts out of a list.
use nget.Prelude.{
  subst, ◌⊎◌, ℕ, inl, inr, ◌+◌, ◌-◌, ◌≤◌, ◌<◌, ◌≡◌, refl, [], ◌∷◌, some, none, Bool, true, false,
  ltb, leb, ◌&&◌, ◌||◌, not, if◌then◌else◌, ulong_max, arith, Option, Bool-cases, ◌∙◌, ap,
}
use nget.Nrange.{
  or_else, Range, range, Rlist, remove, remove_from, remove_down, remove_start, trim, trim_next,
  up_to, lower_bound,
}
use nget.Nrange.Members.{mem, within, Above, IsValid, Above-mono, mem_below}

up_to-Above : (b k : ℕ) (r : Rlist) → Above b r → Above b (up_to k r)
unfolding up_to
up_to-Above b k [] v = tt
up_to-Above b k (x ∷ xs) v = ground (arith, up_to-Above (x.high + 2) k xs v.3)

-- a pass below which nothing changes
abbrev onto : Range → Rlist × Bool → Rlist × Bool
onto x (r, s) = (x ∷ r, s)

trim_skip :
    (l h : ℕ) (x j : Range) (r : Rlist)
    → x.high < j.low
    → j.low ≤ j.high
    → trim l h j (x ∷ r) ≡ onto x (trim l h j r)
unfolding trim
trim_skip l h x j r p q = ground arith

trim_next_skip :
    (l h : ℕ) (x j : Range) (s : Rlist × Bool)
    → x.high < j.low
    → j.low ≤ j.high
    → trim_next l h j (onto x s) ≡ onto x (trim_next l h j s)
unfolding trim_next
trim_next_skip l h x j (r, true) p q = refl
trim_next_skip l h x j (r, false) p q = trim_skip l h x j r p q

remove_down_skip :
    (l h b : ℕ) (x : Range) (js r : Rlist)
    → Above b js
    → x.high < b
    → remove_down l h js (x ∷ r) ≡ onto x (remove_down l h js r)
unfolding remove_down
remove_down_skip l h b x [] r v p = refl
remove_down_skip l h b x (j ∷ js) r v p =
    ap (trim_next l h j) (remove_down_skip l h (j.high + 2) x js r v.3 (omega arith))
    ∙ trim_next_skip l h x j (remove_down l h js r) (omega arith) (omega arith)

-- the loop breaks at a range that begins below l
remove_down_breaks :
    (l h b : ℕ) (js r : Rlist) → Above b js → (remove_down l h js r).1 ≡ true → b < l
unfolding remove_down
remove_down_breaks l h b [] r v e = cc
remove_down_breaks l h b (j ∷ js) r v e =
    next (remove_down l h js r) (remove_down_breaks l h (j.high + 2) js r v.3) e
  where
    next : (s : Rlist × Bool) → (s.1 ≡ true → j.high + 2 < l) → (trim_next l h j s).1 ≡ true → b < l
    next (w, true) f e = omega (arith, f refl)
    next (w, false) f e = unfold trim_next trim in ground arith

-- what is left of one range, in front of `rest`
abbrev cut_high : ℕ → Range → Rlist → Rlist
cut_high h x rest = if ltb h x.high then range (h + 1) x.high ∷ rest else rest

cut : ℕ → ℕ → Range → Rlist → Rlist
cut l h x rest =
    if ltb x.high l || ltb h x.low
    then x ∷ rest
    else if ltb x.low l
    then range x.low (l - 1) ∷ cut_high h x rest
    else cut_high h x rest

-- what is left of the ranges up to the key `k`
pub cut_up_to : ℕ → ℕ → ℕ → Rlist → Rlist
cut_up_to l h k [] = []
cut_up_to l h k (x ∷ xs) = if leb x.high k then cut l h x (cut_up_to l h k xs) else x ∷ xs

trim_next-cut :
    (l h : ℕ) (x : Range) (s : Rlist × Bool)
    → l ≤ h
    → x.low ≤ x.high
    → x.high ≤ ulong_max
    → (s.1 ≡ true → x.high < l)
    → (trim_next l h x (onto x s)).0 ≡ cut l h x s.0
unfolding trim_next trim cut
trim_next-cut l h x (r, true) q w u f = ground (arith, f refl)
trim_next-cut l h x (r, false) q w u f = ground arith

remove_down-cut :
    (l h k b : ℕ) (r : Rlist)
    → Above b r
    → l ≤ h
    → (remove_down l h (up_to k r) r).0 ≡ cut_up_to l h k r
unfolding remove_down up_to cut_up_to
remove_down-cut l h k b [] v q = refl
remove_down-cut l h k b (x ∷ xs) v q = elim (Bool-cases (leb x.high k)) [
  | inl e ↦ rw e (
      ap (λ s. (trim_next l h x s).0)
        (remove_down_skip l h (x.high + 2) x (up_to k xs) xs below (omega arith))
      ∙ trim_next-cut l h x (remove_down l h (up_to k xs) xs) q v.1 v.2
          (λ stop. omega (arith, remove_down_breaks l h (x.high + 2) (up_to k xs) xs below stop))
      ∙ ap (λ w. cut l h x w) (remove_down-cut l h k (x.high + 2) xs v.3 q))
  | inr e ↦ rw e
]
  where
    below : Above (x.high + 2) (up_to k xs)
    below = up_to-Above (x.high + 2) k xs v.3

-- no range reaches across `k`
abbrev IsParted : ℕ → Rlist → Type 0
IsParted k [] = Unit {0}
IsParted k (x ∷ xs) = ((x.high ≤ k) ⊎ (k < x.low)) × IsParted k xs

below-IsParted : (b k : ℕ) (r : Rlist) → Above b r → k < b → IsParted k r
below-IsParted b k [] v p = tt
below-IsParted b k (x ∷ xs) v p =
    (inr (omega arith), below-IsParted (x.high + 2) k xs v.3 (omega arith))

lower_bound-le :
    (b n : ℕ) (r : Rlist) (i : Range) → Above b r → lower_bound n r ≡ some i → b ≤ i.high
unfolding lower_bound
lower_bound-le b n [] i v e = cc
lower_bound-le b n (x ∷ xs) i v e = ground (arith, lower_bound-le (x.high + 2) n xs i v.3)

lower_bound-IsParted :
    (b n : ℕ) (r : Rlist) (i : Range) → Above b r → lower_bound n r ≡ some i → IsParted i.high r
unfolding lower_bound
lower_bound-IsParted b n [] i v e = tt
lower_bound-IsParted b n (x ∷ xs) i v e = elim (Bool-cases (leb n x.high)) [
  | inl f ↦
      let g : x ≡ i = ground arith in
      subst (λ (j : Range). IsParted j.high (x ∷ xs)) g
        (inl (omega arith), below-IsParted (x.high + 2) x.high xs v.3 (omega arith))
  | inr f ↦ (
    inl (omega (arith, lower_bound-le (x.high + 2) n xs i v.3 (ground arith))),
    lower_bound-IsParted (x.high + 2) n xs i v.3 (ground arith),
  )
]

cut-mem :
    (l h n : ℕ) (x : Range) (rest : Rlist)
    → l ≤ h
    → x.low ≤ x.high
    → mem n (cut l h x rest) ≡ ((within x.low x.high n && not (within l h n)) || mem n rest)
unfolding cut mem
cut-mem l h n x rest q w = ground arith

cut-Above :
    (l h b : ℕ) (x : Range) (rest : Rlist)
    → l ≤ h
    → b ≤ x.low
    → x.low ≤ x.high
    → x.high ≤ ulong_max
    → Above (x.high + 2) rest
    → Above b (cut l h x rest)
unfolding cut
cut-Above l h b x rest q p w u v =
    ground (arith, Above-mono (x.high + 2) b rest, Above-mono (x.high + 2) (l + 1) rest)

pub cut_up_to-mem :
    (l h k b n : ℕ) (r : Rlist)
    → Above b r
    → IsParted k r
    → l ≤ h
    → mem n (cut_up_to l h k r) ≡ (mem n r && not (within l h n && leb n k))
unfolding cut_up_to mem
cut_up_to-mem l h k b n [] v a q = refl
cut_up_to-mem l h k b n (x ∷ xs) v a q = elim a.0 [
  | inl le ↦ ground (
    arith,
    cut-mem l h n x (cut_up_to l h k xs) q v.1,
    cut_up_to-mem l h k (x.high + 2) n xs v.3 a.1 q,
  )
  | inr lt ↦ ground (arith, mem_below (x.high + 2) n xs v.3)
]

pub cut_up_to-Above : (l h k b : ℕ) (r : Rlist) → Above b r → l ≤ h → Above b (cut_up_to l h k r)
unfolding cut_up_to
cut_up_to-Above l h k b [] v q = tt
cut_up_to-Above l h k b (x ∷ xs) v q = ground (
  arith,
  cut-Above l h b x (cut_up_to l h k xs) q v.0 v.1 v.2
      (cut_up_to-Above l h k (x.high + 2) xs v.3 q),
)

pub start-IsParted :
    (l h : ℕ) (r : Rlist) (i j : Option Range) (k : Range)
    → IsValid r
    → lower_bound h r ≡ i
    → lower_bound l r ≡ j
    → or_else i j ≡ some k
    → IsParted k.high r
unfolding or_else
start-IsParted l h r (some i) j k v e f g = lower_bound-IsParted 0 h r k v (e ∙ g)
start-IsParted l h r none j k v e f g = lower_bound-IsParted 0 l r k v (f ∙ g)

pub remove-cut :
    (l h : ℕ) (r : Rlist) (i : Range)
    → IsValid r
    → l ≤ h
    → remove_start l h r ≡ some i
    → remove l h r ≡ cut_up_to l h i.high r
unfolding remove remove_from cut_up_to
remove-cut l h [] i v q e = refl
remove-cut l h (x ∷ xs) i v q e =
    ap (λ o. remove_from l h o (x ∷ xs)) e ∙ remove_down-cut l h i.high 0 (x ∷ xs) v q
