-- ===== src/Nrange/Remove.antt =====
-- c_nrange::remove(l, h).
mod Cut
use nget.Prelude.{
  subst, ◌⊎◌, ℕ, inl, inr, ◌+◌, ◌-◌, ◌≤◌, ◌<◌, ◌≡◌, refl, [], ◌∷◌, some, none, Bool, true, false,
  ltb, leb, ◌==◌, ◌&&◌, ◌||◌, not, if◌then◌else◌, ulong_max, arith, Option, Option-cases,
  Bool-cases, ◌∙◌, ap,
}
use nget.Nrange.{
  remove_one, or_else, Range, range, Rlist, remove, remove_from, remove_down, remove_start, trim,
  trim_next, up_to, lower_bound,
}
use nget.Nrange.Members.{mem, within, Above, IsValid, Above-mono, mem_below}
use nget.Nrange.Remove.Cut.{cut_up_to, cut_up_to-mem, cut_up_to-Above, start-IsParted, remove-cut}

-- On a well-formed list, with l at most h, where the loop of remove(l, h) starts at the entry i
-- (the first that ends at or above h, or else at or above l), it takes away the numbers from l to
-- h that do not lie above i's range, and no others.
pub remove-mem :
    (l h n : ℕ) (r : Rlist) (i : Range)
    → IsValid r
    → l ≤ h
    → remove_start l h r ≡ some i
    → mem n (remove l h r) ≡ (mem n r && not (within l h n && leb n i.high))
remove-mem l h n r i v q e =
    ap (mem n) (remove-cut l h r i v q e)
    ∙ cut_up_to-mem l h i.high 0 n r v
        (unfold remove_start in start-IsParted l h r _ _ i v refl refl e) q

remove-none : (l h : ℕ) (r : Rlist) → remove_start l h r ≡ none → remove l h r ≡ r
unfolding remove
remove-none l h [] e = refl
remove-none l h (x ∷ xs) e = ap (λ o. remove_from l h o (x ∷ xs)) e

-- remove(l, h) with l at most h leaves a well-formed list well formed.
pub remove-IsValid : (l h : ℕ) (r : Rlist) → IsValid r → l ≤ h → IsValid (remove l h r)
remove-IsValid l h r v q = elim (Option-cases (remove_start l h r)) [
  | inl e ↦ rw (remove-none l h r e) v
  | inr (i, e) ↦ rw (remove-cut l h r i v q e) (cut_up_to-Above l h i.high 0 r v q)
]

lower_bound-mem :
    (b h m : ℕ) (r : Rlist)
    → Above b r
    → mem m r ≡ true
    → h ≤ m
    → (i : Range) × (lower_bound h r ≡ some i) × (h ≤ i.high)
unfolding lower_bound mem
lower_bound-mem b h m [] v e p = cc
lower_bound-mem b h m (x ∷ xs) v e p = elim (Bool-cases (leb h x.high)) [
  | inl f ↦ (x, rw f, ground arith)
  | inr f ↦
      let (i, g, k) = lower_bound-mem (x.high + 2) h m xs v.3 (ground arith) p in (i, rw f g, k)
]

-- On a well-formed list that holds a number not below h, remove(l, h) with l at most h takes away
-- the numbers from l to h and no others.
pub remove-mem_exact :
    (l h m n : ℕ) (r : Rlist)
    → IsValid r
    → l ≤ h
    → mem m r ≡ true
    → h ≤ m
    → mem n (remove l h r) ≡ (mem n r && not (within l h n))
remove-mem_exact l h m n r v q e p =
    let (i, f, k) = lower_bound-mem 0 h m r v e p in
    ground (
      arith,
      remove-mem l h n r i v q (unfold remove_start in ap (λ o. or_else o (lower_bound l r)) f),
    )

lower_bound-le-key : (n : ℕ) (r : Rlist) (i : Range) → lower_bound n r ≡ some i → n ≤ i.high
unfolding lower_bound
lower_bound-le-key n [] i e = cc
lower_bound-le-key n (x ∷ xs) i e = ground (arith, lower_bound-le-key n xs i)

lower_bound-none : (n : ℕ) (r : Rlist) → lower_bound n r ≡ none → mem n r ≡ false
unfolding lower_bound mem
lower_bound-none n [] e = refl
lower_bound-none n (x ∷ xs) e = ground (arith, lower_bound-none n xs)

-- On a well-formed list remove(n) takes away n and no other number.
pub remove_one-mem :
    (n k : ℕ) (r : Rlist) → IsValid r → mem k (remove_one n r) ≡ (mem k r && not (k == n))
unfolding remove_one
remove_one-mem n k r v = elim (Option-cases (lower_bound n r)) [
  | inl e ↦
      rw (remove-none n n r (unfold remove_start or_else in rw e))
        (ground (arith, lower_bound-none n r e))
  | inr (i, e) ↦ ground (
    arith,
    lower_bound-le-key n r i e,
    remove-mem n n k r i v (omega arith) (unfold remove_start or_else in rw e),
  )
]

pub remove_one-IsValid : (n : ℕ) (r : Rlist) → IsValid r → IsValid (remove_one n r)
unfolding remove_one
remove_one-IsValid n r v = remove-IsValid n n r v (omega arith)

-- a number outside the bounds stays in the list if it was there
pub remove-outside :
    (l h n : ℕ) (r : Rlist)
    → IsValid r
    → l ≤ h
    → within l h n ≡ false
    → mem n (remove l h r) ≡ mem n r
remove-outside l h n r v q e = elim (Option-cases (remove_start l h r)) [
  | inl f ↦ ap (mem n) (remove-none l h r f)
  | inr (i, f) ↦ ground (arith, remove-mem l h n r i v q f)
]
