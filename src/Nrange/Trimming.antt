-- ===== src/Nrange/Trimming.antt =====
-- c_nrange::clip_to_max_total.
use nget.Prelude.{
  ℕ, ◌+◌, ◌-◌, ◌≤◌, ◌<◌, ◌≡◌, refl, [], ◌∷◌, true, leb, ◌&&◌, ulong_max, ulong_mod, add_ulong,
  sub_ulong, arith, ◌∙◌, sym,
}
use nget.Nrange.{
  Range, Rlist, Clip, more, new_low, clip_range, clip_scan, clip_at, clip_to_max_total,
}
use nget.Nrange.Members.{mem, Above, IsValid, mem_below}
use nget.Nrange.Remove.{remove-mem_exact}
use nget.Nrange.Total.{count_below, size, count_below-range, count_below-size, count_below-zero}

-- what the loop has found when it has gone through `r`
abbrev Scanned : ℕ → Rlist → Clip → Type 0
Scanned num r (more tot) = (tot ≡ size r) × (size r < num)
Scanned num r (new_low n) = (mem n r ≡ true) × (count_below n r + num ≡ size r)

clip_range-Scanned :
    (num b : ℕ) (x : Range) (xs : Rlist) (c : Clip)
    → Above b (x ∷ xs)
    → 0 < num
    → size (x ∷ xs) < ulong_mod
    → Scanned num xs c
    → Scanned num (x ∷ xs) (clip_range num x c)
unfolding clip_range size mem
clip_range-Scanned num b x xs (more tot) v p q s = ground (
  arith,
  count_below-range
      (add_ulong x.low (sub_ulong (add_ulong tot (add_ulong (sub_ulong x.high x.low) 1)) num)) b x
      xs v,
  count_below-zero
      (add_ulong x.low (sub_ulong (add_ulong tot (add_ulong (sub_ulong x.high x.low) 1)) num))
      (x.high + 2) xs v.3,
)
clip_range-Scanned num b x xs (new_low n) v p q s =
    ground (arith, count_below-range n b x xs v, mem_below (x.high + 2) n xs v.3)

clip_scan-Scanned :
    (num b : ℕ) (r : Rlist)
    → Above b r
    → 0 < num
    → size r < ulong_mod
    → Scanned num r (clip_scan num r)
unfolding clip_scan size
clip_scan-Scanned num b [] v p q = (refl, p)
clip_scan-Scanned num b (x ∷ xs) v p q =
    unfold clip_scan in
    clip_range-Scanned num b x xs (clip_scan num xs) v p q
      (clip_scan-Scanned num (x.high + 2) xs v.3 p (omega arith))

-- the numbers of `r` from some n on, of which there are `num`
pub Keeps : ℕ → Rlist → Rlist → Type 0
Keeps num r t =
    (n : ℕ) × (mem n r ≡ true)
    × (count_below n r + num ≡ count_below ulong_mod r)
    × ((k : ℕ) → mem k t ≡ (mem k r && leb n k))

mem-bounds : (b n : ℕ) (r : Rlist) → Above b r → mem n r ≡ true → (b ≤ n) × (n ≤ ulong_max)
unfolding mem
mem-bounds b n [] v e = cc
mem-bounds b n (x ∷ xs) v e = ground (arith, mem-bounds (x.high + 2) n xs v.3)

clip_at-mem :
    (x : Range) (xs : Rlist) (n k : ℕ)
    → IsValid (x ∷ xs)
    → mem n (x ∷ xs) ≡ true
    → mem k (clip_at (new_low n) x.low (x ∷ xs)) ≡ (mem k (x ∷ xs) && leb n k)
unfolding clip_at
clip_at-mem x xs n k v e = ground (
  arith,
  remove-mem_exact x.low (n - 1) n k (x ∷ xs) v,
  mem-bounds x.low n (x ∷ xs) from_low e,
  mem-bounds x.low k (x ∷ xs) from_low,
)
  where
    from_low : Above x.low (x ∷ xs)
    from_low = (omega arith, v.1, v.2, v.3)

clip_at-Keeps :
    (num : ℕ) (x : Range) (xs : Rlist) (c : Clip)
    → IsValid (x ∷ xs)
    → num ≤ count_below ulong_mod (x ∷ xs)
    → Scanned num (x ∷ xs) c
    → Keeps num (x ∷ xs) (clip_at c x.low (x ∷ xs))
unfolding Keeps
clip_at-Keeps num x xs (more tot) v q s =
    absurd (omega (arith, count_below-size ulong_mod 0 (x ∷ xs) v))
clip_at-Keeps num x xs (new_low n) v q s = (
  n,
  s.0,
  s.1 ∙ sym (count_below-size ulong_mod 0 (x ∷ xs) v (omega arith)),
  λ k. clip_at-mem x xs n k v s.0,
)

-- If a well-formed list does not hold every unsigned long and has num numbers or more, for a num
-- above 0, clip_to_max_total(num) keeps its numbers from some number n of the set on, of which
-- there are num, and drops those below n.
pub clip-Keeps :
    (num : ℕ) (r : Rlist)
    → IsValid r
    → 0 < num
    → num ≤ count_below ulong_mod r
    → count_below ulong_mod r < ulong_mod
    → Keeps num r (clip_to_max_total num r)
unfolding clip_to_max_total
clip-Keeps num [] v p q u = absurd (omega (arith, count_below-zero ulong_mod ulong_mod [] tt))
clip-Keeps num (x ∷ xs) v p q u =
    clip_at-Keeps num x xs (clip_scan num (x ∷ xs)) v q (
      clip_scan-Scanned num 0 (x ∷ xs) v p (omega (arith, count_below-size ulong_mod 0 (x ∷ xs) v)))

clip_at-same :
    (num : ℕ) (r : Rlist) (c : Clip) (l : ℕ) → Scanned num r c → size r < num → clip_at c l r ≡ r
unfolding clip_at
clip_at-same num r (more tot) l s q = refl
clip_at-same num r (new_low n) l s q = absurd (omega arith)

-- On a well-formed list with fewer than num numbers, and not every unsigned long,
-- clip_to_max_total(num) changes nothing.
pub clip_few :
    (num : ℕ) (r : Rlist)
    → IsValid r
    → count_below ulong_mod r < num
    → count_below ulong_mod r < ulong_mod
    → clip_to_max_total num r ≡ r
unfolding clip_to_max_total
clip_few num [] v p u = refl
clip_few num (x ∷ xs) v p u =
    let e = count_below-size ulong_mod 0 (x ∷ xs) v (omega arith) in
    clip_at-same num (x ∷ xs) (clip_scan num (x ∷ xs)) x.low
      (clip_scan-Scanned num 0 (x ∷ xs) v (omega arith) (omega arith)) (omega arith)
