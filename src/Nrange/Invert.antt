-- ===== src/Nrange/Invert.antt =====
-- c_nrange::invert.
use nget.Prelude.{
  dec_lt, ℕ, ◌+◌, ◌-◌, ◌≤◌, ◌<◌, ◌≡◌, [], ◌∷◌, Bool, false, ltb, leb, ◌==◌, ◌&&◌, ◌||◌, not,
  if◌then◌else◌, ulong_max, add_ulong, sub_ulong, arith,
}
use nget.Nrange.{Range, Rlist, invert, invert_from, insert}
use nget.Nrange.Members.{mem, within, Above, IsValid, Above-mono, mem_below}
use nget.Nrange.InsertRange.{insert-mem, insert-IsValid}

-- the gap below `x`, when the loop stands at `n`
fill : ℕ → Range → Rlist → Rlist
fill n x s = if n == x.low then s else insert n (sub_ulong x.low 1) s

module _ (k : ℕ) (u : k ≤ ulong_max) where
  -- what invert_from adds from `n` on
  Fills : ℕ → Rlist → Rlist → Rlist → Type 0
  Fills n r s t = (mem k t ≡ (mem k s || (leb n k && not (mem k r)))) × IsValid t

  fill-Fills :
      (n : ℕ) (x : Range) (s : Rlist)
      → n ≤ x.low
      → x.low ≤ ulong_max
      → IsValid s
      → (mem k (fill n x s) ≡ (mem k s || (leb n k && ltb k x.low))) × IsValid (fill n x s)
  unfolding fill
  fill-Fills n x s p q v = elim (dec_lt n x.low) [
    | yes gap ↦ ground (arith, insert-mem n (x.low - 1) k s v, insert-IsValid n (x.low - 1) s v)
    | no flush ↦ ground arith
  ]

  -- a pass of the loop, given the rest of it
  invert_last :
      (n : ℕ) (x : Range) (xs s : Rlist)
      → Above n (x ∷ xs)
      → IsValid s
      → ulong_max ≤ x.high
      → Fills n (x ∷ xs) s (invert_from n (x ∷ xs) s)
  unfolding Fills invert_from fill mem
  invert_last n x [] s v w h =
      let e : add_ulong x.high 1 ≡ 0 = omega arith in
      let f = fill-Fills n x s v.0 (omega arith) w in
      rw e (last_gap (mem k (fill n x s)) (mem k s) f.0, f.1)
    where
      last_gap :
          (a b : Bool)
          → a ≡ (b || (leb n k && ltb k x.low))
          → a ≡ (b || (leb n k && not (within x.low x.high k || false)))
      last_gap a b g = ground arith
  invert_last n x (y ∷ ys) s v w h = absurd (omega arith)

  invert_pass :
      (n : ℕ) (x : Range) (xs s t : Rlist)
      → Above n (x ∷ xs)
      → mem k t ≡ (mem k s || (leb n k && ltb k x.low))
      → mem k (invert_from (x.high + 1) xs t) ≡ (mem k t || (leb (x.high + 1) k && not (mem k xs)))
      → mem k (invert_from (x.high + 1) xs t)
        ≡ (mem k s || (leb n k && not (within x.low x.high k || mem k xs)))
  invert_pass n x xs s t v e f = ground (arith, mem_below (x.high + 2) k xs v.3)

  invert_step :
      (n : ℕ) (x : Range) (xs s : Rlist)
      → Above n (x ∷ xs)
      → IsValid s
      → ((t : Rlist)
          → IsValid t
          → x.high < ulong_max
          → Fills (x.high + 1) xs t (invert_from (x.high + 1) xs t))
      → Fills n (x ∷ xs) s (invert_from n (x ∷ xs) s)
  invert_step n x xs s v w rest = elim (dec_lt x.high ulong_max) [
    | yes h ↦
        let e : add_ulong x.high 1 ≡ x.high + 1 = omega arith in
        let f = fill-Fills n x s v.0 (omega arith) w in
        let g = rest (fill n x s) f.1 h in
        unfold Fills invert_from fill mem in rw e (invert_pass n x xs s (fill n x s) v f.0 g.0, g.1)
    | no h ↦ invert_last n x xs s v w (omega arith)
  ]

  invert_from-Fills :
      (n : ℕ) (r s : Rlist)
      → 0 < n
      → n ≤ ulong_max
      → Above n r
      → IsValid s
      → Fills n r s (invert_from n r s)
  unfolding Fills
  invert_from-Fills n [] s p q v w =
      unfold invert_from mem in
      ground (arith, insert-mem n ulong_max k s w q, insert-IsValid n ulong_max s w q)
  invert_from-Fills n (x ∷ xs) s p q v w = invert_step n x xs s v w (λ t z h.
      invert_from-Fills (x.high + 1) xs t (omega arith) (omega arith)
        (Above-mono (x.high + 2) (x.high + 1) xs (omega arith) v.3) z)

  -- With well-formed lists, invert(r) adds to the set the unsigned longs that are not in r, and no
  -- others, keeps those that were there, and leaves the list well formed.
  pub invert-mem :
      (r s : Rlist)
      → IsValid r
      → IsValid s
      → (mem k (invert r s) ≡ (mem k s || not (mem k r))) × IsValid (invert r s)
  unfolding invert
  invert-mem [] s v w =
      unfold mem in
      ground (
        arith,
        insert-mem 0 ulong_max k s w (omega arith),
        insert-IsValid 0 ulong_max s w (omega arith),
      )
  invert-mem (x ∷ xs) s v w =
      let g = invert_step 0 x xs s v w (λ t z h.
        invert_from-Fills (x.high + 1) xs t (omega arith) (omega arith)
          (Above-mono (x.high + 2) (x.high + 1) xs (omega arith) v.3) z) in
      unfold Fills in (ground (arith, g.0), g.1)
