-- ===== src/Cache/Subject/Scanning.antt =====
-- The scan of a subject from its end.
use nget.Prelude.{
  ℕ, suc, ◌+◌, ◌≤◌, ◌≡◌, ◌≢◌, refl, ap, sym, subst, ◌∙◌, ℤ, pos, [], ◌∷◌, ◌++◌, some, Text, arith,
  length,
}
use nget.Decimal.RoundTrip.{AllDigits}
use nget.Cache.Subject.{
  find_close, find_open, number_here, req_behind, found_or, scan_back, scan_from, reversed_onto,
}

abbrev pub NoSlash : Text → Type 0
NoSlash [] = Unit {0}
NoSlash (c ∷ cs) = (c ≢ 47) × NoSlash cs

pub NoSlash-append : (s t : Text) → NoSlash s → NoSlash t → NoSlash (s ++ t)
NoSlash-append [] t v w = w
NoSlash-append (c ∷ cs) t v w = (v.0, NoSlash-append cs t v.1 w)

pub AllDigits-NoSlash : (s : Text) → AllDigits s → NoSlash s
AllDigits-NoSlash [] v = tt
AllDigits-NoSlash (c ∷ cs) v = (ground arith, AllDigits-NoSlash cs v.2)

pub reversed_onto-append :
    (s t before : Text) → reversed_onto (s ++ t) before ≡ reversed_onto t (reversed_onto s before)
unfolding reversed_onto
reversed_onto-append [] t before = refl
reversed_onto-append (c ∷ cs) t before = reversed_onto-append cs t (c ∷ before)

pub length-reversed_onto :
    (s before : Text) → length (reversed_onto s before) ≡ length s + length before
unfolding reversed_onto
length-reversed_onto [] before = omega arith
length-reversed_onto (c ∷ cs) before = omega (arith, length-reversed_onto cs (c ∷ before))

pub reversed_onto-cons :
    (s : Text) (b : ℕ) (bs : Text) → (p : ℕ) × (ps : Text) × (reversed_onto s (b ∷ bs) ≡ p ∷ ps)
unfolding reversed_onto
reversed_onto-cons [] b bs = (b, bs, refl)
reversed_onto-cons (c ∷ cs) b bs = reversed_onto-cons cs c (b ∷ bs)

-- no slash, no number
scan_back-pass :
    (b : ℕ) (bs : Text) (c : ℕ) (cs : Text) (req : ℤ)
    → c ≢ 47
    → scan_back (b ∷ bs) (c ∷ cs) req ≡ scan_back bs (b ∷ c ∷ cs) req
unfolding scan_back number_here req_behind found_or
scan_back-pass b bs c cs req h = ground arith

scan_back-pass_onto :
    (u : Text) (b : ℕ) (bs : Text) (c : ℕ) (cs : Text) (req : ℤ)
    → c ≢ 47
    → NoSlash u
    → scan_back (b ∷ bs) (u ++ c ∷ cs) req ≡ scan_back bs (b ∷ (u ++ c ∷ cs)) req
scan_back-pass_onto [] b bs c cs req h v = scan_back-pass b bs c cs req h
scan_back-pass_onto (w ∷ u) b bs c cs req h v = scan_back-pass b bs w (u ++ c ∷ cs) req v.0

scan_back-reversed :
    (u : Text) (b : ℕ) (bs : Text) (c : ℕ) (cs : Text) (req : ℤ)
    → c ≢ 47
    → NoSlash u
    → scan_back (reversed_onto u (b ∷ bs)) (c ∷ cs) req ≡ scan_back (b ∷ bs) (u ++ c ∷ cs) req
unfolding reversed_onto
scan_back-reversed [] b bs c cs req h v = refl
scan_back-reversed (x ∷ u) b bs c cs req h v =
    scan_back-reversed u x (b ∷ bs) c cs req h v.1 ∙ scan_back-pass_onto u x (b ∷ bs) c cs req h v.1

-- the end of a subject, in the middle of which there is no slash
NoSlash-init : (u t : Text) → NoSlash (u ++ t) → NoSlash u
NoSlash-init [] t v = tt
NoSlash-init (c ∷ u) t v = (v.0, NoSlash-init u t v.1)

NoSlash-tail : (u t : Text) → NoSlash (u ++ t) → NoSlash t
NoSlash-tail [] t v = v
NoSlash-tail (c ∷ u) t v = NoSlash-tail u t v.1

scan_from-slash :
    (u : Text) (b : ℕ) (bs : Text) (y x : ℕ)
    → NoSlash (u ++ y ∷ x ∷ [])
    → scan_from (reversed_onto (u ++ y ∷ x ∷ []) (47 ∷ b ∷ bs))
      ≡ scan_back (b ∷ bs) (47 ∷ (u ++ y ∷ x ∷ [])) (pos 0)
unfolding scan_from reversed_onto
scan_from-slash u b bs y x v =
    let (z, zs, e) = reversed_onto-cons u 47 (b ∷ bs) in
    let h : y ≢ 47 = (NoSlash-tail u (y ∷ x ∷ []) v).0 in
    let w : NoSlash u = NoSlash-init u (y ∷ x ∷ []) v in
    ap scan_from (reversed_onto-append u (y ∷ x ∷ []) (47 ∷ b ∷ bs) ∙ ap (λ r. x ∷ y ∷ r) e)
    ∙ sym (scan_back-pass z zs y (x ∷ []) (pos 0) h)
    ∙ ap (λ r. scan_back r (y ∷ x ∷ []) (pos 0)) (sym e)
    ∙ scan_back-reversed u 47 (b ∷ bs) y (x ∷ []) (pos 0) h w
    ∙ scan_back-pass_onto u 47 (b ∷ bs) y (x ∷ []) (pos 0) h w

pub find_close-digits :
    (ds rest : Text) (n : ℕ)
    → AllDigits ds
    → find_close (ds ++ 41 ∷ rest) n ≡ some (n + length ds, 41)
unfolding find_close
find_close-digits [] rest n v = ap (λ m. some (m, 41)) (omega arith)
find_close-digits (d ∷ ds) rest n v = ground (arith, find_close-digits ds rest (suc n) v.2)

pub find_open-digits :
    (ds : Text) (b c : ℕ) (bs t : Text)
    → AllDigits ds
    → find_open 40 (reversed_onto ds (b ∷ c ∷ bs)) t ≡ find_open 40 (b ∷ c ∷ bs) (ds ++ t)
unfolding reversed_onto
find_open-digits [] b c bs t v = refl
find_open-digits (d ∷ ds) b c bs t v =
    find_open-digits ds d b (c ∷ bs) t v.2 ∙ unfold find_open in ground arith

-- the last two bytes
ends_in : (t : Text) → 2 ≤ length t → (u : Text) × (y : ℕ) × (x : ℕ) × (t ≡ u ++ y ∷ x ∷ [])
ends_in [] h = absurd (omega arith)
ends_in (a ∷ []) h = absurd (omega arith)
ends_in (a ∷ b ∷ []) h = ([], a, b, refl)
ends_in (a ∷ b ∷ c ∷ cs) h =
    let (u, y, x, e) = ends_in (b ∷ c ∷ cs) (omega arith) in (a ∷ u, y, x, ap (λ t. a ∷ t) e)

pub scan_from-last :
    (t : Text) (b : ℕ) (bs : Text)
    → NoSlash t
    → 2 ≤ length t
    → scan_from (reversed_onto t (47 ∷ b ∷ bs)) ≡ scan_back (b ∷ bs) (47 ∷ t) (pos 0)
scan_from-last t b bs v h =
    let (u, y, x, e) = ends_in t h in
    ap (λ r. scan_from (reversed_onto r (47 ∷ b ∷ bs))) e
    ∙ scan_from-slash u b bs y x (subst (λ r. NoSlash r) e v)
    ∙ ap (λ r. scan_back (b ∷ bs) (47 ∷ r) (pos 0)) (sym e)
