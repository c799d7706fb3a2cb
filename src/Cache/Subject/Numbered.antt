-- ===== src/Cache/Subject/Numbered.antt =====
-- Subjects with a number in brackets.
use Prim.Native.Nat.{min}
use nget.Prelude.{
  ◌<◌, ◌-◌, ◌%◌, ltb, ◌^◌, ℕ, suc, ◌+◌, ◌≤◌, ◌≡◌, ◌≢◌, refl, ap, sym, ◌∙◌, pos, ltb_ℤ, eqb_ℤ, [],
  ◌∷◌, ◌++◌, true, false, if◌then◌else◌, some, none, Text, arith, length, take, append_assoc,
  length-append,
}
use nget.Decimal.{print_ulong, starts_digit}
use nget.Decimal.RoundTrip.{print_ulong-AllDigits, strtol-print_ulong, starts_digit-print_ulong}
use nget.Cache.Subject.{
  to_int, Numbering, open_of, find_open, number_before, numbering_of, number_at, number_to,
  parsepnum, not_negative, number_here, numbered, found_or, scan_back, scan_from, reversed_onto,
  subject_of, number_subject,
}
use nget.Cache.Subject.Scanning.{
  NoSlash, NoSlash-append, AllDigits-NoSlash, reversed_onto-append, length-reversed_onto,
  reversed_onto-cons, scan_from-last, find_close-digits, find_open-digits,
}

to_int-small : (n : ℕ) → n < 2 ^ 31 → to_int (pos n) ≡ pos n
unfolding to_int
to_int-small n h =
    let same : min n (2 ^ 63 - 1) % 2 ^ 32 ≡ n = omega arith in
    let below : ltb n (2 ^ 31) ≡ true = ground arith in rw (same, below) refl

module _ (n k : ℕ) (post : Text) where
  abbrev pub behind_slash : Text
  behind_slash = print_ulong k ++ 41 ∷ post

  numbering_of-numbers :
      (partoff tailoff : ℕ)
      → 1 ≤ n
      → n ≤ k
      → numbering_of (some (pos n)) (some (pos k)) partoff tailoff
        ≡ some
            (record { req = pos k; partoff = pos partoff; tailoff = pos tailoff; partnum = pos n })
  unfolding numbering_of
  numbering_of-numbers partoff tailoff h b = ground arith

  number_at-numbers :
      (partoff tailoff : ℕ)
      → 1 ≤ n
      → n ≤ k
      → k < 2 ^ 31
      → number_at (some (partoff, print_ulong n ++ 47 ∷ behind_slash)) 41 behind_slash tailoff
        ≡ some
            (record { req = pos k; partoff = pos partoff; tailoff = pos tailoff; partnum = pos n })
  unfolding number_at number_before
  number_at-numbers partoff tailoff h b w =
      rw
        (
          strtol-print_ulong n (47 ∷ behind_slash) (unfold starts_digit in refl),
          strtol-print_ulong k (41 ∷ post) (unfold starts_digit in refl),
          to_int-small n (omega arith),
          to_int-small k w,
        )
        (numbering_of-numbers partoff tailoff h b)

  -- the text before the slash, turned around: the digits on the bracket on at least one byte
  parsepnum-numbers :
      (p : ℕ) (ps : Text)
      → 1 ≤ n
      → n ≤ k
      → k < 2 ^ 31
      → parsepnum (reversed_onto (print_ulong n) (40 ∷ p ∷ ps)) behind_slash
        ≡ some (record {
          req = pos k;
          partoff = pos (suc (length (p ∷ ps)));
          tailoff =
              pos (
                suc (length (reversed_onto (print_ulong n) (40 ∷ p ∷ ps)))
                + length (print_ulong k));
          partnum = pos n;
        })
  unfolding parsepnum number_to open_of find_open
  parsepnum-numbers p ps h b w =
      rw
        (
          find_close-digits (print_ulong k) post 0 (print_ulong-AllDigits k),
          find_open-digits (print_ulong n) 40 p ps (47 ∷ behind_slash) (print_ulong-AllDigits n),
        )
        (number_at-numbers _ _ h b w
          ∙ ap
              (λ t. some (record {
                req = pos k;
                partoff = pos (suc (length (p ∷ ps)));
                tailoff = pos t;
                partnum = pos n;
              }))
              (omega arith))

  -- the subject, up to its start
  abbrev pub numbered_subject : Text → Text
  numbered_subject pre = pre ++ 40 ∷ (print_ulong n ++ 47 ∷ behind_slash)

  abbrev pub number_in : Text → Numbering
  number_in pre = record {
    req = pos k;
    partoff = pos (suc (length pre));
    tailoff = pos (length pre + length (print_ulong n) + length (print_ulong k) + 2);
    partnum = pos n;
  }

  take_bracket : (pre rest : Text) → take (suc (length pre)) (pre ++ 40 ∷ rest) ≡ pre ++ 40 ∷ []
  take_bracket [] rest = refl
  take_bracket (c ∷ cs) rest = ap (λ r. c ∷ r) (take_bracket cs rest)

  scan_back-found :
      (f : ℕ) (fs t : Text) (m : Numbering)
      → parsepnum (f ∷ fs) t ≡ some m
      → ltb_ℤ m.req (pos 0) ≡ false
      → scan_back (f ∷ fs) (47 ∷ t) (pos 0) ≡ numbered m (47 ∷ t)
  unfolding scan_back number_here found_or not_negative
  scan_back-found f fs t m e h =
      rw e (
        ap (λ b. found_or (if b then none else some m) (47 ∷ t) (scan_back fs (f ∷ 47 ∷ t) m.req))
          h)

  scan_back-numbers :
      (c : ℕ) (cs : Text)
      → 1 ≤ n
      → n ≤ k
      → k < 2 ^ 31
      → scan_back
          (reversed_onto (print_ulong n) (40 ∷ reversed_onto (c ∷ cs) []))
          (47 ∷ behind_slash)
          (pos 0)
        ≡ numbered (number_in (c ∷ cs)) (47 ∷ behind_slash)
  unfolding reversed_onto
  scan_back-numbers c cs h b w =
      let (p, ps, e) = reversed_onto-cons cs c [] in
      let (f, fs, e2) = reversed_onto-cons (print_ulong n) 40 (p ∷ ps) in
      let long : suc (length ps) ≡ length cs + 1 =
        ap length (sym e) ∙ length-reversed_onto cs (c ∷ []) in
      let longer : length (reversed_onto (print_ulong n) (40 ∷ p ∷ ps))
          ≡ length (print_ulong n) + suc (suc (length ps)) =
        length-reversed_onto (print_ulong n) (40 ∷ p ∷ ps) in
      ap (λ r. scan_back (reversed_onto (print_ulong n) (40 ∷ r)) (47 ∷ behind_slash) (pos 0)) e
      ∙ ap (λ r. scan_back r (47 ∷ behind_slash) (pos 0)) e2
      ∙ scan_back-found f fs behind_slash (number_in (c ∷ cs))
          (ap (λ r. parsepnum r behind_slash) (sym e2)
            ∙ parsepnum-numbers p ps h b w
            ∙ ap
                (λ x. some (record {
                  req = pos k;
                  partoff = pos x;
                  tailoff = pos (
                      suc (length (reversed_onto (print_ulong n) (40 ∷ p ∷ ps)))
                      + length (print_ulong k));
                  partnum = pos n;
                }))
                (omega arith)
            ∙ ap
                (λ x. some (record {
                  req = pos k;
                  partoff = pos (suc (suc (length cs)));
                  tailoff = pos x;
                  partnum = pos n;
                }))
                (omega arith))
          (ground arith)

  behind_slash-NoSlash : NoSlash post → NoSlash behind_slash
  behind_slash-NoSlash v =
      NoSlash-append (print_ulong k) (41 ∷ post)
        (AllDigits-NoSlash (print_ulong k) (print_ulong-AllDigits k)) (ground arith, v)

  longer_than_digits : (s : Text) → starts_digit s ≡ true → 2 ≤ length (s ++ 41 ∷ post)
  unfolding starts_digit
  longer_than_digits [] e = absurd (ground arith)
  longer_than_digits (d ∷ ds) e = omega (arith, length-append ds (41 ∷ post))

  subject_of-numbered :
      (pre rest s : Text)
      → 1 ≤ k
      → subject_of (pre ++ 40 ∷ rest) (numbered (number_in pre) s)
        ≡ (number_in pre, pre ++ 40 ∷ 42 ∷ s)
  unfolding subject_of
  subject_of-numbered pre rest s h =
      let other : eqb_ℤ (pos k) (pos 0) ≡ false = ground arith in
      rw other (
        ap (λ r. (number_in pre, r))
          (ap (λ r. r ++ (42 ∷ s)) (take_bracket pre rest) ∙ append_assoc pre (40 ∷ []) (42 ∷ s)))

  reversed_subject :
      (pre : Text)
      → reversed_onto (numbered_subject pre) []
        ≡ reversed_onto behind_slash
            (47 ∷ reversed_onto (print_ulong n) (40 ∷ reversed_onto pre []))
  unfolding reversed_onto
  reversed_subject pre =
      reversed_onto-append pre (40 ∷ (print_ulong n ++ 47 ∷ behind_slash)) []
      ∙ reversed_onto-append (print_ulong n) (47 ∷ behind_slash) (40 ∷ reversed_onto pre [])

  -- Of a subject with (n/k) in it, where n is 1 to k and k is an int, not at its start and with no
  -- slash behind it, set takes n for the number of the part and k for that of the parts, remembers the places behind the
  -- opening bracket and of the closing one, and puts a * for n, so that the parts of a file get the
  -- same subject.
  pub number_subject-numbered :
      (pre : Text)
      → pre ≢ []
      → NoSlash post
      → 1 ≤ n
      → n ≤ k
      → k < 2 ^ 31
      → number_subject (numbered_subject pre) ≡ (number_in pre, pre ++ 40 ∷ 42 ∷ 47 ∷ behind_slash)
  unfolding number_subject
  number_subject-numbered [] h v a b w = absurd (h refl)
  number_subject-numbered (c ∷ cs) h v a b w =
      let (f, fs, e) = reversed_onto-cons (print_ulong n) 40 (reversed_onto (c ∷ cs) []) in
      ap (λ r. subject_of (numbered_subject (c ∷ cs)) r)
        (ap scan_from (reversed_subject (c ∷ cs))
          ∙ ap (λ r. scan_from (reversed_onto behind_slash (47 ∷ r))) e
          ∙ scan_from-last behind_slash f fs (behind_slash-NoSlash v)
              (longer_than_digits (print_ulong k) (starts_digit-print_ulong k))
          ∙ ap (λ r. scan_back r (47 ∷ behind_slash) (pos 0)) (sym e)
          ∙ scan_back-numbers c cs a b w)
      ∙ subject_of-numbered (c ∷ cs) (print_ulong n ++ 47 ∷ behind_slash) (47 ∷ behind_slash)
          (omega arith)
