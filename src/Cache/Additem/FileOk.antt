-- ===== src/Cache/Additem/FileOk.antt =====
-- A file whose parts are in order and whose `have` counts them, and what keeps it so.
use nget.Prelude.{
  ℕ, ◌<ℤ◌, ◌+◌, ◌≡◌, ap, sym, subst, ◌∙◌, ℤ, pos, ◌+ℤ◌, eqb_ℤ, eqb_ℤ→eq, List, [], ◌∷◌, true, false,
  some, none, if◌then◌else◌, arith, Bool-cases, inl, inr,
}
use nget.Cache.{Part, NntpFile, count_partnum}
use nget.Cache.Parts.{part, addpart, set_part}
use nget.Cache.Parts.Search.{IsSorted, Rising}
use nget.Cache.Parts.Laws.{
  find_part, update_part, part-eq-find_part, addpart-eq-place_part, set_part-eq-update_part,
  addpart-IsSorted,
}
use nget.Cache.Additem.{add_part}
use nget.Cache.Additem.Weight.{weigh_parts, weigh_parts-place_part, weigh_parts-update_part}

-- one for a part that counts among those that the file has
abbrev pub counted : ℤ → Part → ℕ
counted req p = if count_partnum p.partnum req then 1 else 0

pub record IsFileOk (f : NntpFile) : Type 0 where
  pub sorted : IsSorted f.parts
  pub has : f.have ≡ pos (weigh_parts (counted f.req) f.parts)

abbrev pub AllFilesOk : List NntpFile → Type 0
AllFilesOk [] = Unit {0}
AllFilesOk (f ∷ fs) = IsFileOk f × AllFilesOk fs

update_part-Rising :
    (m n : ℤ) (p : Part) (ps : List Part)
    → Rising m ps
    → p.partnum ≡ n
    → Rising m (update_part n p ps)
unfolding update_part
update_part-Rising m n p [] v e = tt
update_part-Rising m n p (q ∷ qs) v e = elim (Bool-cases (eqb_ℤ q.partnum n)) [
  | inl same ↦ rw same (
      let g : q.partnum ≡ p.partnum = eqb_ℤ→eq q.partnum n same ∙ sym e in
      (subst (λ k. m <ℤ k) g v.0, subst (λ k. Rising k qs) g v.1))
  | inr other ↦ rw other (v.0, update_part-Rising q.partnum n p qs v.1 e)
]

update_part-IsSorted :
    (n : ℤ) (p : Part) (ps : List Part)
    → IsSorted ps
    → p.partnum ≡ n
    → IsSorted (update_part n p ps)
unfolding update_part
update_part-IsSorted n p [] v e = tt
update_part-IsSorted n p (q ∷ qs) v e = elim (Bool-cases (eqb_ℤ q.partnum n)) [
  | inl same ↦ rw same (
      let g : q.partnum ≡ p.partnum = eqb_ℤ→eq q.partnum n same ∙ sym e in
      subst (λ k. Rising k qs) g v)
  | inr other ↦ rw other (update_part-Rising q.partnum n p qs v e)
]

find_part-key : (n : ℤ) (ps : List Part) (p : Part) → find_part n ps ≡ some p → p.partnum ≡ n
unfolding find_part
find_part-key n [] p e = cc
find_part-key n (q ∷ qs) p e = elim (Bool-cases (eqb_ℤ q.partnum n)) [
  | inl same ↦ ground (arith, eqb_ℤ→eq q.partnum n same)
  | inr other ↦ find_part-key n qs p (ground arith)
]

pub pos-suc : (n : ℕ) → pos n +ℤ pos 1 ≡ pos (n + 1)
unfolding ◌+ℤ◌
pos-suc n = ground arith

pub add_part-has :
    (p : Part) (f : NntpFile)
    → IsFileOk f
    → (add_part p f).have ≡ pos (weigh_parts (counted f.req) (add_part p f).parts)
unfolding add_part
add_part-has p f v = elim (Bool-cases (count_partnum p.partnum f.req)) [
  | inl c ↦ rw (c, v.has, pos-suc) (ap pos (omega (arith, weight, one c)))
  | inr c ↦ rw (c, v.has) (ap pos (omega (arith, weight, none_of c)))
]
  where
    weight :
        weigh_parts (counted f.req) (addpart p f.parts)
        ≡ counted f.req p + weigh_parts (counted f.req) f.parts
    weight =
        ap (weigh_parts (counted f.req)) (addpart-eq-place_part p f.parts v.sorted)
        ∙ weigh_parts-place_part (counted f.req) p f.parts

    one : count_partnum p.partnum f.req ≡ true → counted f.req p ≡ 1
    one c = rw c

    none_of : count_partnum p.partnum f.req ≡ false → counted f.req p ≡ 0
    none_of c = rw c

-- A part may change if its number stays.
pub set_part-IsFileOk :
    (n : ℤ) (f : NntpFile) (p q : Part)
    → IsFileOk f
    → part n f.parts ≡ some p
    → q.partnum ≡ p.partnum
    → IsFileOk (record f { parts = set_part n q f.parts })
set_part-IsFileOk n f p q v e k = record {
  sorted = rw same (update_part-IsSorted n q f.parts v.sorted (k ∙ key));
  has = v.has ∙ ap pos (omega (arith, weight));
}
  where
    same : set_part n q f.parts ≡ update_part n q f.parts
    same = set_part-eq-update_part n q p f.parts v.sorted e

    found : find_part n f.parts ≡ some p
    found = sym (part-eq-find_part n f.parts v.sorted) ∙ e

    key : p.partnum ≡ n
    key = find_part-key n f.parts p found

    counts : counted f.req q ≡ counted f.req p
    counts = ap (λ m. if count_partnum m f.req then 1 else 0) k

    weight :
        weigh_parts (counted f.req) f.parts ≡ weigh_parts (counted f.req) (set_part n q f.parts)
    weight =
        rw same (omega (arith, weigh_parts-update_part (counted f.req) n q p f.parts found, counts))

pub add_part-IsFileOk :
    (p : Part) (f : NntpFile) → IsFileOk f → part p.partnum f.parts ≡ none → IsFileOk (add_part p f)
unfolding add_part
add_part-IsFileOk p f v e = record {
  sorted = addpart-IsSorted p f.parts v.sorted e;
  has = add_part-has p f v;
}
