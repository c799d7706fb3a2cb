-- ===== src/Cache/Additem/Articles.antt =====
-- additem puts its article in, once, and loses none.
use nget.Prelude.{
  ℕ, ◌%◌, ulong_mod, add_ulong, ◌+◌, ◌≡◌, refl, ap, sym, ◌∙◌, List, [], ◌∷◌, ◌++◌, Bool, true,
  false, Option, some, none, if◌then◌else◌, arith, eq_text, Bool-cases, inl, inr,
}
use nget.Cache.{FileBase, Header, ServerArticle, Part, NntpFile, NntpCache}
use nget.Cache.Parts.{part}
use nget.Cache.Parts.Search.{IsSorted}
use nget.Cache.Parts.Laws.{part-eq-find_part, addpart-eq-place_part, set_part-eq-update_part}
use nget.Cache.Additem.{
  article_of, addserverarticle, part_of, add_part, add_new_part, file_of, before_range, from_range,
  in_range, after_range, Offer, taken, refused, offer, or_next, add_to_range, added_to_range,
  additem,
}
use nget.Cache.Additem.Weight.{
  weigh_articles, weigh_parts, weigh_files, by_articles, each_part, weigh_articles-append,
  weigh_files-append, weigh_parts-place_part, weigh_parts-update_part,
}

-- every file's parts are in order
abbrev pub AllSorted : List NntpFile → Type 0
AllSorted [] = Unit {0}
AllSorted (f ∷ fs) = IsSorted f.parts × AllSorted fs

in_range-weigh :
    (g : Part → ℕ) (b : FileBase) (fs : List NntpFile)
    → weigh_files g fs ≡ weigh_files g (in_range b fs) + weigh_files g (after_range b fs)
unfolding weigh_files in_range after_range
in_range-weigh g b [] = omega arith
in_range-weigh g b (f ∷ fs) = ground (arith, in_range-weigh g b fs)

before_range-weigh :
    (g : Part → ℕ) (b : FileBase) (fs : List NntpFile)
    → weigh_files g fs ≡ weigh_files g (before_range b fs) + weigh_files g (from_range b fs)
unfolding weigh_files before_range from_range
before_range-weigh g b [] = omega arith
before_range-weigh g b (f ∷ fs) = ground (arith, before_range-weigh g b fs)

pub in_range-AllSorted :
    (b : FileBase) (fs : List NntpFile) → AllSorted fs → AllSorted (in_range b fs)
unfolding in_range
in_range-AllSorted b [] v = tt
in_range-AllSorted b (f ∷ fs) v = ground (arith, in_range-AllSorted b fs v.1)

pub from_range-AllSorted :
    (b : FileBase) (fs : List NntpFile) → AllSorted fs → AllSorted (from_range b fs)
unfolding from_range
from_range-AllSorted b [] v = tt
from_range-AllSorted b (f ∷ fs) v = ground (arith, from_range-AllSorted b fs v.1)

module _ (h : Header) (now : ℕ) (g : Part → ℕ) (more : ℕ)
    (adds : (p : Part) → g (addserverarticle h p) ≡ g p + more) where
  -- what the files weigh more, when the article comes with a new part, or without
  abbrev gain : Bool → ℕ
  gain true = g (part_of h)
  gain false = more

  weigh-add_new_part :
      (f : NntpFile)
      → IsSorted f.parts
      → weigh_parts g (add_new_part now (part_of h) f).parts ≡ gain true + weigh_parts g f.parts
  unfolding add_new_part add_part
  weigh-add_new_part f v =
      ap (weigh_parts g) (addpart-eq-place_part (part_of h) f.parts v)
      ∙ weigh_parts-place_part g (part_of h) f.parts

  weigh-file_of : weigh_parts g (file_of h).parts ≡ 0
  unfolding file_of weigh_parts
  weigh-file_of = refl

  -- what the range weighs after a pass
  Weighs : ℕ → Option (List NntpFile × Bool) → Type 0
  Weighs n none = Unit {0}
  Weighs n (some (fs, b)) = weigh_files g fs ≡ gain b + n

  WeighsOffer : ℕ → Offer → Type 0
  WeighsOffer n refused = Unit {0}
  WeighsOffer n (taken f b) = weigh_parts g f.parts ≡ gain b + n

  offer-Weighs :
      (f : NntpFile) (o : Option Part)
      → IsSorted f.parts
      → part h.partnum f.parts ≡ o
      → WeighsOffer (weigh_parts g f.parts) (offer h now f o)
  unfolding offer WeighsOffer
  offer-Weighs f none v e = weigh-add_new_part f v
  offer-Weighs f (some p) v e = elim (Bool-cases (eq_text p.messageid h.messageid)) [
    | inl same ↦ rw same (
        omega (
          arith,
          ap (weigh_parts g)
              (set_part-eq-update_part h.partnum (addserverarticle h p) p f.parts v e),
          weigh_parts-update_part g h.partnum (addserverarticle h p) p f.parts
              (sym (part-eq-find_part h.partnum f.parts v) ∙ e),
          adds p,
        ))
    | inr other ↦ rw other tt
  ]

  or_next-Weighs :
      (f : NntpFile) (fs : List NntpFile) (o : Offer) (r : Option (List NntpFile × Bool))
      → WeighsOffer (weigh_parts g f.parts) o
      → Weighs (weigh_files g fs) r
      → Weighs (weigh_files g (f ∷ fs)) (or_next f fs o r)
  unfolding or_next Weighs WeighsOffer weigh_files
  or_next-Weighs f fs (taken f' b) r p q = omega arith
  or_next-Weighs f fs refused none p q = tt
  or_next-Weighs f fs refused (some (fs', b)) p q = omega arith

  add_to_range-Weighs :
      (fs : List NntpFile) → AllSorted fs → Weighs (weigh_files g fs) (add_to_range h now fs)
  unfolding add_to_range
  add_to_range-Weighs [] v = unfold Weighs in tt
  add_to_range-Weighs (f ∷ fs) v =
      or_next-Weighs f fs (offer h now f (part h.partnum f.parts)) (add_to_range h now fs)
        (offer-Weighs f (part h.partnum f.parts) v.0 refl) (add_to_range-Weighs fs v.1)

  added_to_range-weigh :
      (fs : List NntpFile) (r : Option (List NntpFile × Bool))
      → Weighs (weigh_files g fs) r
      → weigh_files g (added_to_range h now fs r).0
        ≡ gain (added_to_range h now fs r).1 + weigh_files g fs
  unfolding added_to_range Weighs
  added_to_range-weigh fs none p =
      omega
        (arith, weigh_files-append g fs (add_new_part now (part_of h) (file_of h) ∷ []), weigh_one)
    where
      weigh_one : weigh_files g (add_new_part now (part_of h) (file_of h) ∷ []) ≡ gain true
      weigh_one =
          unfold weigh_files in
          omega (arith, weigh-add_new_part (file_of h) (unfold file_of in tt), weigh-file_of)
  added_to_range-weigh fs (some (fs', b)) p = p

  -- whether additem makes a new part
  pub makes_part : NntpCache → Bool
  makes_part c =
      let range = in_range h.base (from_range h.base c.files) in
      (added_to_range h now range (add_to_range h now range)).1

  weigh-additem-gain :
      (c : NntpCache)
      → AllSorted c.files
      → weigh_files g (additem h now c).0.files ≡ gain (makes_part c) + weigh_files g c.files
  unfolding additem makes_part
  weigh-additem-gain c v =
      let fs = from_range h.base c.files in
      let range = in_range h.base fs in
      let grown = added_to_range h now range (add_to_range h now range) in
      omega (
        arith,
        before_range-weigh g h.base c.files,
        in_range-weigh g h.base fs,
        weigh_files-append g (before_range h.base c.files) (grown.0 ++ after_range h.base fs),
        weigh_files-append g grown.0 (after_range h.base fs),
        added_to_range-weigh range (add_to_range h now range) (
            add_to_range-Weighs range
              (in_range-AllSorted h.base fs (from_range-AllSorted h.base c.files v))),
      )

module _ (h : Header) (now : ℕ) where
  by_articles-addserverarticle :
      (w : ServerArticle → ℕ) (p : Part)
      → by_articles w (addserverarticle h p) ≡ by_articles w p + w (article_of h)
  unfolding addserverarticle weigh_articles
  by_articles-addserverarticle w p =
      omega (arith, weigh_articles-append w p.articles (article_of h ∷ []))

  by_articles-part_of : (w : ServerArticle → ℕ) → by_articles w (part_of h) ≡ w (article_of h)
  unfolding part_of addserverarticle weigh_articles
  by_articles-part_of w = omega arith

  -- Where the parts of every file are in order, no number twice, additem puts the article of the
  -- header in, once, and keeps every other article as often as it was there: under any weight on
  -- articles, the files weigh more by the weight of that article.
  pub weigh-additem :
      (w : ServerArticle → ℕ) (c : NntpCache)
      → AllSorted c.files
      → weigh_files (by_articles w) (additem h now c).0.files
        ≡ w (article_of h) + weigh_files (by_articles w) c.files
  weigh-additem w c v = elim (Bool-cases made) [
    | inl e ↦
        total
        ∙ ap
            (λ b.
              gain h now (by_articles w) (w (article_of h)) (by_articles-addserverarticle w) b
              + weigh_files (by_articles w) c.files)
            e
        ∙ ap (λ n. n + weigh_files (by_articles w) c.files) (by_articles-part_of w)
    | inr e ↦
        total
        ∙ ap
            (λ b.
              gain h now (by_articles w) (w (article_of h)) (by_articles-addserverarticle w) b
              + weigh_files (by_articles w) c.files)
            e
  ]
    where
      made : Bool
      made = makes_part h now (by_articles w) (w (article_of h)) (by_articles-addserverarticle w) c

      total :
          weigh_files (by_articles w) (additem h now c).0.files
          ≡ gain h now (by_articles w) (w (article_of h)) (by_articles-addserverarticle w) made
            + weigh_files (by_articles w) c.files
      total =
          weigh-additem-gain h now (by_articles w) (w (article_of h))
            (by_articles-addserverarticle w) c v

  adds_no_part : (p : Part) → each_part (addserverarticle h p) ≡ each_part p + 0
  adds_no_part p = omega arith

  abbrev is_new : NntpCache → Bool
  is_new c = makes_part h now each_part 0 adds_no_part c

  totalnum-is_new :
      (c : NntpCache)
      → (additem h now c).0.totalnum ≡ (if is_new c then add_ulong c.totalnum 1 else c.totalnum)
  unfolding additem makes_part
  totalnum-is_new c = refl

  -- Where the parts of every file are in order, no number twice, and totalnum is the number of the
  -- parts of all files modulo 2^64, additem leaves it so.
  pub totalnum-additem :
      (c : NntpCache)
      → AllSorted c.files
      → c.totalnum ≡ weigh_files each_part c.files % ulong_mod
      → (additem h now c).0.totalnum ≡ weigh_files each_part (additem h now c).0.files % ulong_mod
  totalnum-additem c v e = elim (Bool-cases (is_new c)) [
    | inl n ↦
        totalnum-is_new c
        ∙ ap (λ b. if b then add_ulong c.totalnum 1 else c.totalnum) n
        ∙ omega (arith, e, grown, ap (gain h now each_part 0 adds_no_part) n)
    | inr n ↦
        totalnum-is_new c
        ∙ ap (λ b. if b then add_ulong c.totalnum 1 else c.totalnum) n
        ∙ omega (arith, e, grown, ap (gain h now each_part 0 adds_no_part) n)
  ]
    where
      grown :
          weigh_files each_part (additem h now c).0.files
          ≡ gain h now each_part 0 adds_no_part (is_new c) + weigh_files each_part c.files
      grown = weigh-additem-gain h now each_part 0 adds_no_part c v
