-- ===== src/Cache/Additem/Invariant.antt =====
-- What additem keeps true of the files.
use nget.Prelude.{
  ℕ, ◌≡◌, refl, List, [], ◌∷◌, ◌++◌, Bool, Option, some, none, arith, eq_text, Bool-cases, inl, inr,
}
use nget.Cache.{FileBase, Header, Part, NntpFile, NntpCache}
use nget.Cache.Parts.{part, set_part}
use nget.Cache.Parts.Laws.{addpart-IsSorted}
use nget.Cache.Additem.{
  addserverarticle, part_of, add_part, add_new_part, file_of, before_range, from_range, in_range,
  after_range, Offer, taken, refused, offer, or_next, add_to_range, added_to_range, additem,
}
use nget.Cache.Additem.Weight.{weigh_parts}
use nget.Cache.Additem.FileOk.{IsFileOk, AllFilesOk, set_part-IsFileOk, add_part-has}

add_new_part-IsFileOk :
    (h : Header) (now : ℕ) (f : NntpFile)
    → IsFileOk f
    → part h.partnum f.parts ≡ none
    → IsFileOk (add_new_part now (part_of h) f)
unfolding add_new_part
add_new_part-IsFileOk h now f v e = record {
  sorted =
      unfold add_part part_of addserverarticle in addpart-IsSorted (part_of h) f.parts v.sorted e;
  has = add_part-has (part_of h) f v;
}

set_article-IsFileOk :
    (h : Header) (f : NntpFile) (p : Part)
    → IsFileOk f
    → part h.partnum f.parts ≡ some p
    → IsFileOk (record f { parts = set_part h.partnum (addserverarticle h p) f.parts })
set_article-IsFileOk h f p v e =
    set_part-IsFileOk h.partnum f p (addserverarticle h p) v e (unfold addserverarticle in refl)

OfferOk : Offer → Type 0
OfferOk refused = Unit {0}
OfferOk (taken f b) = IsFileOk f

RangeOk : Option (List NntpFile × Bool) → Type 0
RangeOk none = Unit {0}
RangeOk (some (fs, b)) = AllFilesOk fs

module _ (h : Header) (now : ℕ) where
  offer-OfferOk :
      (f : NntpFile) (o : Option Part)
      → IsFileOk f
      → part h.partnum f.parts ≡ o
      → OfferOk (offer h now f o)
  unfolding offer OfferOk
  offer-OfferOk f none v e = add_new_part-IsFileOk h now f v e
  offer-OfferOk f (some p) v e = elim (Bool-cases (eq_text p.messageid h.messageid)) [
    | inl same ↦ rw same (set_article-IsFileOk h f p v e)
    | inr other ↦ rw other tt
  ]

  or_next-RangeOk :
      (f : NntpFile) (fs : List NntpFile) (o : Offer) (r : Option (List NntpFile × Bool))
      → AllFilesOk (f ∷ fs)
      → OfferOk o
      → RangeOk r
      → RangeOk (or_next f fs o r)
  unfolding or_next RangeOk OfferOk
  or_next-RangeOk f fs (taken f' b) r v p q = (p, v.1)
  or_next-RangeOk f fs refused none v p q = tt
  or_next-RangeOk f fs refused (some (fs', b)) v p q = (v.0, q)

  add_to_range-RangeOk : (fs : List NntpFile) → AllFilesOk fs → RangeOk (add_to_range h now fs)
  unfolding add_to_range
  add_to_range-RangeOk [] v = unfold RangeOk in tt
  add_to_range-RangeOk (f ∷ fs) v =
      or_next-RangeOk f fs (offer h now f (part h.partnum f.parts)) (add_to_range h now fs) v
        (offer-OfferOk f (part h.partnum f.parts) v.0 refl) (add_to_range-RangeOk fs v.1)

AllFilesOk-append : (xs ys : List NntpFile) → AllFilesOk xs → AllFilesOk ys → AllFilesOk (xs ++ ys)
AllFilesOk-append [] ys v w = w
AllFilesOk-append (x ∷ xs) ys v w = (v.0, AllFilesOk-append xs ys v.1 w)

ranges-AllFilesOk :
    (b : FileBase) (fs : List NntpFile)
    → AllFilesOk fs
    → AllFilesOk (before_range b fs)
      × AllFilesOk (from_range b fs)
      × AllFilesOk (in_range b fs)
      × AllFilesOk (after_range b fs)
unfolding before_range from_range in_range after_range
ranges-AllFilesOk b [] v = (tt, tt, tt, tt)
ranges-AllFilesOk b (f ∷ fs) v =
    let (p, q, r, s) = ranges-AllFilesOk b fs v.1 in
    (ground arith, ground arith, ground arith, ground arith)

module _ (h : Header) (now : ℕ) where
  file_of-IsFileOk : IsFileOk (file_of h)
  unfolding file_of weigh_parts
  file_of-IsFileOk = record { sorted = tt; has = refl }

  no_part : part h.partnum (file_of h).parts ≡ none
  unfolding file_of part
  no_part = refl

  added_to_range-AllFilesOk :
      (fs : List NntpFile) (r : Option (List NntpFile × Bool))
      → AllFilesOk fs
      → RangeOk r
      → AllFilesOk (added_to_range h now fs r).0
  unfolding added_to_range RangeOk
  added_to_range-AllFilesOk fs none v w =
      AllFilesOk-append fs (add_new_part now (part_of h) (file_of h) ∷ []) v
        (add_new_part-IsFileOk h now (file_of h) file_of-IsFileOk no_part, tt)
  added_to_range-AllFilesOk fs (some (fs', b)) v w = w

  -- Where every file of a cache has its parts in order of their numbers, no number twice, and
  -- `have` counts those that are numbered 1 to req (of number req, where req is not positive), the
  -- same is true of the cache that additem leaves.
  pub additem-AllFilesOk :
      (c : NntpCache) → AllFilesOk c.files → AllFilesOk (additem h now c).0.files
  unfolding additem
  additem-AllFilesOk c v =
      let (before, from, _, _) = ranges-AllFilesOk h.base c.files v in
      let (_, _, range, after) = ranges-AllFilesOk h.base (from_range h.base c.files) from in
      AllFilesOk-append (before_range h.base c.files) _ before (
        AllFilesOk-append _ _
          (added_to_range-AllFilesOk (in_range h.base (from_range h.base c.files)) _ range
            (add_to_range-RangeOk h now (in_range h.base (from_range h.base c.files)) range))
          after)
