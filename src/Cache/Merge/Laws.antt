-- ===== src/Cache/Merge/Laws.antt =====
-- mergefile loses no article, and keeps the file in order.
use nget.Prelude.{
  ℕ, ℤ, ◌+◌, ◌≡◌, refl, ap, sym, ◌∙◌, List, [], ◌∷◌, ◌++◌, inl, inr, Bool-cases, Option, some, none,
  arith, eq_text, if◌then◌else◌, ltb,
}
use nget.Cache.{ServerArticle, Part, NntpFile}
use nget.Cache.Parts.{part}
use nget.Cache.Parts.Laws.{
  part-eq-find_part, addpart-eq-place_part, set_part-eq-update_part, part-addpart,
}
use nget.Cache.Additem.{add_part}
use nget.Cache.Additem.Weight.{
  weigh_articles, weigh_parts, by_articles, weigh_articles-append, weigh_parts-place_part,
  weigh_parts-update_part,
}
use nget.Cache.Additem.FileOk.{IsFileOk, set_part-IsFileOk, add_part-IsFileOk}
use nget.Cache.Merge.{
  with_articles, push_articles, without_articles, merge_part, merge_parts, mergefile,
}

weigh_parts-append :
    (g : Part → ℕ) (xs ys : List Part)
    → weigh_parts g (xs ++ ys) ≡ weigh_parts g xs + weigh_parts g ys
unfolding weigh_parts
weigh_parts-append g [] ys = omega arith
weigh_parts-append g (x ∷ xs) ys = omega (arith, weigh_parts-append g xs ys)

push_articles-IsFileOk :
    (n : ℤ) (xs : List ServerArticle) (mp : Part) (f : NntpFile)
    → IsFileOk f
    → part n f.parts ≡ some mp
    → IsFileOk (push_articles n xs (some mp) f)
unfolding push_articles
push_articles-IsFileOk n xs mp f v e =
    set_part-IsFileOk n f mp (with_articles xs mp) v e (unfold with_articles in refl)

module _ (w : ServerArticle → ℕ) where
  push_articles-weigh :
      (n : ℤ) (xs : List ServerArticle) (mp : Part) (f : NntpFile)
      → IsFileOk f
      → part n f.parts ≡ some mp
      → weigh_parts (by_articles w) (push_articles n xs (some mp) f).parts
        ≡ weigh_articles w xs + weigh_parts (by_articles w) f.parts
  unfolding push_articles
  push_articles-weigh n xs mp f v e = omega (
    arith,
    ap (weigh_parts (by_articles w))
        (set_part-eq-update_part n (with_articles xs mp) mp f.parts v.sorted e),
    weigh_parts-update_part (by_articles w) n (with_articles xs mp) mp f.parts
        (sym (part-eq-find_part n f.parts v.sorted) ∙ e),
    more,
  )
    where
      more : by_articles w (with_articles xs mp) ≡ by_articles w mp + weigh_articles w xs
      more = unfold with_articles in weigh_articles-append w mp.articles xs

  add_part-weigh :
      (p : Part) (f : NntpFile)
      → IsFileOk f
      → weigh_parts (by_articles w) (add_part p f).parts
        ≡ by_articles w p + weigh_parts (by_articles w) f.parts
  unfolding add_part
  add_part-weigh p f v =
      ap (weigh_parts (by_articles w)) (addpart-eq-place_part p f.parts v.sorted)
      ∙ weigh_parts-place_part (by_articles w) p f.parts

  add_part-finds :
      (p : Part) (f : NntpFile)
      → IsFileOk f
      → part p.partnum f.parts ≡ none
      → part p.partnum (add_part p f).parts ≡ some p
  unfolding add_part
  add_part-finds p f v e = ground (arith, part-addpart p.partnum p f.parts v.sorted e)

  -- what a pass keeps
  record Merged (n : ℕ) (s : List Part × NntpFile) : Type 0 where
    fine : IsFileOk s.1
    weight : weigh_parts (by_articles w) s.0 + weigh_parts (by_articles w) s.1.parts ≡ n

  merge_part-Merged :
      (n : ℕ) (p : Part) (o : Option Part) (s : List Part × NntpFile)
      → Merged n s
      → part p.partnum s.1.parts ≡ o
      → Merged (by_articles w p + n) (merge_part p o s)
  unfolding merge_part
  merge_part-Merged n p none (left, f) v e =
      let f' = add_part (without_articles p) f in
      let fine = add_part-IsFileOk (without_articles p) f v.fine e in
      let finds = add_part-finds (without_articles p) f v.fine e in
      rw finds (record {
        fine = push_articles-IsFileOk p.partnum p.articles (without_articles p) f' fine finds;
        weight = omega (
          arith,
          v.weight,
          push_articles-weigh p.partnum p.articles (without_articles p) f' fine finds,
          add_part-weigh (without_articles p) f v.fine,
          nothing,
        );
      })
    where
      nothing : weigh_articles w [] ≡ 0
      nothing = unfold weigh_articles in refl
  merge_part-Merged n p (some mp) (left, f) v e =
      elim (Bool-cases (eq_text mp.messageid p.messageid)) [
        | inl same ↦ rw same (record {
          fine = push_articles-IsFileOk p.partnum p.articles mp f v.fine e;
          weight = omega (arith, v.weight, push_articles-weigh p.partnum p.articles mp f v.fine e);
        })
        | inr other ↦ rw other (record {
          fine = v.fine;
          weight = omega (arith, v.weight, weigh_parts-append (by_articles w) left (p ∷ []), one p);
        })
      ]
    where
      one : (p : Part) → weigh_parts (by_articles w) (p ∷ []) ≡ by_articles w p
      one p = unfold weigh_parts in omega arith

  merge_parts-Merged :
      (n k : ℕ) (ps : List Part) (s : List Part × NntpFile)
      → Merged n s
      → k ≡ weigh_parts (by_articles w) ps + n
      → Merged k (merge_parts ps s)
  unfolding merge_parts weigh_parts
  merge_parts-Merged n k [] s v e = record { fine = v.fine; weight = omega (arith, v.weight) }
  merge_parts-Merged n k (p ∷ ps) s v e =
      merge_parts-Merged (by_articles w p + n) k ps _
        (merge_part-Merged n p (part p.partnum s.1.parts) s v refl) (omega arith)

  start-Merged :
      (f : NntpFile) (u : ℕ)
      → IsFileOk f
      → Merged (weigh_parts (by_articles w) f.parts) ([], record f { update = u })
  unfolding weigh_parts
  start-Merged f u v = record {
    fine = record { sorted = v.sorted; has = v.has };
    weight = omega arith;
  }

  -- Where a file has its parts in order, no number twice, and `have` counts those that are numbered
  -- 1 to req (of number req, where req is not positive), mergefile leaves it so, and of the articles
  -- of both files it keeps each one, once: under any weight on articles, what is left of the other
  -- file and the file weigh together what both weighed.
  pub mergefile-weigh :
      (other f : NntpFile)
      → IsFileOk f
      → IsFileOk (mergefile other f).1
        × (weigh_parts (by_articles w) (mergefile other f).0.parts
              + weigh_parts (by_articles w) (mergefile other f).1.parts
            ≡ weigh_parts (by_articles w) other.parts + weigh_parts (by_articles w) f.parts)
  unfolding mergefile
  mergefile-weigh other f v =
      let m =
        merge_parts-Merged (weigh_parts (by_articles w) f.parts)
          (weigh_parts (by_articles w) other.parts + weigh_parts (by_articles w) f.parts)
          other.parts
          ([], record f { update = if ltb f.update other.update then other.update else f.update })
          (start-Merged f _ v) refl in
      (m.fine, m.weight)
