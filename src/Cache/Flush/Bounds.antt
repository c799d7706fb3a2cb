-- ===== src/Cache/Flush/Bounds.antt =====
-- The bounds of a server's article numbers, and the range that flush cuts down to them.
use nget.Prelude.{
  ℕ, ◌≤◌, ◌<◌, ◌≡◌, refl, ◌∙◌, List, [], ◌∷◌, Bool, inl, inr, Bool-cases, ◌&&◌, ◌==◌, arith,
  add_ulong, sub_ulong, ulong_max,
}
use nget.Nrange.{Rlist}
use nget.Nrange.Members.{mem, IsValid, check-eq-mem}
use nget.Nrange.Remove.{remove-IsValid, remove-outside}
use nget.Cache.{ServerArticle, Part, NntpFile, ServerInfo}
use nget.Cache.Additem.Weight.{weigh_articles, weigh_parts, weigh_files, by_articles}
use nget.Cache.Flush.{flush_range, is_flushed}

-- what holds of every article in the files
abbrev AllArticles : (ServerArticle → Type 0) → List ServerArticle → Type 0
AllArticles q [] = Unit {0}
AllArticles q (a ∷ more) = q a × AllArticles q more

abbrev AllInParts : (ServerArticle → Type 0) → List Part → Type 0
AllInParts q [] = Unit {0}
AllInParts q (p ∷ ps) = AllArticles q p.articles × AllInParts q ps

abbrev pub AllInFiles : (ServerArticle → Type 0) → List NntpFile → Type 0
AllInFiles q [] = Unit {0}
AllInFiles q (f ∷ fs) = AllInParts q f.parts × AllInFiles q fs

module _ (v w : ServerArticle → ℕ) (q : ServerArticle → Type 0)
    (same : (a : ServerArticle) → q a → v a ≡ w a) where
  weigh_articles-cong :
      (xs : List ServerArticle) → AllArticles q xs → weigh_articles v xs ≡ weigh_articles w xs
  unfolding weigh_articles
  weigh_articles-cong [] h = refl
  weigh_articles-cong (a ∷ more) h = omega (arith, same a h.0, weigh_articles-cong more h.1)

  weigh_parts-cong :
      (ps : List Part)
      → AllInParts q ps
      → weigh_parts (by_articles v) ps ≡ weigh_parts (by_articles w) ps
  unfolding weigh_parts
  weigh_parts-cong [] h = refl
  weigh_parts-cong (p ∷ ps) h =
      omega (arith, weigh_articles-cong p.articles h.0, weigh_parts-cong ps h.1)

  pub weigh_files-cong :
      (fs : List NntpFile)
      → AllInFiles q fs
      → weigh_files (by_articles v) fs ≡ weigh_files (by_articles w) fs
  unfolding weigh_files
  weigh_files-cong [] h = refl
  weigh_files-cong (f ∷ fs) h = omega (arith, weigh_parts-cong f.parts h.0, weigh_files-cong fs h.1)

-- an article of the server has a number between the server's bounds
abbrev pub IsInBounds : ServerInfo → ServerArticle → Type 0
IsInBounds info a =
    a.serverid ≡ info.serverid → (info.low ≤ a.articlenum) × (a.articlenum ≤ info.high)

module _ (info : ServerInfo) (r : Rlist) (v : IsValid r) (low : 1 ≤ info.low)
    (high : info.high < ulong_max) where
  flush_range-IsValid : IsValid (flush_range info r)
  unfolding flush_range
  flush_range-IsValid =
      remove-IsValid (add_ulong info.high 1) ulong_max _
        (remove-IsValid 0 (sub_ulong info.low 1) r v (omega arith)) (omega arith)

  flush_range-mem : (n : ℕ) → info.low ≤ n → n ≤ info.high → mem n (flush_range info r) ≡ mem n r
  unfolding flush_range
  flush_range-mem n l h =
      remove-outside (add_ulong info.high 1) ulong_max n _
        (remove-IsValid 0 (sub_ulong info.low 1) r v (omega arith)) (omega arith) (ground arith)
      ∙ remove-outside 0 (sub_ulong info.low 1) n r v (omega arith) (ground arith)

  abbrev pub is_wanted : ServerArticle → Bool
  is_wanted a = a.serverid == info.serverid && mem a.articlenum r

  pub is_flushed-eq :
      (a : ServerArticle) → IsInBounds info a → is_flushed info (flush_range info r) a ≡ is_wanted a
  unfolding is_flushed
  is_flushed-eq a b = elim (Bool-cases (a.serverid == info.serverid)) [
    | inl e ↦
        let (l, h) = b (ground (arith, e)) in
        rw e (
          check-eq-mem a.articlenum (flush_range info r) flush_range-IsValid
          ∙ flush_range-mem a.articlenum l h)
    | inr e ↦ rw e refl
  ]
