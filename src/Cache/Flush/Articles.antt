-- ===== src/Cache/Flush/Articles.antt =====
-- What flush takes out of a cache.
use nget.Prelude.{
  ℕ, ℤ, ◌+◌, ◌≤◌, ◌<◌, ◌≡◌, refl, sym, ap, ◌∙◌, List, [], ◌∷◌, Bool, false, if◌then◌else◌, ◌&&◌,
  ◌==◌, arith, ulong_max,
}
use nget.Nrange.{Rlist, check}
use nget.Nrange.Members.{mem, IsValid}
use nget.Cache.{ServerArticle, Part, NntpFile, ServerInfo, NntpCache}
use nget.Cache.MidInfo.{MetaMidInfo}
use nget.Cache.Additem.Weight.{weigh_articles, weigh_parts, weigh_files, by_articles}
use nget.Cache.Flush.{
  FlushLog, FlushState, flush_articles, after_part, add_count, flush_parts, keep_file, flush_files,
  flush_range, is_flushed, no_log, flush_in, flush,
}
use nget.Cache.Flush.Bounds.{AllInFiles, IsInBounds, weigh_files-cong, is_wanted, is_flushed-eq}

module _ (t : ServerArticle → Bool) (w : ServerArticle → ℕ) where
  -- an article weighs nothing when it is flushed
  abbrev but_flushed : ServerArticle → ℕ
  but_flushed a = if t a then 0 else w a

  flush_articles-weigh :
      (xs : List ServerArticle)
      → weigh_articles w (flush_articles t xs).0 ≡ weigh_articles but_flushed xs
  unfolding flush_articles weigh_articles
  flush_articles-weigh [] = refl
  flush_articles-weigh (a ∷ more) = ground (arith, flush_articles-weigh more)

  module _ (now : ℕ) where
    after_part-weigh :
        (req : ℤ) (p : Part) (xs : List ServerArticle) (s : FlushState)
        → weigh_parts (by_articles w) (after_part now req p xs s).parts
          ≡ weigh_articles w xs + weigh_parts (by_articles w) s.parts
    unfolding after_part weigh_parts weigh_articles
    after_part-weigh req p [] s = omega arith
    after_part-weigh req p (a ∷ more) s = omega arith

    flush_parts-weigh :
        (req : ℤ) (ps : List Part) (s : FlushState)
        → weigh_parts (by_articles w) (flush_parts t now req ps s).parts
          ≡ weigh_parts (by_articles but_flushed) ps + weigh_parts (by_articles w) s.parts
    unfolding flush_parts weigh_parts add_count
    flush_parts-weigh req [] s = omega arith
    flush_parts-weigh req (p ∷ ps) s =
        let (left, count) = flush_articles t p.articles in
        omega (
          arith,
          after_part-weigh req p left (add_count count (flush_parts t now req ps s)),
          flush_articles-weigh p.articles,
          flush_parts-weigh req ps s,
        )

    keep_file-weigh :
        (f : NntpFile) (ps : List Part) (have : ℤ) (fs : List NntpFile)
        → weigh_files (by_articles w) (keep_file f ps have fs)
          ≡ weigh_parts (by_articles w) ps + weigh_files (by_articles w) fs
    unfolding keep_file weigh_files weigh_parts
    keep_file-weigh f [] have fs = omega arith
    keep_file-weigh f (p ∷ ps) have fs = omega arith

    flush_files-weigh :
        (fs : List NntpFile) (log : FlushLog)
        → weigh_files (by_articles w) (flush_files t now fs log).0
          ≡ weigh_files (by_articles but_flushed) fs
    unfolding flush_files weigh_files
    flush_files-weigh [] log = refl
    flush_files-weigh (f ∷ fs) log =
        let s = flush_parts t now f.req f.parts (record { parts = []; have = f.have; log = log }) in
        omega (
          arith,
          keep_file-weigh f s.parts s.have (flush_files t now fs s.log).0,
          flush_parts-weigh f.req f.parts (record { parts = []; have = f.have; log = log }),
          nothing,
          flush_files-weigh fs s.log,
        )
      where
        nothing : weigh_parts (by_articles w) [] ≡ 0
        nothing = unfold weigh_parts in refl

module _ (info : ServerInfo) (r : Rlist) (now : ℕ) (c : NntpCache) (midinfo : MetaMidInfo)
    (w : ServerArticle → ℕ) (v : IsValid r) (low : 1 ≤ info.low) (high : info.high < ulong_max)
    (bounds : AllInFiles (IsInBounds info) c.files) where
  flush_in-weigh :
      (x : Rlist)
      → flush_range info r ≡ x
      → weigh_files (by_articles w) (flush_in info now c midinfo x).0.files
        ≡ weigh_files (by_articles (but_flushed (is_wanted info r v low high) w)) c.files
  unfolding flush_in
  flush_in-weigh [] e =
      sym (weigh_files-cong _ w (IsInBounds info) (λ a b. rw (none_wanted a b) refl) c.files bounds)
    where
      none_in : (a : ServerArticle) → is_flushed info [] a ≡ false
      none_in a = unfold is_flushed check in ground arith

      none_wanted : (a : ServerArticle) → IsInBounds info a → is_wanted info r v low high a ≡ false
      none_wanted a b =
          sym (is_flushed-eq info r v low high a b) ∙ ap (λ x. is_flushed info x a) e ∙ none_in a
  flush_in-weigh (x ∷ xs) e =
      flush_files-weigh (is_flushed info (x ∷ xs)) w now c.files (no_log midinfo)
      ∙ weigh_files-cong _ _ (IsInBounds info)
          (λ a b.
            ap (λ y. if y then 0 else w a)
              (ap (λ x. is_flushed info x a) (sym e) ∙ is_flushed-eq info r v low high a b))
          c.files bounds

  -- Where the numbers of the server's articles in the cache lie between the server's bounds, of
  -- which the lower is not 0 and the upper below ULONG_MAX, flush with a well-formed range takes
  -- out the server's articles whose number is in the range, and no other: under any weight on
  -- articles the files then weigh what the other articles weigh.
  pub flush-weigh :
      weigh_files (by_articles w) (flush info r now c midinfo).0.files
      ≡ weigh_files
          (by_articles (λ a. if a.serverid == info.serverid && mem a.articlenum r then 0 else w a))
          c.files
  unfolding flush
  flush-weigh = flush_in-weigh (flush_range info r) refl
