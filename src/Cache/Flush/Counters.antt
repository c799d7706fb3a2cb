-- ===== src/Cache/Flush/Counters.antt =====
-- The counters that flush keeps.
use nget.Prelude.{
  ℕ, ℤ, ◌+◌, ◌<◌, ◌≡◌, ◌%◌, refl, List, [], ◌∷◌, Bool, if◌then◌else◌, arith, ulong_mod,
}
use nget.Nrange.{Rlist}
use nget.Cache.{ServerArticle, Part, NntpFile, ServerInfo, NntpCache}
use nget.Cache.MidInfo.{MetaMidInfo}
use nget.Cache.Additem.Weight.{weigh_articles, weigh_parts, weigh_files, by_articles, each_part}
use nget.Cache.Flush.{
  FlushLog, FlushState, flush_articles, after_part, add_count, flush_parts, keep_file, flush_files,
  flush_range, is_flushed, no_log, flush_in, flush,
}

module _ (t : ServerArticle → Bool) (now : ℕ) where
  -- one for an article that is flushed
  abbrev one_flushed : ServerArticle → ℕ
  one_flushed a = if t a then 1 else 0

  flush_articles-count :
      (xs : List ServerArticle)
      → (flush_articles t xs).1 ≡ weigh_articles one_flushed xs % ulong_mod
  unfolding flush_articles weigh_articles
  flush_articles-count [] = refl
  flush_articles-count (a ∷ more) = ground (arith, flush_articles-count more)

  after_part-count :
      (req : ℤ) (p : Part) (xs : List ServerArticle) (s : FlushState)
      → (after_part now req p xs s).log.count ≡ s.log.count
  unfolding after_part
  after_part-count req p [] s = refl
  after_part-count req p (a ∷ more) s = refl

  after_part-countp :
      (req : ℤ) (p : Part) (xs : List ServerArticle) (s : FlushState)
      → ((after_part now req p xs s).log.countp
            + weigh_parts each_part (after_part now req p xs s).parts)
          % ulong_mod
        ≡ (s.log.countp + (1 + weigh_parts each_part s.parts)) % ulong_mod
  unfolding after_part weigh_parts
  after_part-countp req p [] s = omega arith
  after_part-countp req p (a ∷ more) s = omega arith

  after_part-countp-lt :
      (req : ℤ) (p : Part) (xs : List ServerArticle) (s : FlushState)
      → s.log.countp < ulong_mod
      → (after_part now req p xs s).log.countp < ulong_mod
  unfolding after_part
  after_part-countp-lt req p [] s h = omega arith
  after_part-countp-lt req p (a ∷ more) s h = h

  flush_parts-count :
      (req : ℤ) (ps : List Part) (s : FlushState)
      → (flush_parts t now req ps s).log.count % ulong_mod
        ≡ (s.log.count + weigh_parts (by_articles one_flushed) ps) % ulong_mod
  unfolding flush_parts weigh_parts add_count
  flush_parts-count req [] s = omega arith
  flush_parts-count req (p ∷ ps) s = omega (
    arith,
    after_part-count req p (flush_articles t p.articles).0
        (add_count (flush_articles t p.articles).1 (flush_parts t now req ps s)),
    flush_articles-count p.articles,
    flush_parts-count req ps s,
  )

  flush_parts-countp :
      (req : ℤ) (ps : List Part) (s : FlushState)
      → ((flush_parts t now req ps s).log.countp
            + weigh_parts each_part (flush_parts t now req ps s).parts)
          % ulong_mod
        ≡ (s.log.countp + (weigh_parts each_part ps + weigh_parts each_part s.parts)) % ulong_mod
  unfolding flush_parts weigh_parts add_count
  flush_parts-countp req [] s = omega arith
  flush_parts-countp req (p ∷ ps) s = omega (
    arith,
    after_part-countp req p (flush_articles t p.articles).0
        (add_count (flush_articles t p.articles).1 (flush_parts t now req ps s)),
    flush_parts-countp req ps s,
  )

  flush_parts-countp-lt :
      (req : ℤ) (ps : List Part) (s : FlushState)
      → s.log.countp < ulong_mod
      → (flush_parts t now req ps s).log.countp < ulong_mod
  unfolding flush_parts add_count
  flush_parts-countp-lt req [] s h = h
  flush_parts-countp-lt req (p ∷ ps) s h =
      after_part-countp-lt req p (flush_articles t p.articles).0
        (add_count (flush_articles t p.articles).1 (flush_parts t now req ps s))
        (flush_parts-countp-lt req ps s h)

  keep_file-parts :
      (f : NntpFile) (ps : List Part) (have : ℤ) (fs : List NntpFile)
      → weigh_files each_part (keep_file f ps have fs)
        ≡ weigh_parts each_part ps + weigh_files each_part fs
  unfolding keep_file weigh_files weigh_parts
  keep_file-parts f [] have fs = omega arith
  keep_file-parts f (p ∷ ps) have fs = omega arith

  abbrev at_file : NntpFile → FlushLog → FlushState
  at_file f log = record { parts = []; have = f.have; log = log }

  flush_files-count :
      (fs : List NntpFile) (log : FlushLog)
      → (flush_files t now fs log).1.count % ulong_mod
        ≡ (log.count + weigh_files (by_articles one_flushed) fs) % ulong_mod
  unfolding flush_files weigh_files
  flush_files-count [] log = omega arith
  flush_files-count (f ∷ fs) log = omega (
    arith,
    flush_parts-count f.req f.parts (at_file f log),
    flush_files-count fs (flush_parts t now f.req f.parts (at_file f log)).log,
  )

  flush_files-countp :
      (fs : List NntpFile) (log : FlushLog)
      → ((flush_files t now fs log).1.countp + weigh_files each_part (flush_files t now fs log).0)
          % ulong_mod
        ≡ (log.countp + weigh_files each_part fs) % ulong_mod
  unfolding flush_files weigh_files
  flush_files-countp [] log = omega arith
  flush_files-countp (f ∷ fs) log =
      let s = flush_parts t now f.req f.parts (at_file f log) in
      omega (
        arith,
        flush_parts-countp f.req f.parts (at_file f log),
        nothing,
        keep_file-parts f s.parts s.have (flush_files t now fs s.log).0,
        flush_files-countp fs s.log,
      )
    where
      nothing : weigh_parts each_part [] ≡ 0
      nothing = unfold weigh_parts in refl

  flush_files-countp-lt :
      (fs : List NntpFile) (log : FlushLog)
      → log.countp < ulong_mod
      → (flush_files t now fs log).1.countp < ulong_mod
  unfolding flush_files
  flush_files-countp-lt [] log h = h
  flush_files-countp-lt (f ∷ fs) log h =
      flush_files-countp-lt fs _ (flush_parts-countp-lt f.req f.parts (at_file f log) h)

-- Where totalnum is the number of the parts of all files modulo 2^64, flush leaves it so.
pub totalnum-flush :
    (info : ServerInfo) (r : Rlist) (now : ℕ) (c : NntpCache) (midinfo : MetaMidInfo)
    → c.totalnum ≡ weigh_files each_part c.files % ulong_mod
    → (flush info r now c midinfo).0.totalnum
      ≡ weigh_files each_part (flush info r now c midinfo).0.files % ulong_mod
unfolding flush
totalnum-flush info r now c midinfo e = counts_in (flush_range info r)
  where
    counts_in :
        (x : Rlist)
        → (flush_in info now c midinfo x).0.totalnum
          ≡ weigh_files each_part (flush_in info now c midinfo x).0.files % ulong_mod
    counts_in [] = unfold flush_in in e
    counts_in (x ∷ xs) =
        unfold flush_in in
        omega (
          arith,
          flush_files-countp (is_flushed info (x ∷ xs)) now c.files (no_log midinfo),
          flush_files-countp-lt (is_flushed info (x ∷ xs)) now c.files (no_log midinfo)
              (omega arith),
        )
