-- ===== src/Cache/Flush/Invariant.antt =====
-- What flush keeps true of a cache.
use nget.Prelude.{
  ℕ, ℤ, pos, ◌-ℤ◌, ◌<ℤ◌, ◌+◌, ◌≡◌, refl, subst, sym, ap, ◌∙◌, List, [], ◌∷◌, Bool, true, false, inl,
  inr, Bool-cases, arith,
}
use nget.Nrange.{Rlist}
use nget.Cache.{ServerArticle, Part, NntpFile, ServerInfo, NntpCache, count_partnum}
use nget.Cache.MidInfo.{MetaMidInfo}
use nget.Cache.Parts.Search.{IsSorted, Rising}
use nget.Cache.Parts.Laws.{first_less, IsSorted-Rising, Rising-IsSorted}
use nget.Cache.Additem.Weight.{weigh_parts}
use nget.Cache.Additem.FileOk.{counted, AllFilesOk}
use nget.Cache.Flush.{
  FlushLog, FlushState, flush_articles, after_part, add_count, flush_parts, keep_file, flush_files,
  flush_range, is_flushed, no_log, flush_in, flush,
}

suc-pos : (n : ℕ) → pos (1 + n) -ℤ pos 1 ≡ pos n
unfolding ◌-ℤ◌
suc-pos n = ground arith

-- the parts that a part of a file's parts leaves below it
Rising-mono : (m n : ℤ) (ps : List Part) → m <ℤ n → Rising n ps → Rising m ps
Rising-mono m n [] h v = tt
Rising-mono m n (p ∷ ps) h v = (ground arith, v.1)

-- a state that the loop over the parts `ps` of a file may reach
record IsStateOk (req : ℤ) (m : ℤ) (n : ℕ) (s : FlushState) : Type 0 where
  rising : Rising m s.parts
  has : s.have ≡ pos (n + weigh_parts (counted req) s.parts)

module _ (t : ServerArticle → Bool) (now : ℕ) where
  after_part-IsStateOk :
      (req m : ℤ) (n : ℕ) (p : Part) (xs : List ServerArticle) (s : FlushState)
      → m <ℤ p.partnum
      → IsStateOk req p.partnum (counted req p + n) s
      → IsStateOk req m n (after_part now req p xs s)
  unfolding after_part
  after_part-IsStateOk req m n p [] s h v = record {
    rising = Rising-mono m p.partnum s.parts h v.rising;
    has = elim (Bool-cases (count_partnum p.partnum req)) [
      | inl c ↦ rw (c, v.has) (ap (λ k. pos k -ℤ pos 1) (omega (arith, one c)) ∙ suc-pos _)
      | inr c ↦ rw (c, v.has) (ap pos (omega (arith, none_of c)))
    ];
  }
    where
      one : count_partnum p.partnum req ≡ true → counted req p ≡ 1
      one c = rw c

      none_of : count_partnum p.partnum req ≡ false → counted req p ≡ 0
      none_of c = rw c
  after_part-IsStateOk req m n p (a ∷ more) s h v = record {
    rising = (h, v.rising);
    has = v.has ∙ ap pos (unfold weigh_parts in omega arith);
  }

  flush_parts-IsStateOk :
      (req m : ℤ) (n : ℕ) (ps : List Part) (s : FlushState)
      → Rising m ps
      → s.parts ≡ []
      → s.have ≡ pos (n + weigh_parts (counted req) ps)
      → IsStateOk req m n (flush_parts t now req ps s)
  unfolding flush_parts weigh_parts add_count
  flush_parts-IsStateOk req m n [] s v e h = record {
    rising = subst (λ ps. Rising m ps) (sym e) tt;
    has = rw e h;
  }
  flush_parts-IsStateOk req m n (p ∷ ps) s v e h =
      let (left, count) = flush_articles t p.articles in
      let rest =
        flush_parts-IsStateOk req p.partnum (counted req p + n) ps s v.1 e
          (h ∙ ap pos (omega arith)) in
      after_part-IsStateOk req m n p left (add_count count (flush_parts t now req ps s)) v.0
        (record { rising = rest.rising; has = rest.has })

  keep_file-AllFilesOk :
      (f : NntpFile) (ps : List Part) (have : ℤ) (fs : List NntpFile)
      → IsSorted ps
      → have ≡ pos (weigh_parts (counted f.req) ps)
      → AllFilesOk fs
      → AllFilesOk (keep_file f ps have fs)
  unfolding keep_file
  keep_file-AllFilesOk f [] have fs v e w = w
  keep_file-AllFilesOk f (p ∷ ps) have fs v e w = (record { sorted = v; has = e }, w)

  flush_files-AllFilesOk :
      (fs : List NntpFile) (log : FlushLog)
      → AllFilesOk fs
      → AllFilesOk (flush_files t now fs log).0
  unfolding flush_files
  flush_files-AllFilesOk [] log v = tt
  flush_files-AllFilesOk (f ∷ fs) log v =
      let s = flush_parts t now f.req f.parts (record { parts = []; have = f.have; log = log }) in
      let ok =
        flush_parts-IsStateOk f.req (first_less f.parts) 0 f.parts
          (record { parts = []; have = f.have; log = log }) (IsSorted-Rising f.parts v.0.sorted)
          refl (v.0.has ∙ ap pos (omega arith)) in
      keep_file-AllFilesOk f s.parts s.have (flush_files t now fs s.log).0
        (Rising-IsSorted _ s.parts ok.rising) (ok.has ∙ ap pos (omega arith))
        (flush_files-AllFilesOk fs s.log v.1)

-- Where every file of a cache has its parts in order of their numbers, no number twice, and `have`
-- counts those that are numbered 1 to req (of number req, where req is not positive), the same is
-- true of the cache that flush leaves.
pub flush-AllFilesOk :
    (info : ServerInfo) (r : Rlist) (now : ℕ) (c : NntpCache) (midinfo : MetaMidInfo)
    → AllFilesOk c.files
    → AllFilesOk (flush info r now c midinfo).0.files
unfolding flush
flush-AllFilesOk info r now c midinfo v = ok_in (flush_range info r)
  where
    ok_in : (x : Rlist) → AllFilesOk (flush_in info now c midinfo x).0.files
    ok_in [] = unfold flush_in in v
    ok_in (x ∷ xs) =
        unfold flush_in in
        flush_files-AllFilesOk (is_flushed info (x ∷ xs)) now c.files (no_log midinfo) v
