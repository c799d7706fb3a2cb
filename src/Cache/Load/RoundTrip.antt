-- ===== src/Cache/Load/RoundTrip.antt =====
-- A cache file, read back.
use nget.Prelude.{
  ℕ, zero, suc, ◌+◌, ◌<◌, ◌≡◌, ◌≢◌, refl, ap, sym, subst, ◌∙◌, ℤ, pos, List, [], ◌∷◌, ◌++◌, Bool,
  true, false, some, Text, arith, length, append_assoc, append_nil, Bool-cases, inl, inr,
}
use nget.Cache.{ServerArticle, Part, NntpFile, count_partnum}
use nget.Cache.Order.{base_lt}
use nget.Cache.Additem.FileOk.{IsFileOk, counted, pos-suc}
use nget.Cache.Additem.Weight.{weigh_parts}
use nget.Cache.Writer.{file_lines, all_file_lines}
use nget.Cache.Reader.{ReadLog, read_file_result, read_file, read_loop}
use nget.Cache.Reader.Articles.{partial, kept}
use nget.Cache.Reader.Passes.{have_behind, kept_parts, keep_part, finish}
use nget.Cache.Reader.FileLines.{IsFileWritable}
use nget.Cache.Reader.RoundTrip.{read_file-file_lines}
use nget.Cache.Load.{files_read, read_files, file_read, insert_file}

have_behind-weigh :
    (req : ℤ) (ps : List Part) (k : ℕ)
    → have_behind req ps (pos k) ≡ pos (k + weigh_parts (counted req) ps)
unfolding have_behind weigh_parts
have_behind-weigh req [] k = ap pos (omega arith)
have_behind-weigh req (p ∷ ps) k = elim (Bool-cases (count_partnum p.partnum req)) [
  | inl e ↦ rw e (
      ap (have_behind req ps) (pos-suc k) ∙ have_behind-weigh req ps (k + 1) ∙ ap pos (omega arith))
  | inr e ↦ rw e (have_behind-weigh req ps k ∙ ap pos (omega arith))
]

module _ (hasserver : ℕ → Bool) (group : Text) (now : ℕ) where
  abbrev pub AllServed : List ServerArticle → Type 0
  AllServed [] = Unit {0}
  AllServed (a ∷ more) = (hasserver a.serverid ≡ true) × AllServed more

  -- each part has an article, and each article is of a configured server
  abbrev pub AllAlive : List Part → Type 0
  AllAlive [] = Unit {0}
  AllAlive (p ∷ ps) = (p.articles ≢ []) × AllServed p.articles × AllAlive ps

  kept_all : (xs : List ServerArticle) → AllServed xs → kept hasserver group now xs ≡ xs
  unfolding kept
  kept_all [] v = refl
  kept_all (a ∷ more) v = rw v.0 (ap (λ xs. a ∷ xs) (kept_all more v.1))

  keep_part-more :
      (p : Part) (xs : List ServerArticle) (ps : List Part)
      → p.articles ≡ xs
      → xs ≢ []
      → keep_part p xs ps ≡ p ∷ ps
  unfolding keep_part
  keep_part-more p [] ps e h = absurd (h refl)
  keep_part-more p (a ∷ more) ps e h = ap (λ xs. record p { articles = xs } ∷ ps) (sym e)

  kept_parts-alive : (ps : List Part) → AllAlive ps → kept_parts hasserver group now ps ≡ ps
  unfolding kept_parts
  kept_parts-alive [] v = refl
  kept_parts-alive (p ∷ ps) v =
      ap (λ xs. keep_part p xs (kept_parts hasserver group now ps)) (kept_all p.articles v.1)
      ∙ keep_part-more p p.articles (kept_parts hasserver group now ps) refl v.0
      ∙ ap (λ qs. p ∷ qs) (kept_parts-alive ps v.2)

  finish-more :
      (ps : List Part) (f : NntpFile) (log : ReadLog) (tail : List Text)
      → ps ≢ []
      → finish hasserver group now ps f log tail ≡ read_file_result f log tail
  unfolding finish
  finish-more [] f log tail h = absurd (h refl)
  finish-more (p ∷ ps) f log tail h = refl

  -- a file that the writer saves whole
  pub record IsFileWhole (f : NntpFile) : Type 0 where
    pub writable : IsFileWritable group f
    pub counted : IsFileOk f
    pub more : f.parts ≢ []
    pub alive : AllAlive f.parts

  -- The file comes back as it was from the lines that the writer makes of it, and the lines behind it
  -- are left, where its numbers fit their types, its texts hold no separator, its parts are in order,
  -- `have` counts them, there is a part, and each part has an article and each article is of a configured server.
  pub read_file-whole :
      (f : NntpFile) (tail : List Text) (log : ReadLog)
      → IsFileWhole f
      → (log' : ReadLog) × (read_file hasserver group now (file_lines f tail) log
          ≡ read_file_result f log' tail)
  read_file-whole f tail log v =
      let (log', same) = read_file-file_lines hasserver group now f tail log v.writable in
      (
        log',
        same
            ∙ ap
                (λ ps.
                  finish hasserver group now ps (partial f ps (have_behind f.req f.parts (pos 0)))
                    log' tail)
                (kept_parts-alive f.parts v.alive)
            ∙ finish-more f.parts _ log' tail v.more
            ∙ ap (λ n. read_file_result (partial f f.parts n) log' tail)
                (have_behind-weigh f.req f.parts 0 ∙ ap pos (omega arith) ∙ sym v.counted.has),
      )

  abbrev pub AllFilesWhole : List NntpFile → Type 0
  AllFilesWhole [] = Unit {0}
  AllFilesWhole (f ∷ fs) = IsFileWhole f × AllFilesWhole fs

  -- no file is behind one that is greater
  abbrev pub NoneBelow : NntpFile → List NntpFile → Type 0
  NoneBelow f [] = Unit {0}
  NoneBelow f (g ∷ gs) = (base_lt g.base f.base ≡ false) × NoneBelow f gs

  abbrev pub IsOrdered : List NntpFile → Type 0
  IsOrdered [] = Unit {0}
  IsOrdered (f ∷ fs) = NoneBelow f fs × IsOrdered fs

  NoneBelow-mid :
      (g : NntpFile) (fs : List NntpFile) (f : NntpFile) (more : List NntpFile)
      → NoneBelow g (fs ++ f ∷ more)
      → base_lt f.base g.base ≡ false
  NoneBelow-mid g [] f more v = v.0
  NoneBelow-mid g (h ∷ fs) f more v = NoneBelow-mid g fs f more v.1

  insert_file-last :
      (f : NntpFile) (fs more : List NntpFile)
      → IsOrdered (fs ++ f ∷ more)
      → insert_file f fs ≡ fs ++ f ∷ []
  unfolding insert_file
  insert_file-last f [] more v = refl
  insert_file-last f (g ∷ fs) more v =
      rw (NoneBelow-mid g fs f more v.0) (ap (λ xs. g ∷ xs) (insert_file-last f fs more v.1))

  pub read_files-whole :
      (fs : List NntpFile) (before : List NntpFile) (fuel : ℕ) (log : ReadLog)
      → AllFilesWhole fs
      → IsOrdered (before ++ fs)
      → length fs < fuel
      → (log' : ReadLog) × (read_files hasserver group now fuel (all_file_lines fs) before log
          ≡ some (files_read (before ++ fs) log'))
  unfolding read_files file_read all_file_lines
  read_files-whole [] before zero log v o h = absurd (omega arith)
  read_files-whole [] before (suc fuel) log v o h = (
    log,
    unfold read_file read_loop in ap (λ gs. some (files_read gs log)) (sym (append_nil before)),
  )
  read_files-whole (f ∷ fs) before zero log v o h = absurd (omega arith)
  read_files-whole (f ∷ fs) before (suc fuel) log v o h =
      let (log1, same) = read_file-whole f (all_file_lines fs) log v.0 in
      let (log2, rest) =
        read_files-whole fs (before ++ f ∷ []) fuel log1 v.1
          (subst (λ gs. IsOrdered gs) (sym (append_assoc before (f ∷ []) fs)) o) (omega arith) in
      (
        log2,
        ap
              (λ r.
                file_read r before
                  (λ rest fs' log'. read_files hasserver group now fuel rest fs' log'))
              same
            ∙ ap (λ gs. read_files hasserver group now fuel (all_file_lines fs) gs log1)
                (insert_file-last f before fs o)
            ∙ rest
            ∙ ap (λ gs. some (files_read gs log2)) (append_assoc before (f ∷ []) fs),
      )
