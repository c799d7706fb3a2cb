-- ===== src/Cache/Reader/Loop.antt =====
-- The loop of read_file over the parts of a file, as the writer makes their lines.
use nget.Prelude.{
  ℕ, ◌<ℤ◌, ◌≡◌, refl, ap, sym, ◌∙◌, ℤ, List, [], ◌∷◌, ◌++◌, Bool, Option, some, none, Text, arith,
  append_assoc, append_nil, add_ulong,
}
use nget.Cache.{ServerArticle, Part, NntpFile}
use nget.Cache.Parts.Search.{IsSorted, Rising}
use nget.Cache.Writer.{dot_line, article_lines, part_line, part_lines, starts_dot}
use nget.Cache.Reader.{
  ReadLog, ReadState, check_dot, drop_empty, drop_part, end_file, part_step_of, read_step, read_on,
  read_loop,
}
use nget.Cache.Reader.Parts.{AllUpTo, AllUpTo-mono, AllUpTo-snoc, IsSorted-snoc}
use nget.Cache.Reader.Articles.{
  partial, with_more, kept, behind_part, counted_line, read_loop-articles,
}
use nget.Cache.Reader.Passes.{
  AllPartsOk, emptied, have_with, have_behind, keep_part, kept_parts, finish, next_step, IsSettled,
  part_line-read, read_part-snoc, part_pass, drop_pass, dropped_log,
}

module _ (hasserver : ℕ → Bool) (group : Text) (now : ℕ) where
  module _ (f : NntpFile) where
    -- what the parts do from a state where the part before is settled
    unfoldable pub Reads : ℤ → List Part → List Part → List Text → ReadState → Type 0
    Reads have ds ps tail s =
        (log' : ReadLog) × (read_loop hasserver group now (part_lines ps tail) s
          ≡ finish hasserver group now (ds ++ kept_parts hasserver group now ps)
              (partial f (ds ++ kept_parts hasserver group now ps) (have_behind f.req ps have)) log'
              tail)

    -- a line is read in `s` as behind the parts `ds`
    unfoldable pub StandsBehind : ℤ → List Part → Option Part → ReadLog → ReadState → Type 0
    StandsBehind have ds np log s =
        (l : Text)
        → read_step hasserver group now l s
          ≡ part_step_of l (some (partial f ds have))
              (behind_part hasserver group now f ds have np log)

    unfoldable pub AllRead : List Part → List Text → Type 0
    AllRead ps tail =
        (n : ℤ) (ds : List Part) (have : ℤ) (np : Option Part) (log : ReadLog) (s : ReadState)
        → IsSorted ds
        → AllUpTo n ds
        → Rising n ps
        → StandsBehind have ds np log s
        → Reads have ds ps tail s

    end_of_parts :
        (ds : List Part) (have : ℤ) (np : Option Part) (log : ReadLog) (tail : List Text)
        → next_step hasserver group now
            (part_step_of dot_line
              (some (partial f ds have))
              (behind_part hasserver group now f ds have np log))
            tail
          ≡ finish hasserver group now ds (partial f ds have) (check_dot dot_line log) tail
    unfolding part_step_of end_file finish read_on starts_dot
    end_of_parts [] have np log tail = refl
    end_of_parts (p ∷ ds) have np log tail = refl

    read_behind :
        (xs : List ServerArticle) (n : ℤ) (ds : List Part) (have : ℤ) (p : Part) (ps : List Part)
        (tail : List Text) (log : ReadLog)
        → IsSorted ds
        → AllUpTo n ds
        → n <ℤ p.partnum
        → Rising p.partnum ps
        → AllRead ps tail
        → (log' : ReadLog) × (read_loop hasserver group now (part_lines ps tail) (
              behind_part hasserver group now f
                (ds ++ with_more (emptied p) xs ∷ [])
                have
                (some (with_more (emptied p) xs))
                log)
            ≡ finish hasserver group now
                (ds ++ keep_part p xs (kept_parts hasserver group now ps))
                (partial f
                  (ds ++ keep_part p xs (kept_parts hasserver group now ps))
                  (have_behind f.req ps have))
                log'
                tail)
    unfolding keep_part AllRead Reads StandsBehind IsSettled drop_part drop_empty
    read_behind [] n ds have p ps tail log sorted upto h rising all =
        all p.partnum ds have none
          (dropped_log hasserver group now f p (counted_line hasserver group now log)) _ sorted
          (AllUpTo-mono n p.partnum ds upto (omega arith)) rising
          (λ l. drop_pass hasserver group now f n ds have p l log sorted upto h)
    read_behind (a ∷ more) n ds have p ps tail log sorted upto h rising all =
        let q = with_more (emptied p) (a ∷ more) in
        let (log', same) =
          all p.partnum (ds ++ q ∷ []) have (some q) (counted_line hasserver group now log)
            (behind_part hasserver group now f (ds ++ q ∷ []) have (some q) log)
            (IsSorted-snoc n ds q sorted upto h)
            (AllUpTo-snoc p.partnum ds q (AllUpTo-mono n p.partnum ds upto (omega arith))
              (omega arith))
            rising
            (λ l.
              part_pass hasserver group now f (ds ++ q ∷ []) have (some q) l log (λ g s. refl)) in
        (
          log',
          same
              ∙ ap
                  (λ ts.
                    finish hasserver group now ts (partial f ts (have_behind f.req ps have)) log'
                      tail)
                  (append_assoc ds (q ∷ []) (kept_parts hasserver group now ps)),
        )

    -- The parts of a file, up to the dot behind them.
    pub read_parts : (ps : List Part) (tail : List Text) → AllPartsOk group ps → AllRead ps tail
    unfolding AllRead Reads part_lines read_loop kept_parts have_behind StandsBehind
    read_parts [] tail ok n ds have np log s sorted upto rising stands = (
      check_dot dot_line log,
      ap (λ r. next_step hasserver group now r tail) (stands dot_line)
          ∙ end_of_parts ds have np log tail
          ∙ ap
              (λ xs.
                finish hasserver group now xs (partial f xs have) (check_dot dot_line log) tail)
              (sym (append_nil ds)),
    )
    read_parts (p ∷ ps) tail ok n ds have np log s sorted upto rising stands =
        let (log1, articles) =
          read_loop-articles hasserver group now f n ds sorted upto (have_with f.req p have)
            p.articles (part_lines ps tail) (emptied p)
            (record log { count = add_ulong log.count 1 }) ok.0.articles rising.0 in
        let (log2, rest) =
          read_behind (kept hasserver group now p.articles) n ds (have_with f.req p have) p ps tail
            log1 sorted upto rising.0 rising.1 (read_parts ps tail ok.1) in
        (
          log2,
          ap (λ r. next_step hasserver group now r (article_lines p.articles (part_lines ps tail)))
                (stands (part_line p)
                  ∙ part_line-read hasserver group now f ds have p
                      (behind_part hasserver group now f ds have np log) ok.0
                  ∙ read_part-snoc hasserver group now f n ds have p
                      (behind_part hasserver group now f ds have np log) sorted upto rising.0 ok.0)
              ∙ articles
              ∙ rest,
        )
