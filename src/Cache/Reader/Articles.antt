-- ===== src/Cache/Reader/Articles.antt =====
-- The loop of read_file over the articles of a part, as the writer makes their lines.
use nget.Prelude.{
  ℕ, ◌<ℤ◌, ◌≤◌, ◌≡◌, refl, ap, sym, ◌∙◌, ℤ, List, [], ◌∷◌, ◌++◌, Bool, Bool-cases, inl, inr, true,
  false, Option, some, if◌then◌else◌, Text, ulong_max, append_assoc, append_nil, add_ulong,
}
use nget.Decimal.{print_ulong}
use nget.Decimal.RoundTrip.{atoul-print_ulong}
use nget.Cache.{ServerArticle, Part, NntpFile}
use nget.Cache.Parts.Search.{IsSorted}
use nget.Cache.Writer.{dot_line, article_line, article_lines, starts_dot}
use nget.Cache.Reader.{
  server_article_mode, part_mode, ReadLog, ReadState, reads_on, check_dot, tokens_of,
  article_of_tokens, push_article, read_article, article_step, mode_step, read_step, read_on,
  read_loop,
}
use nget.Cache.Reader.Lines.{
  tokens_of-joined_fields, joined_fields-plain, print_ulong-IsField, print_ulong-StartsPlain,
}
use nget.Cache.Reader.Parts.{AllUpTo, set_part-snoc}

-- the numbers of an article are unsigned longs, and it is of the group
pub record IsArticleOk (group : Text) (a : ServerArticle) : Type 0 where
  pub server : a.serverid ≤ ulong_max
  pub number : a.articlenum ≤ ulong_max
  pub size : a.bytes ≤ ulong_max
  pub length : a.lines ≤ ulong_max
  pub in_group : a.group ≡ group

abbrev pub AllArticlesOk : Text → List ServerArticle → Type 0
AllArticlesOk group [] = Unit {0}
AllArticlesOk group (a ∷ more) = IsArticleOk group a × AllArticlesOk group more

-- the file with these parts and this count
abbrev pub partial : NntpFile → List Part → ℤ → NntpFile
partial f ds have = record f { parts = ds; have = have }

abbrev pub with_more : Part → List ServerArticle → Part
with_more p xs = record p { articles = p.articles ++ xs }

module _ (hasserver : ℕ → Bool) (group : Text) (now : ℕ) where
  -- the articles of servers that are configured
  unfoldable pub kept : List ServerArticle → List ServerArticle
  kept [] = []
  kept (a ∷ more) = if hasserver a.serverid then a ∷ kept more else kept more

  abbrev pub in_part : NntpFile → List Part → ℤ → Part → ReadLog → ReadState
  in_part f ds have q log = record {
    mode = server_article_mode;
    nf = some (partial f (ds ++ q ∷ []) have);
    np = some q;
    log = log;
  }

  abbrev pub behind_part : NntpFile → List Part → ℤ → Option Part → ReadLog → ReadState
  behind_part f ds have np log = record {
    mode = part_mode;
    nf = some (partial f ds have);
    np = np;
    log = log;
  }

  article_tokens :
      (a : ServerArticle)
      → tokens_of 4 (article_line a)
        ≡ some (
            print_ulong a.serverid
            ∷ print_ulong a.articlenum
            ∷ print_ulong a.bytes
            ∷ print_ulong a.lines
            ∷ [])
  unfolding article_line
  article_tokens a =
      tokens_of-joined_fields (print_ulong a.serverid)
        (print_ulong a.articlenum ∷ print_ulong a.bytes ∷ print_ulong a.lines ∷ [])
        (
          print_ulong-IsField a.serverid,
          (
            print_ulong-IsField a.articlenum,
            (print_ulong-IsField a.bytes, (print_ulong-IsField a.lines, tt)),
          ),
        )

  article_plain : (a : ServerArticle) → starts_dot (article_line a) ≡ false
  unfolding article_line
  article_plain a =
      joined_fields-plain (print_ulong a.serverid) _ (print_ulong-StartsPlain a.serverid)

  article_read :
      (a : ServerArticle)
      → IsArticleOk group a
      → article_of_tokens hasserver group
          (print_ulong a.serverid)
          (print_ulong a.articlenum)
          (print_ulong a.bytes)
          (print_ulong a.lines)
        ≡ a
  unfolding article_of_tokens
  article_read a v =
      rw
        (
          atoul-print_ulong a.serverid v.server,
          atoul-print_ulong a.articlenum v.number,
          atoul-print_ulong a.bytes v.size,
          atoul-print_ulong a.lines v.length,
          sym v.in_group,
        )
        refl

  abbrev tokens : ServerArticle → List Text
  tokens a =
      print_ulong a.serverid
      ∷ print_ulong a.articlenum
      ∷ print_ulong a.bytes
      ∷ print_ulong a.lines
      ∷ []

  abbrev pub counted_line : ReadLog → ReadLog
  counted_line log = record log { curline = add_ulong log.curline 1 }

  module _ (f : NntpFile) (n : ℤ) (ds : List Part) (sorted : IsSorted ds) (upto : AllUpTo n ds)
      (have : ℤ) where
    article_line-read :
        (a : ServerArticle) (q : Part) (log : ReadLog)
        → read_step hasserver group now (article_line a) (in_part f ds have q log)
          ≡ read_article hasserver group
              (some (tokens a))
              q
              (partial f (ds ++ q ∷ []) have)
              (in_part f ds have q (counted_line log))
    unfolding read_step mode_step article_step
    article_line-read a q log = rw (article_plain a, article_tokens a) refl

    read_article-has :
        (a : ServerArticle) (q : Part) (s : ReadState)
        → IsArticleOk group a
        → hasserver a.serverid ≡ true
        → read_article hasserver group (some (tokens a)) q (partial f (ds ++ q ∷ []) have) s
          ≡ reads_on (push_article hasserver group a q (partial f (ds ++ q ∷ []) have) s)
    unfolding read_article
    read_article-has a q s v e =
        ap
          (λ b.
            if b
            then reads_on (
                push_article hasserver group
                  (article_of_tokens hasserver group (print_ulong a.serverid)
                    (print_ulong a.articlenum) (print_ulong a.bytes) (print_ulong a.lines))
                  q (partial f (ds ++ q ∷ []) have) s)
            else reads_on
                (record s { log = record s.log { countdeada = add_ulong s.log.countdeada 1 } }))
          (ap hasserver (atoul-print_ulong a.serverid v.server) ∙ e)
        ∙ ap (λ x. reads_on (push_article hasserver group x q (partial f (ds ++ q ∷ []) have) s))
            (article_read a v)

    read_article-dead :
        (a : ServerArticle) (q : Part) (log : ReadLog)
        → IsArticleOk group a
        → hasserver a.serverid ≡ false
        → read_article hasserver group
            (some (tokens a))
            q
            (partial f (ds ++ q ∷ []) have)
            (in_part f ds have q log)
          ≡ reads_on (in_part f ds have q (record log { countdeada = add_ulong log.countdeada 1 }))
    unfolding read_article
    read_article-dead a q log v e = rw (atoul-print_ulong a.serverid v.server, e) refl

    push_article-snoc :
        (a : ServerArticle) (q : Part) (log : ReadLog)
        → n <ℤ q.partnum
        → push_article hasserver group a q (partial f (ds ++ q ∷ []) have) (in_part f ds have q log)
          ≡ in_part f ds have
              (with_more q (a ∷ []))
              (record log { counta = add_ulong log.counta 1 })
    unfolding push_article
    push_article-snoc a q log h =
        ap
          (λ ps. record {
            mode = server_article_mode;
            nf = some (partial f ps have);
            np = some (with_more q (a ∷ []));
            log = record log { counta = add_ulong log.counta 1 };
          })
          (set_part-snoc n ds q sorted upto h (with_more q (a ∷ [])))

    dot_pass :
        (q : Part) (log : ReadLog)
        → read_step hasserver group now dot_line (in_part f ds have q log)
          ≡ reads_on
              (behind_part f (ds ++ q ∷ []) have (some q) (check_dot dot_line (counted_line log)))
    unfolding read_step mode_step article_step starts_dot
    dot_pass q log = refl

    -- The articles of configured servers get into the part.
    pub read_loop-articles :
        (xs : List ServerArticle) (tail : List Text) (q : Part) (log : ReadLog)
        → AllArticlesOk group xs
        → n <ℤ q.partnum
        → (log' : ReadLog) × (read_loop hasserver group now
              (article_lines xs tail)
              (in_part f ds have q log)
            ≡ read_loop hasserver group now tail (
                behind_part f
                  (ds ++ with_more q (kept xs) ∷ [])
                  have
                  (some (with_more q (kept xs)))
                  log'))
    unfolding read_loop read_on article_lines kept
    read_loop-articles [] tail q log v h = (
      check_dot dot_line (counted_line log),
      ap (λ r. read_on hasserver group now r tail (λ s. read_loop hasserver group now tail s))
            (dot_pass q log)
          ∙ ap
              (λ xs. read_loop hasserver group now tail (
                behind_part f (ds ++ record q { articles = xs } ∷ []) have
                  (some (record q { articles = xs })) (check_dot dot_line (counted_line log))))
              (sym (append_nil q.articles)),
    )
    read_loop-articles (a ∷ more) tail q log v h = elim (Bool-cases (hasserver a.serverid)) [
      | inl e ↦
          let (log', same) =
            read_loop-articles more tail (with_more q (a ∷ []))
              (record (counted_line log) { counta = add_ulong log.counta 1 }) v.1 h in
          rw e (
            log',
            ap
                  (λ r.
                    read_on hasserver group now r (article_lines more tail)
                      (λ s. read_loop hasserver group now (article_lines more tail) s))
                  (article_line-read a q log
                    ∙ read_article-has a q (in_part f ds have q (counted_line log)) v.0 e
                    ∙ ap reads_on (push_article-snoc a q (counted_line log) h))
                ∙ same
                ∙ ap
                    (λ xs. read_loop hasserver group now tail (
                      behind_part f (ds ++ record q { articles = xs } ∷ []) have
                        (some (record q { articles = xs })) log'))
                    (append_assoc q.articles (a ∷ []) (kept more)),
          )
      | inr e ↦
          let (log', same) =
            read_loop-articles more tail q
              (record (counted_line log) { countdeada = add_ulong log.countdeada 1 }) v.1 h in
          rw e (
            log',
            ap
                  (λ r.
                    read_on hasserver group now r (article_lines more tail)
                      (λ s. read_loop hasserver group now (article_lines more tail) s))
                  (article_line-read a q log ∙ read_article-dead a q (counted_line log) v.0 e)
                ∙ same,
          )
    ]
