-- ===== src/Cache/Reader/Passes.antt =====
-- The passes of the loop of read_file over a part.
use nget.Prelude.{
  ℕ, ◌<ℤ◌, ◌≤◌, ◌≡◌, refl, ap, ℤ, pos, ◌+ℤ◌, List, [], ◌∷◌, ◌++◌, Bool, false, Option, some, none,
  if◌then◌else◌, Text, ulong_max, add_ulong, sub_ulong,
}
use nget.Decimal.{print_ulong, print_int}
use nget.Decimal.RoundTrip.{atoul-print_ulong, atoi-print_int}
use nget.Buffy.Tokens.{IsField}
use nget.Cache.{ServerArticle, Part, NntpFile, count_partnum}
use nget.Cache.MidInfo.{meta_set_delete}
use nget.Cache.Parts.Search.{IsSorted}
use nget.Cache.Additem.{add_part}
use nget.Cache.Writer.{part_line, starts_dot}
use nget.Cache.Reader.{
  file_mode, server_article_mode, ReadLog, ReadState, ReadStep, reads_on, ReadResult,
  read_file_result, tokens_of, warn, drop_empty, drop_part, read_part, part_step_of, part_step,
  mode_step, read_step, read_on, read_loop,
}
use nget.Cache.Reader.Lines.{
  tokens_of-joined_fields, joined_fields-plain, print_ulong-IsField, print_int-IsField,
  print_int-StartsPlain,
}
use nget.Cache.Reader.Parts.{AllUpTo, addpart-snoc, removepart-snoc}
use nget.Cache.Reader.Articles.{AllArticlesOk, partial, kept, in_part, behind_part, counted_line}

pub record IsPartOk (group : Text) (p : Part) : Type 0 where
  pub date : p.date ≤ ulong_max
  pub messageid : IsField 9 p.messageid
  pub articles : AllArticlesOk group p.articles

abbrev pub AllPartsOk : Text → List Part → Type 0
AllPartsOk group [] = Unit {0}
AllPartsOk group (p ∷ ps) = IsPartOk group p × AllPartsOk group ps

abbrev pub emptied : Part → Part
emptied p = record p { articles = [] }

-- the count of a file that gets another part
abbrev pub have_with : ℤ → Part → ℤ → ℤ
have_with req p have = if count_partnum p.partnum req then have +ℤ pos 1 else have

unfoldable pub have_behind : ℤ → List Part → ℤ → ℤ
have_behind req [] have = have
have_behind req (p ∷ ps) have = have_behind req ps (have_with req p have)

unfoldable pub keep_part : Part → List ServerArticle → List Part → List Part
keep_part p [] rest = rest
keep_part p (a ∷ more) rest = record p { articles = a ∷ more } ∷ rest

module _ (hasserver : ℕ → Bool) (group : Text) (now : ℕ) where
  -- the parts that have an article of a configured server, with those articles
  unfoldable pub kept_parts : List Part → List Part
  unfolding keep_part
  kept_parts [] = []
  kept_parts (p ∷ ps) = keep_part p (kept hasserver group now p.articles) (kept_parts ps)

  -- what read_file does behind the last part
  unfoldable pub finish : List Part → NntpFile → ReadLog → List Text → ReadResult
  finish [] f log tail =
      read_loop hasserver group now tail
        (record { mode = file_mode; nf = none; np = none; log = warn log })
  finish (p ∷ ps) f log tail = read_file_result f log tail

  abbrev pub next_step : ReadStep → List Text → ReadResult
  next_step r tail = read_on hasserver group now r tail (λ s. read_loop hasserver group now tail s)

  part_tokens :
      (p : Part)
      → IsField 9 p.messageid
      → tokens_of 3 (part_line p)
        ≡ some (print_int p.partnum ∷ print_ulong p.date ∷ p.messageid ∷ [])
  unfolding part_line
  part_tokens p v =
      tokens_of-joined_fields (print_int p.partnum) (print_ulong p.date ∷ p.messageid ∷ [])
        (print_int-IsField p.partnum, (print_ulong-IsField p.date, (v, tt)))

  part_plain : (p : Part) → starts_dot (part_line p) ≡ false
  unfolding part_line
  part_plain p = joined_fields-plain (print_int p.partnum) _ (print_int-StartsPlain p.partnum)

  unfoldable pub IsSettled : Option Part → Type 0
  IsSettled np = (f : NntpFile) (s : ReadState) → drop_part now np f s ≡ s

  module _ (f : NntpFile) where
    abbrev partnum_line : ReadLog → ReadLog
    partnum_line log = record (counted_line hasserver group now log) {
      count = add_ulong log.count 1;
    }

    pub read_part-snoc :
        (n : ℤ) (ds : List Part) (have : ℤ) (p : Part) (s : ReadState)
        → IsSorted ds
        → AllUpTo n ds
        → n <ℤ p.partnum
        → IsPartOk group p
        → read_part
            (some (print_int p.partnum ∷ print_ulong p.date ∷ p.messageid ∷ []))
            (partial f ds have)
            s
          ≡ reads_on (
              in_part hasserver group now f ds
                (have_with f.req p have)
                (emptied p)
                (record s.log { count = add_ulong s.log.count 1 }))
    unfolding read_part add_part
    read_part-snoc n ds have p s sorted upto h v =
        rw (atoi-print_int p.partnum, atoul-print_ulong p.date v.date)
          (ap
            (λ ps. reads_on (record {
              mode = server_article_mode;
              nf = some (partial f ps (have_with f.req p have));
              np = some (emptied p);
              log = record s.log { count = add_ulong s.log.count 1 };
            }))
            (addpart-snoc n ds (emptied p) sorted upto h))

    pub part_line-read :
        (ds : List Part) (have : ℤ) (p : Part) (s : ReadState)
        → IsPartOk group p
        → part_step_of (part_line p) (some (partial f ds have)) s
          ≡ read_part
              (some (print_int p.partnum ∷ print_ulong p.date ∷ p.messageid ∷ []))
              (partial f ds have)
              s
    unfolding part_step_of
    part_line-read ds have p s v = rw (part_plain p, part_tokens p v.messageid) refl

    pub part_pass :
        (ds : List Part) (have : ℤ) (np : Option Part) (l : Text) (log : ReadLog)
        → IsSettled np
        → read_step hasserver group now l (behind_part hasserver group now f ds have np log)
          ≡ part_step_of l
              (some (partial f ds have))
              (behind_part hasserver group now f ds have np (counted_line hasserver group now log))
    unfolding read_step mode_step part_step IsSettled
    part_pass ds have np l log settled =
        ap (λ s. part_step_of l s.nf s)
          (settled (partial f ds have)
            (behind_part hasserver group now f ds have np (counted_line hasserver group now log)))

    unfoldable pub dropped_log : Part → ReadLog → ReadLog
    dropped_log q log = record log {
      midinfo = meta_set_delete q.messageid now log.midinfo;
      count = sub_ulong log.count 1;
    }

    -- the part before got no article
    pub drop_pass :
        (n : ℤ) (ds : List Part) (have : ℤ) (q : Part) (l : Text) (log : ReadLog)
        → IsSorted ds
        → AllUpTo n ds
        → n <ℤ q.partnum
        → read_step hasserver group now l
            (behind_part hasserver group now f (ds ++ emptied q ∷ []) have (some (emptied q)) log)
          ≡ part_step_of l (some (partial f ds have)) (
              behind_part hasserver group now f ds have none
                (dropped_log q (counted_line hasserver group now log)))
    unfolding read_step mode_step part_step drop_part drop_empty dropped_log
    drop_pass n ds have q l log sorted upto h =
        ap
          (λ ps. part_step_of l (some (partial f ps have)) (
            behind_part hasserver group now f ps have none
              (dropped_log q (counted_line hasserver group now log))))
          (removepart-snoc n ds (emptied q) sorted upto h)
