-- ===== src/Cache/Reader.antt =====
-- c_nntp_cache_reader::read_file: a file of a cache, from the lines of a cache file. nconfig.hasserver
-- and the group of the cache are parameters; the warnings are counted.
pub mod Lines
pub mod Parts
pub mod Articles
pub mod Passes
pub mod Loop
pub mod Modes
pub mod FileLines
pub mod RoundTrip
use nget.Prelude.{
  ℕ, suc, ◌+◌, ℤ, pos, List, [], ◌∷◌, ◌++◌, Bool, true, false, ◌==◌, ltb, if◌then◌else◌, Option,
  some, none, Text, add_ulong, sub_ulong, length,
}
use nget.Decimal.{atoi, atoul}
use nget.Buffy.{bgets, btoks}
use nget.Cache.{ServerArticle, Part, NntpFile}
use nget.Cache.Parts.{set_part, removepart}
use nget.Cache.MidInfo.{MetaMidInfo, meta_set_delete}
use nget.Cache.Additem.{add_part}
use nget.Cache.Writer.{starts_dot}

pub data Mode : Type 0 where
  file_mode : Mode
  references_mode : Mode
  part_mode : Mode
  server_article_mode : Mode

-- the counters of the reader, what it changes of the message ids, and its warnings
pub record ReadLog : Type 0 where
  pub midinfo : MetaMidInfo
  pub count : ℕ
  pub counta : ℕ
  pub curline : ℕ
  pub countdeada : ℕ
  pub warnings : ℕ

-- `np` is the part that was added last, which is the first one of its number in the file
pub record ReadState : Type 0 where
  pub mode : Mode
  pub nf : Option NntpFile
  pub np : Option Part
  pub log : ReadLog

pub data ReadStep : Type 0 where
  reads_on : ReadState → ReadStep
  returns_file : NntpFile → ReadLog → ReadStep
  asserts : ReadStep

-- what read_file returns, with the lines that are left, or throws, or that its assert(0) is reached
pub data ReadResult : Type 0 where
  read_file_result : NntpFile → ReadLog → List Text → ReadResult
  no_more_files : ReadLog → ReadResult
  unexpected_eof : ReadLog → ReadResult
  assertion_fails : ReadResult

unfoldable pub warn : ReadLog → ReadLog
warn log = record log { warnings = suc log.warnings }

-- bgetsp
unfoldable pub line_text : Text → Text
unfolding bgets
line_text l = (bgets l).1

-- what is said of a line that starts with a dot
unfoldable pub check_dot : Text → ReadLog → ReadLog
unfolding warn line_text
check_dot l log = if ltb 1 (length (line_text l)) then warn log else log

-- the tokens, where their number is the given one
unfoldable pub tokens_of : ℕ → Text → Option (List Text)
unfolding btoks
tokens_of max l = let (n, toks, rest) = btoks 9 max true l in if n == max then some toks else none

unfoldable pub invalid_line : ReadState → ReadStep
unfolding warn
invalid_line s = reads_on (record s { log = warn s.log })

module _ (hasserver : ℕ → Bool) (group : Text) where
  unfoldable pub article_of_tokens : Text → Text → Text → Text → ServerArticle
  unfolding atoul
  article_of_tokens a b c d = record {
    serverid = atoul a;
    group = group;
    articlenum = atoul b;
    bytes = atoul c;
    lines = atoul d;
  }

  -- np->articles.push_back, of the part in the file
  unfoldable pub push_article : ServerArticle → Part → NntpFile → ReadState → ReadState
  unfolding set_part
  push_article a p f s =
      let p' = record p { articles = p.articles ++ a ∷ [] } in
      record s {
        nf = some (record f { parts = set_part p.partnum p' f.parts });
        np = some p';
        log = record s.log { counta = add_ulong s.log.counta 1 };
      }

  unfoldable pub read_article : Option (List Text) → Part → NntpFile → ReadState → ReadStep
  unfolding article_of_tokens push_article invalid_line
  read_article (some (a ∷ b ∷ c ∷ d ∷ [])) p f s =
      if hasserver (atoul a)
      then reads_on (push_article (article_of_tokens a b c d) p f s)
      else reads_on (record s { log = record s.log { countdeada = add_ulong s.log.countdeada 1 } })
  read_article toks p f s = invalid_line s

  unfoldable pub article_step : Text → Part → NntpFile → ReadState → ReadStep
  unfolding read_article starts_dot check_dot tokens_of
  article_step l p f s =
      if starts_dot l
      then reads_on (record s { mode = part_mode; log = check_dot l s.log })
      else read_article (tokens_of 4 l) p f s

-- a part that got no article is taken out again
unfoldable pub drop_empty : ℕ → List ServerArticle → Part → NntpFile → ReadState → ReadState
unfolding meta_set_delete removepart
drop_empty now (a ∷ more) p f s = s
drop_empty now [] p f s = record s {
  nf = some (record f { parts = removepart p.partnum f.parts });
  np = none;
  log = record s.log {
    midinfo = meta_set_delete p.messageid now s.log.midinfo;
    count = sub_ulong s.log.count 1;
  };
}

unfoldable pub drop_part : ℕ → Option Part → NntpFile → ReadState → ReadState
unfolding drop_empty
drop_part now none f s = s
drop_part now (some p) f s = drop_empty now p.articles p f s

-- a dot behind the parts
unfoldable pub end_file : List Part → NntpFile → ReadState → ReadStep
unfolding warn
end_file [] f s = reads_on (record { mode = file_mode; nf = none; np = none; log = warn s.log })
end_file (p ∷ ps) f s = returns_file f s.log

unfoldable pub read_part : Option (List Text) → NntpFile → ReadState → ReadStep
unfolding atoi atoul add_part invalid_line
read_part (some (a ∷ b ∷ c ∷ [])) f s =
    let p : Part = record { partnum = atoi a; articles = []; date = atoul b; messageid = c } in
    reads_on (record {
      mode = server_article_mode;
      nf = some (add_part p f);
      np = some p;
      log = record s.log { count = add_ulong s.log.count 1 };
    })
read_part toks f s = invalid_line s

unfoldable pub part_step_of : Text → Option NntpFile → ReadState → ReadStep
unfolding starts_dot check_dot end_file read_part tokens_of
part_step_of l none s = asserts
part_step_of l (some f) s =
    if starts_dot l
    then end_file f.parts f (record s { log = check_dot l s.log })
    else read_part (tokens_of 3 l) f s

unfoldable pub part_step : ℕ → Text → NntpFile → ReadState → ReadStep
unfolding drop_part part_step_of
part_step now l f s = let s' = drop_part now s.np f s in part_step_of l s'.nf s'

unfoldable pub read_file_line : Option (List Text) → ReadState → ReadStep
unfolding atoi atoul invalid_line
read_file_line (some (a ∷ b ∷ c ∷ d ∷ e ∷ f ∷ g ∷ [])) s = reads_on (record s {
  mode = references_mode;
  nf = some (record {
    base = record { req = atoi a; partoff = atoi e; author = d; subject = c; references = [] };
    parts = [];
    have = pos 0;
    flags = atoul b;
    tailoff = atoi f;
    update = atoul g;
  });
})
read_file_line toks s = invalid_line s

unfoldable pub read_reference : Text → NntpFile → ReadState → ReadStep
read_reference [] f s = reads_on (record s {
  nf = some (record f { base = record f.base { references = f.references ++ [] ∷ [] } });
})
read_reference (c ∷ []) f s =
    if c == 46
    then reads_on (record s { mode = part_mode; np = none })
    else reads_on (record s {
      nf = some (record f { base = record f.base { references = f.references ++ (c ∷ []) ∷ [] } });
    })
read_reference (c ∷ d ∷ cs) f s =
    let r = if c == 46 then d ∷ cs else c ∷ d ∷ cs in
    reads_on (record s {
      nf = some (record f { base = record f.base { references = f.references ++ r ∷ [] } });
    })

-- In a mode without the file or the part that the mode is about, the code reads no line: it asserts
-- that this cannot be.
module _ (hasserver : ℕ → Bool) (group : Text) (now : ℕ) where
  unfoldable pub mode_step : Mode → Option NntpFile → Option Part → Text → ReadState → ReadStep
  unfolding article_step part_step read_file_line tokens_of read_reference line_text
  mode_step server_article_mode (some f) (some p) l s = article_step hasserver group l p f s
  mode_step part_mode (some f) np l s = part_step now l f s
  mode_step file_mode nf np l s = read_file_line (tokens_of 7 l) s
  mode_step references_mode (some f) np l s = read_reference (line_text l) f s
  mode_step server_article_mode none np l s = asserts
  mode_step server_article_mode (some f) none l s = asserts
  mode_step part_mode none np l s = asserts
  mode_step references_mode none np l s = asserts

  -- a pass of the loop
  unfoldable pub read_step : Text → ReadState → ReadStep
  unfolding mode_step
  read_step l s =
      let s' = record s { log = record s.log { curline = add_ulong s.log.curline 1 } } in
      mode_step s'.mode s'.nf s'.np l s'

  unfoldable pub at_eof : Option NntpFile → ReadLog → ReadResult
  at_eof none log = no_more_files log
  at_eof (some f) log = unexpected_eof log

  unfoldable pub read_on : ReadStep → List Text → (ReadState → ReadResult) → ReadResult
  read_on (reads_on s) rest g = g s
  read_on (returns_file f log) rest g = read_file_result f log rest
  read_on asserts rest g = assertion_fails

  unfoldable pub read_loop : List Text → ReadState → ReadResult
  unfolding read_step at_eof read_on
  read_loop [] s = at_eof s.nf s.log
  read_loop (l ∷ ls) s = read_on (read_step l s) ls (λ s'. read_loop ls s')

  unfoldable pub read_file : List Text → ReadLog → ReadResult
  unfolding read_loop
  read_file ls log = read_loop ls (record { mode = file_mode; nf = none; np = none; log = log })

-- check_counts, and the totalnum that it leaves
unfoldable pub check_counts : ℕ → ReadLog → ℕ × ReadLog
unfolding warn
check_counts totalnum log =
    let log' = if log.countdeada == 0 then log else warn log in
    if log'.count == totalnum then (totalnum, log') else (log'.count, warn log')
