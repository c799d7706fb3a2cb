-- ===== src/Cache/Tests.antt =====
-- Runs of the cache's operations, and its theorems at concrete headers and files.
use nget.Prelude.{
  ◌≡◌, refl, ◌+◌, ◌==◌, ◌&&◌, not, ltb, if◌then◌else◌, none, true, false, pos, negsuc, eqb_ℤ, [],
  ◌∷◌, some, arith,
}
use nget.Nrange.{range}
use nget.Nrange.Members.{mem, within, IsValid}
use nget.Cache.{
  count_partnum, FileBase, Header, ServerArticle, Part, NntpFile, ServerInfo, NntpCache,
}
use nget.Cache.Parts.{part, addpart, lower_bound}
use nget.Cache.Parts.Search.{rank, lower_bound-eq-rank}
use nget.Cache.Parts.Laws.{part-addpart}
use nget.Cache.MidInfo.{MessageState, MidInfo, find_state, save, load, load_line, load_start}
use nget.Cache.MidInfo.Laws.{alive}
use nget.Cache.MidInfo.Saved.{load-save}
use nget.Cache.Additem.{additem, article_of}
use nget.Cache.Additem.Weight.{weigh_files, weigh_parts, by_articles}
use nget.Cache.Additem.Articles.{AllSorted, weigh-additem}
use nget.Cache.Additem.FileOk.{IsFileOk, AllFilesOk}
use nget.Cache.Additem.Invariant.{additem-AllFilesOk}
use nget.Cache.Merge.{mergefile}
use nget.Cache.Merge.Laws.{mergefile-weigh}
use nget.Cache.Flush.{flush}
use nget.Cache.Flush.Bounds.{AllInFiles, IsInBounds}
use nget.Cache.Flush.Articles.{flush-weigh}
use nget.Cache.Flush.Invariant.{flush-AllFilesOk}
use nget.Cache.Missing.{getxrange_between, holds, getxrange_between-mem}

abbrev some_base : FileBase
some_base = record {
  req = pos 2;
  partoff = pos 7;
  author = 97 ∷ [];
  subject = 98 ∷ 99 ∷ [];
  references = [];
}

abbrev other_base : FileBase
other_base = record some_base { subject = 98 ∷ 100 ∷ [] }

abbrev last_base : FileBase
last_base = record some_base { req = pos 3 }

abbrev first_article : ServerArticle
first_article = record { serverid = 1; group = 103 ∷ []; articlenum = 10; bytes = 500; lines = 9 }

abbrev first_part : Part
first_part = record {
  partnum = pos 1;
  articles = first_article ∷ [];
  date = 1000;
  messageid = 60 ∷ 49 ∷ [];
}

abbrev second_part : Part
second_part = record first_part { partnum = pos 2; articles = []; messageid = 60 ∷ 50 ∷ [] }

abbrev some_file : NntpFile
some_file = record {
  base = some_base;
  parts = first_part ∷ [];
  have = pos 1;
  flags = 0;
  tailoff = negsuc 0;
  update = 0;
}

abbrev some_header : Header
some_header = record {
  base = some_base;
  serverid = 1;
  group = 103 ∷ [];
  partnum = pos 2;
  tailoff = negsuc 0;
  articlenum = 11;
  date = 1001;
  bytes = 400;
  lines = 8;
  messageid = 60 ∷ 50 ∷ [];
}

abbrev some_info : ServerInfo
some_info = record { serverid = 1; high = 10; low = 10; num = 1 }

abbrev some_cache : NntpCache
some_cache = record {
  files = some_file ∷ [];
  totalnum = 1;
  server_info = some_info ∷ [];
  saveit = false;
}

some_cache-AllSorted : AllSorted some_cache.files
some_cache-AllSorted = (tt, tt)

some_cache-AllFilesOk : AllFilesOk some_cache.files
some_cache-AllFilesOk =
    (record { sorted = tt; has = unfold weigh_files weigh_parts count_partnum in refl }, tt)

lower_bound-eq-rank_example :
    lower_bound (first_part ∷ second_part ∷ []) (pos 2)
    ≡ rank (pos 2) (first_part ∷ second_part ∷ [])
lower_bound-eq-rank_example =
    lower_bound-eq-rank (first_part ∷ second_part ∷ []) (pos 2) (ground arith, tt)

part-addpart_example :
    part (pos 2) (addpart first_part (second_part ∷ []))
    ≡ (if eqb_ℤ (pos 1) (pos 2) then some first_part else part (pos 2) (second_part ∷ []))
part-addpart_example = part-addpart (pos 2) first_part (second_part ∷ []) tt (unfold part in refl)

abbrev some_state : MessageState
some_state = record { messageid = 60 ∷ 49 ∷ []; date_added = pos 1000; date_removed = pos 2000 }

abbrev some_mid_info : MidInfo
some_mid_info = record { changed = false; states = some_state ∷ [] }

load-save_example :
    ((load false (save none (record some_mid_info { changed = true })).0 some_mid_info).warnings
      ≡ 0)
    × (find_state
          (60 ∷ 49 ∷ [])
          (load false
            (save none (record some_mid_info { changed = true })).0
            some_mid_info).info.states
        ≡ alive (find_state (60 ∷ 49 ∷ []) (some_state ∷ [])))
load-save_example =
    load-save (60 ∷ 49 ∷ []) (record some_mid_info { changed = true }) some_mid_info refl
      (unfold find_state in refl, tt)
      (
        (
          (λ e. ground arith),
          (λ e. ground arith),
          (λ e. ground arith),
          ((λ e. ground arith), (λ e. ground arith), (λ e. ground arith), tt),
        ),
        omega arith,
        omega arith,
        tt,
      )

-- an id with a space makes a line of four tokens, which is not valid
spaced_id :
    (load_line (60 ∷ 32 ∷ 49 ∷ 32 ∷ 50 ∷ 32 ∷ 51 ∷ []) (load_start true some_mid_info)).warnings ≡ 1
unfolding load_line load_start
spaced_id = refl

weigh-additem_example :
    weigh_files (by_articles (λ a. a.bytes)) (additem some_header 5 some_cache).0.files
    ≡ (article_of some_header).bytes + weigh_files (by_articles (λ a. a.bytes)) (some_file ∷ [])
weigh-additem_example = weigh-additem some_header 5 (λ a. a.bytes) some_cache some_cache-AllSorted

additem-AllFilesOk_example : AllFilesOk (additem some_header 5 some_cache).0.files
additem-AllFilesOk_example = additem-AllFilesOk some_header 5 some_cache some_cache-AllFilesOk

ten-IsValid : IsValid (range 10 10 ∷ [])
ten-IsValid = omega arith

some_cache-bounds : AllInFiles (IsInBounds some_info) some_cache.files
some_cache-bounds = ((((λ e. (omega arith, omega arith)), tt), tt), tt)

flush-weigh_example :
    weigh_files
      (by_articles (λ a. a.bytes))
      (flush some_info (range 10 10 ∷ []) 5 some_cache []).0.files
    ≡ weigh_files
        (by_articles
          (λ a. if a.serverid == 1 && mem a.articlenum (range 10 10 ∷ []) then 0 else a.bytes))
        (some_file ∷ [])
flush-weigh_example =
    flush-weigh some_info (range 10 10 ∷ []) 5 some_cache [] (λ a. a.bytes) ten-IsValid
      (omega arith) (omega arith) some_cache-bounds

flush-AllFilesOk_example : AllFilesOk (flush some_info (range 10 10 ∷ []) 5 some_cache []).0.files
flush-AllFilesOk_example =
    flush-AllFilesOk some_info (range 10 10 ∷ []) 5 some_cache [] some_cache-AllFilesOk

getxrange_between-mem_example :
    IsValid (getxrange_between some_info 8 12 (some_file ∷ []))
    × (mem 10 (getxrange_between some_info 8 12 (some_file ∷ []))
        ≡ (within (if ltb 8 10 then 8 else 10) 12 10 && not (holds 1 10 (some_file ∷ []))))
getxrange_between-mem_example =
    getxrange_between-mem some_info 8 12 10 (some_file ∷ []) (omega arith) (omega arith)

abbrev other_file : NntpFile
other_file = record some_file {
  parts = second_part ∷ record first_part { partnum = pos 3 } ∷ [];
  update = 7;
}

mergefile-weigh_example :
    IsFileOk (mergefile other_file some_file).1
    × (weigh_parts (by_articles (λ a. a.bytes)) (mergefile other_file some_file).0.parts
          + weigh_parts (by_articles (λ a. a.bytes)) (mergefile other_file some_file).1.parts
        ≡ weigh_parts (by_articles (λ a. a.bytes)) other_file.parts
          + weigh_parts (by_articles (λ a. a.bytes)) some_file.parts)
mergefile-weigh_example =
    mergefile-weigh (λ a. a.bytes) other_file some_file some_cache-AllFilesOk.0
