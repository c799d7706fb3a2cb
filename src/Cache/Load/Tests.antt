-- ===== src/Cache/Load/Tests.antt =====
-- Runs of the cache file, and its theorems at a concrete cache.
use nget.Prelude.{ℕ, ◌+ℤ◌, ◌≡◌, refl, pos, [], ◌∷◌, Bool, true, false, some, Text, arith, ◌==◌, not}
use nget.Cache.{count_partnum, ServerArticle, Part, NntpFile, NntpCache}
use nget.Cache.MidInfo.{MetaMidInfo}
use nget.Cache.Writer.{cache_lines, file_lines}
use nget.Cache.Reader.{ReadLog, read_file}
use nget.Cache.Reader.Articles.{partial, kept, IsArticleOk}
use nget.Cache.Reader.Passes.{IsPartOk, kept_parts, have_behind, finish}
use nget.Cache.Reader.FileLines.{IsFileWritable}
use nget.Cache.Reader.RoundTrip.{read_file-file_lines}
use nget.Cache.Additem.FileOk.{IsFileOk}
use nget.Cache.Additem.Weight.{weigh_parts}
use nget.Cache.Load.{Loaded, load_cache, empty_log}
use nget.Cache.Load.RoundTrip.{IsFileWhole}
use nget.Cache.Load.Saved.{IsCacheWhole, load_cache-cache_lines}

abbrev any_server : ℕ → Bool
any_server n = true

-- server 2 is not configured any more
abbrev not_two : ℕ → Bool
not_two n = not (n == 2)

abbrev some_group : Text
some_group = 103 ∷ []

abbrev some_article : ServerArticle
some_article = record { serverid = 1; group = 103 ∷ []; articlenum = 10; bytes = 500; lines = 9 }

abbrev first_part : Part
first_part = record {
  partnum = pos 1;
  articles = some_article ∷ record some_article { serverid = 2 } ∷ [];
  date = 1000;
  messageid = 60 ∷ 49 ∷ [];
}

abbrev second_part : Part
second_part = record first_part {
  partnum = pos 2;
  articles = record some_article { serverid = 2 } ∷ [];
}

-- a reference that starts with a dot
abbrev some_file : NntpFile
some_file = record {
  base = record {
    req = pos 2;
    partoff = pos 7;
    author = 97 ∷ [];
    subject = 98 ∷ 99 ∷ [];
    references = (46 ∷ 97 ∷ []) ∷ (98 ∷ []) ∷ [];
  };
  parts = first_part ∷ second_part ∷ [];
  have = pos 2;
  flags = 0;
  tailoff = pos 11;
  update = 2000;
}

abbrev some_cache : NntpCache
some_cache = record {
  files = some_file ∷ [];
  totalnum = 2;
  server_info = record { serverid = 1; high = 10; low = 10; num = 1 } ∷ [];
  saveit = true;
}

abbrev no_mids : MetaMidInfo
no_mids = []

first_article-IsArticleOk : IsArticleOk some_group some_article
first_article-IsArticleOk = record {
  server = omega arith;
  number = omega arith;
  size = omega arith;
  length = omega arith;
  in_group = refl;
}

other_article-IsArticleOk : IsArticleOk some_group (record some_article { serverid = 2 })
other_article-IsArticleOk = record {
  server = omega arith;
  number = omega arith;
  size = omega arith;
  length = omega arith;
  in_group = refl;
}

first_part-IsPartOk : IsPartOk some_group first_part
first_part-IsPartOk = record {
  date = omega arith;
  messageid = ground arith;
  articles = (first_article-IsArticleOk, (other_article-IsArticleOk, tt));
}

second_part-IsPartOk : IsPartOk some_group second_part
second_part-IsPartOk = record {
  date = omega arith;
  messageid = ground arith;
  articles = (other_article-IsArticleOk, tt);
}

some_file-IsFileWritable : IsFileWritable some_group some_file
some_file-IsFileWritable = record {
  flags = omega arith;
  update = omega arith;
  subject = ground arith;
  author = ground arith;
  references = ground arith;
  sorted = ground arith;
  parts = (first_part-IsPartOk, (second_part-IsPartOk, tt));
}

some_file-IsFileOk : IsFileOk some_file
unfolding count_partnum weigh_parts
some_file-IsFileOk = record { sorted = ground arith; has = refl }

some_file-IsFileWhole : IsFileWhole any_server some_group 0 some_file
some_file-IsFileWhole = record {
  writable = some_file-IsFileWritable;
  counted = some_file-IsFileOk;
  more = λ e. ground arith;
  alive = (λ e. ground arith, (refl, (refl, tt)), (λ e. ground arith, (refl, tt), tt));
}

some_cache-IsCacheWhole : IsCacheWhole any_server some_group 0 some_cache
some_cache-IsCacheWhole = record {
  total = omega arith;
  infos = (
    record {
      id = omega arith;
      high = omega arith;
      low = omega arith;
      num = omega arith;
      has = refl;
    },
    tt,
  );
  infos_in_order = (tt, tt);
  files = (some_file-IsFileWhole, tt);
  files_in_order = (tt, tt);
}

load_cache-cache_lines_example :
    (r : Loaded) × (load_cache any_server some_group 0 (cache_lines some_cache) no_mids ≡ some r)
    × (r.cache.files ≡ some_file ∷ [])
    × (r.cache.server_info ≡ some_cache.server_info)
    × (r.cache.saveit ≡ false)
    × (r.fileread ≡ true)
load_cache-cache_lines_example =
    load_cache-cache_lines any_server some_group 0 some_cache no_mids some_cache-IsCacheWhole

-- the second part goes, and is counted all the same
read_file-file_lines_example :
    (log' : ReadLog) × (read_file not_two some_group 0 (file_lines some_file []) (empty_log no_mids)
      ≡ finish not_two some_group 0
          (kept_parts not_two some_group 0 some_file.parts)
          (partial some_file
            (kept_parts not_two some_group 0 some_file.parts)
            (have_behind (pos 2) some_file.parts (pos 0)))
          log'
          [])
read_file-file_lines_example =
    read_file-file_lines not_two some_group 0 some_file [] (empty_log no_mids)
      some_file-IsFileWritable

kept_of_some_file :
    (kept_parts not_two some_group 0 some_file.parts
      ≡ record first_part { articles = some_article ∷ [] } ∷ [])
    × (have_behind (pos 2) some_file.parts (pos 0) ≡ pos 2)
unfolding kept_parts have_behind kept count_partnum ◌+ℤ◌
kept_of_some_file = (refl, refl)
