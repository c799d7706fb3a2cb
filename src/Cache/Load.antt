-- ===== src/Cache/Load.antt =====
-- The constructor of c_nntp_cache with that of c_nntp_cache_reader: a cache from the lines of its file.
-- What was read stays when the rest is refused. The only
-- fuel is that of the loop over the files, one more than the lines.
pub mod Total
pub mod RoundTrip
pub mod Beginning
pub mod Saved
mod Tests
use nget.Prelude.{
  ℕ, zero, suc, ℤ, pos, negsuc, eqb_ℤ, List, [], ◌∷◌, Bool, true, false, not, ◌==◌, ◌&&◌, ltb,
  if◌then◌else◌, Option, some, none, Text, eq_text, length, add_ulong, take,
}
use nget.Decimal.{atoi, atoul}
use nget.Buffy.{btoks}
use nget.Cache.{NntpFile, ServerInfo, NntpCache}
use nget.Cache.Order.{base_lt}
use nget.Cache.MidInfo.{MetaMidInfo}
use nget.Cache.Writer.{starts_dot, cache_version, cache_sortver}
use nget.Cache.Reader.{
  ReadLog, ReadResult, read_file_result, no_more_files, unexpected_eof, assertion_fails, warn,
  check_dot, tokens_of, read_file, check_counts,
}

-- what CacheEx says
pub data CacheEx : Type 0 where
  different_version : CacheEx
  not_a_cache : CacheEx
  eof_in_cache : CacheEx

-- strchr
unfoldable pub strchr : ℕ → Text → Option Text
strchr c [] = none
strchr c (d ∷ ds) = if d == c then some (d ∷ ds) else strchr c ds

unfoldable pub sortver_of : Option Text → ℤ
unfolding atoi
sortver_of none = negsuc 0
sortver_of (some s) = atoi s

-- the first four bytes are NGET
unfoldable pub is_nget : Text → Bool
unfolding eq_text
is_nget (a ∷ b ∷ c ∷ d ∷ rest) = eq_text (a ∷ b ∷ c ∷ d ∷ []) (78 ∷ 71 ∷ 69 ∷ 84 ∷ [])
is_nget s = false

-- totalnum and cache_sortver
pub data Start : Type 0 where
  starts : ℕ → ℤ → Start
  bad_start : CacheEx → Start

unfoldable pub other_start : List Text → Start
unfolding is_nget
other_start [] = bad_start not_a_cache
other_start (t ∷ ts) = if is_nget t then bad_start different_version else bad_start not_a_cache

unfoldable pub start_of : ℕ → List Text → Start
unfolding other_start sortver_of strchr atoul eq_text
start_of i (version ∷ t ∷ []) =
    if (i == 2) && eq_text version cache_version
    then starts (atoul t) (sortver_of (strchr 32 t))
    else other_start (version ∷ t ∷ [])
start_of i toks = other_start toks

unfoldable pub read_start : Text → Start
unfolding start_of btoks
read_start l = let (i, toks, rest) = btoks 9 2 true l in start_of i toks

-- the insert of a map, in the order of the ids
unfoldable pub insert_info : ServerInfo → List ServerInfo → List ServerInfo
insert_info i [] = i ∷ []
insert_info i (j ∷ js) =
    if j.serverid == i.serverid
    then j ∷ js
    else if ltb i.serverid j.serverid
    then i ∷ j ∷ js
    else j ∷ insert_info i js

module _ (hasserver : ℕ → Bool) where
  unfoldable pub read_info :
      Option (List Text) → List ServerInfo → ReadLog → List ServerInfo × ReadLog
  unfolding insert_info atoul warn
  read_info (some (a ∷ b ∷ c ∷ d ∷ [])) is log =
      if hasserver (atoul a)
      then (
        insert_info (record { serverid = atoul a; high = atoul b; low = atoul c; num = atoul d })
            is,
        log,
      )
      else (is, warn log)
  read_info toks is log = (is, warn log)

  -- up to the dot: the servers, and the lines behind it
  unfoldable pub read_infos :
      List Text → List ServerInfo → ReadLog → List ServerInfo × ReadLog × Option (List Text)
  unfolding read_info tokens_of starts_dot check_dot
  read_infos [] is log = (is, log, none)
  read_infos (l ∷ ls) is log =
      let log' = record log { curline = add_ulong log.curline 1 } in
      let (is', log'') = read_info (tokens_of 4 l) is log' in
      let rest = read_infos ls is' log'' in
      if starts_dot l then (is, check_dot l log', some ls) else rest

-- the insert of a multimap: behind the files that are equal
unfoldable pub insert_file : NntpFile → List NntpFile → List NntpFile
unfolding base_lt
insert_file f [] = f ∷ []
insert_file f (g ∷ gs) = if base_lt f.base g.base then f ∷ g ∷ gs else g ∷ insert_file f gs

-- The files that were read, with whether the reader threw.
pub data FilesRead : Type 0 where
  files_read : List NntpFile → ReadLog → FilesRead
  files_broken : List NntpFile → ReadLog → FilesRead

pub record Loaded : Type 0 where
  pub cache : NntpCache
  pub fileread : Bool
  pub log : ReadLog

unfoldable pub empty_log : MetaMidInfo → ReadLog
empty_log mi = record {
  midinfo = mi;
  count = 0;
  counta = 0;
  curline = 0;
  countdeada = 0;
  warnings = 0;
}

-- what the handler of CacheEx leaves
unfoldable pub broken_cache : List NntpFile → List ServerInfo → ReadLog → Loaded
unfolding warn
broken_cache fs is log = record {
  cache = record { files = fs; totalnum = 0; server_info = is; saveit = false };
  fileread = false;
  log = warn log;
}

unfoldable pub read_cache_of : ℕ → ℤ → List ServerInfo → FilesRead → Loaded
unfolding check_counts broken_cache
read_cache_of totalnum sortver is (files_broken fs log) = broken_cache fs is log
read_cache_of totalnum sortver is (files_read fs log) =
    let (total, log') = check_counts totalnum log in
    record {
      cache = record {
        files = fs;
        totalnum = total;
        server_info = is;
        saveit = not (eqb_ℤ sortver (pos cache_sortver));
      };
      fileread = true;
      log = log';
    }

unfoldable pub map_option : (FilesRead → Loaded) → Option FilesRead → Option Loaded
map_option g none = none
map_option g (some x) = some (g x)

unfoldable pub file_read :
    ReadResult
    → List NntpFile
    → (List Text → List NntpFile → ReadLog → Option FilesRead)
    → Option FilesRead
unfolding insert_file
file_read (no_more_files log) fs go_on = some (files_read fs log)
file_read (unexpected_eof log) fs go_on = some (files_broken fs log)
file_read assertion_fails fs go_on = none
file_read (read_file_result f log rest) fs go_on = go_on rest (insert_file f fs) log

module _ (hasserver : ℕ → Bool) (group : Text) (now : ℕ) where
  -- while ((nf=reader.read_file())), as many times as the fuel lets; none also where an assertion
  -- stops the program
  unfoldable pub read_files : ℕ → List Text → List NntpFile → ReadLog → Option FilesRead
  unfolding read_file file_read
  read_files zero ls fs log = none
  read_files (suc fuel) ls fs log =
      file_read (read_file hasserver group now ls log) fs
        (λ rest fs' log'. read_files fuel rest fs' log')

  unfoldable pub load_files : Option (List Text) → ℕ → ℤ → List ServerInfo → ReadLog → Option Loaded
  unfolding read_files read_cache_of broken_cache
  load_files none totalnum sortver is log = some (broken_cache [] is log)
  load_files (some ls) totalnum sortver is log =
      map_option (read_cache_of totalnum sortver is) (read_files (suc (length ls)) ls [] log)

  unfoldable pub load_from : Start → List Text → ReadLog → Option Loaded
  unfolding load_files read_infos broken_cache
  load_from (bad_start e) ls log = some (broken_cache [] [] log)
  load_from (starts totalnum sortver) ls log =
      let (is, log', rest) = read_infos hasserver ls [] log in
      load_files rest totalnum sortver is log'

  unfoldable pub load_cache : List Text → MetaMidInfo → Option Loaded
  unfolding load_from read_start broken_cache empty_log
  load_cache [] mi = some (broken_cache [] [] (empty_log mi))
  load_cache (l ∷ ls) mi = load_from (read_start l) ls (record (empty_log mi) { curline = 1 })
