-- ===== src/Cache/Flush.antt =====
-- c_nntp_cache::flush and flushlow. A loop from the last element to the first is a recursion that
-- does the rest of the list before its head.
pub mod Bounds
pub mod Articles
pub mod Invariant
pub mod Counters
use nget.Prelude.{
  ℕ, ℤ, pos, ◌-ℤ◌, ◌==◌, ◌&&◌, List, [], ◌∷◌, Bool, true, false, if◌then◌else◌, Text, ulong_max,
  add_ulong, sub_ulong,
}
use nget.Nrange.{Rlist, check, remove, insert}
use nget.Cache.{ServerArticle, Part, NntpFile, ServerInfo, NntpCache, count_partnum}
use nget.Cache.MidInfo.{
  MidInfo, no_mid_info, MetaMidInfo, meta_check, meta_set_delete, meta_do_delete_fun,
}
use nget.Cache.MidInfo
use nget.Cache.Additem.{with_server_info}

-- what the loops change besides the file they are at
pub record FlushLog : Type 0 where
  pub midinfo : MetaMidInfo
  pub rel_midinfo : MidInfo
  pub count : ℕ
  pub countp : ℕ

-- the file that the loops are at: the parts that stay, `have`
pub record FlushState : Type 0 where
  pub parts : List Part
  pub have : ℤ
  pub log : FlushLog

unfoldable pub flush_articles : (ServerArticle → Bool) → List ServerArticle → List ServerArticle × ℕ
flush_articles t [] = ([], 0)
flush_articles t (a ∷ more) =
    let (rest, count) = flush_articles t more in
    if t a then (rest, add_ulong count 1) else (a ∷ rest, count)

-- what happens to a part whose articles were flushed, by the articles that are left
unfoldable pub after_part : ℕ → ℤ → Part → List ServerArticle → FlushState → FlushState
unfolding count_partnum meta_set_delete meta_check MidInfo.insert
after_part now req p [] s = record {
  parts = s.parts;
  have = if count_partnum p.partnum req then s.have -ℤ pos 1 else s.have;
  log = record s.log {
    midinfo = meta_set_delete p.messageid now s.log.midinfo;
    countp = add_ulong s.log.countp 1;
  };
}
after_part now req p (a ∷ more) s = record {
  parts = record p { articles = a ∷ more } ∷ s.parts;
  have = s.have;
  log = record s.log {
    rel_midinfo =
        if meta_check p.messageid s.log.midinfo
        then MidInfo.insert p.messageid (pos now) s.log.rel_midinfo
        else s.log.rel_midinfo;
  };
}

unfoldable pub add_count : ℕ → FlushState → FlushState
add_count n s = record s { log = record s.log { count = add_ulong s.log.count n } }

unfoldable pub flush_parts : (ServerArticle → Bool) → ℕ → ℤ → List Part → FlushState → FlushState
unfolding flush_articles after_part add_count
flush_parts t now req [] s = s
flush_parts t now req (p ∷ ps) s =
    let (left, count) = flush_articles t p.articles in
    after_part now req p left (add_count count (flush_parts t now req ps s))

-- the list of files that is left when the loop is done with a file and with the files behind it
unfoldable pub keep_file : NntpFile → List Part → ℤ → List NntpFile → List NntpFile
keep_file f [] have fs = fs
keep_file f (p ∷ ps) have fs = record f { parts = p ∷ ps; have = have } ∷ fs

unfoldable pub flush_files :
    (ServerArticle → Bool) → ℕ → List NntpFile → FlushLog → List NntpFile × FlushLog
unfolding flush_parts keep_file
flush_files t now [] log = ([], log)
flush_files t now (f ∷ fs) log =
    let s = flush_parts t now f.req f.parts (record { parts = []; have = f.have; log = log }) in
    let (rest, end) = flush_files t now fs s.log in (keep_file f s.parts s.have rest, end)

-- the range, without what lies outside the bounds noted for the server
unfoldable pub flush_range : ServerInfo → Rlist → Rlist
unfolding remove
flush_range info r = remove (add_ulong info.high 1) ulong_max (remove 0 (sub_ulong info.low 1) r)

unfoldable pub is_flushed : ServerInfo → Rlist → ServerArticle → Bool
unfolding check
is_flushed info r a = a.serverid == info.serverid && check a.articlenum r

abbrev no_log : MetaMidInfo → FlushLog
no_log midinfo = record { midinfo = midinfo; rel_midinfo = no_mid_info; count = 0; countp = 0 }

flush_in : ServerInfo → ℕ → NntpCache → MetaMidInfo → Rlist → NntpCache × MetaMidInfo × ℕ
unfolding flush_files is_flushed with_server_info meta_do_delete_fun
flush_in info now c midinfo [] = (c, midinfo, 0)
flush_in info now c midinfo (x ∷ xs) =
    let (files, log) = flush_files (is_flushed info (x ∷ xs)) now c.files (no_log midinfo) in
    (
      record {
        files = files;
        totalnum = sub_ulong c.totalnum log.countp;
        server_info =
            with_server_info info.serverid (λ i. record i { num = sub_ulong i.num log.count })
              c.server_info;
        saveit = if log.count == 0 then c.saveit else true;
      },
      meta_do_delete_fun log.rel_midinfo (pos now) log.midinfo,
      log.count,
    )

-- `info` is the entry of the cache that servinfo points to.
unfoldable pub flush :
    ServerInfo → Rlist → ℕ → NntpCache → MetaMidInfo → NntpCache × MetaMidInfo × ℕ
unfolding flush_in flush_range
flush info r now c midinfo = flush_in info now c midinfo (flush_range info r)

unfoldable pub flushlow : ServerInfo → ℕ → ℕ → NntpCache → MetaMidInfo → NntpCache × MetaMidInfo × ℕ
unfolding flush insert with_server_info
flushlow info newlow now c midinfo =
    let (c', midinfo', count) = flush info (insert 0 (sub_ulong newlow 1) []) now c midinfo in
    (
      record c' {
        server_info =
            with_server_info info.serverid (λ i. record i { low = newlow }) c'.server_info;
      },
      midinfo',
      count,
    )
