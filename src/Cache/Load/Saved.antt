-- ===== src/Cache/Load/Saved.antt =====
-- The cache from the lines that were saved.
use nget.Prelude.{
  ℕ, suc, ◌≤◌, ◌≡◌, refl, ap, ◌∙◌, pos, [], Bool, true, false, some, Text, arith, length, ulong_max,
}
use nget.Cache.{NntpCache}
use nget.Cache.MidInfo.{MetaMidInfo}
use nget.Cache.Writer.{cache_sortver, server_lines, all_file_lines, cache_lines}
use nget.Cache.Reader.{ReadLog}
use nget.Cache.Load.{
  load_files, load_from, load_cache, map_option, read_cache_of, Loaded, read_files, files_read,
  empty_log,
}
use nget.Cache.Load.RoundTrip.{AllFilesWhole, IsOrdered, read_files-whole}
use nget.Cache.Load.Beginning.{
  length-all_file_lines, read_start-start_line, AreInfosInOrder, AllInfosOk,
  read_infos-server_lines,
}

module _ (hasserver : ℕ → Bool) (group : Text) (now : ℕ) where
  -- what is saved whole
  pub record IsCacheWhole (c : NntpCache) : Type 0 where
    pub total : c.totalnum ≤ ulong_max
    pub infos : AllInfosOk hasserver c.server_info
    pub infos_in_order : AreInfosInOrder c.server_info
    pub files : AllFilesWhole hasserver group now c.files
    pub files_in_order : IsOrdered hasserver group now c.files

  loaded_files :
      (c : NntpCache) (log : ReadLog)
      → IsCacheWhole c
      → (log' : ReadLog) × (read_files hasserver group now
            (suc (length (all_file_lines c.files)))
            (all_file_lines c.files)
            []
            log
          ≡ some (files_read c.files log'))
  loaded_files c log v =
      read_files-whole hasserver group now c.files [] (suc (length (all_file_lines c.files))) log
        v.files v.files_in_order (omega (arith, length-all_file_lines c.files))

  -- The constructor makes the files and the servers of a cache that was saved out of the lines of the
  -- destructor, as they were and in their order, and has no reason to save them again: where the
  -- numbers fit their types, the texts hold no separator, the servers are configured and in the
  -- order of their ids, the files are in the order of their keys, and each file has parts in order
  -- that are counted, with articles of the group in each part.
  pub load_cache-cache_lines :
      (c : NntpCache) (mi : MetaMidInfo)
      → IsCacheWhole c
      → (r : Loaded) × (load_cache hasserver group now (cache_lines c) mi ≡ some r)
        × (r.cache.files ≡ c.files)
        × (r.cache.server_info ≡ c.server_info)
        × (r.cache.saveit ≡ false)
        × (r.fileread ≡ true)
  unfolding load_cache cache_lines load_from load_files map_option
  load_cache-cache_lines c mi v =
      let (log1, infos) =
        read_infos-server_lines hasserver c.server_info [] (all_file_lines c.files)
          (record (empty_log mi) { curline = 1 }) v.infos v.infos_in_order in
      let (log2, files) = loaded_files c log1 v in
      let r =
        read_cache_of c.totalnum (pos cache_sortver) c.server_info (files_read c.files log2) in
      (
        r,
        ap
              (λ t.
                load_from hasserver group now t
                  (server_lines c.server_info (all_file_lines c.files))
                  (record (empty_log mi) { curline = 1 }))
              (read_start-start_line c.totalnum v.total)
            ∙ ap (λ t. load_files hasserver group now t.2 c.totalnum (pos cache_sortver) t.0 t.1)
                infos
            ∙ ap (map_option (read_cache_of c.totalnum (pos cache_sortver) c.server_info)) files,
        unfold read_cache_of in refl,
        unfold read_cache_of in refl,
        unfold read_cache_of in refl,
        unfold read_cache_of in refl,
      )
