-- ===== src/Cache/Load/Total.antt =====
-- The loop over the files of a cache file ends, and no assertion fails in it.
use nget.Prelude.{ℕ, ◌<◌, ◌≡◌, List, Bool, some, Text, length}
use nget.Cache.{NntpFile}
use nget.Cache.Reader.{
  ReadLog, ReadResult, read_file_result, no_more_files, unexpected_eof, assertion_fails,
}
use nget.Cache.Load.{FilesRead, read_files}

-- lines are used up, and no assertion fails
abbrev Shrinks : ℕ → ReadResult → Type 0
Shrinks n (read_file_result f log rest) = length rest < n
Shrinks n (no_more_files log) = Unit {0}
Shrinks n (unexpected_eof log) = Unit {0}
Shrinks n assertion_fails = ⊥

module _ (hasserver : ℕ → Bool) (group : Text) (now : ℕ) where
  Ends : ℕ → List Text → List NntpFile → ReadLog → Type 0
  Ends fuel ls fs log = (r : FilesRead) × (read_files hasserver group now fuel ls fs log ≡ some r)
