-- ===== src/Grouplist/Tests.antt =====
-- Runs of the group list, and its theorems at concrete lists.
use nget.Prelude.{
  ℕ, ◌≡◌, refl, List, [], ◌∷◌, Bool, true, false, ◌==◌, if◌then◌else◌, some, Text, arith,
}
use nget.Grouplist.{Description, Grouplist, description_of, addserverdescription, flushserver}
use nget.Grouplist.Descriptions.{holders, IsExclusive, addserverdescription-description_of}
use nget.Grouplist.Sets.{occurs}
use nget.Grouplist.Flushing.{serves, describes_group, flushserver-serves}
use nget.Grouplist.File.{GroupResult, group_read, no_more_groups, unexpected_group_eof, read_group}
use nget.Grouplist.Saving.{fresh_log}

-- servers 1 and 2 say "a", server 3 says "b"
abbrev some_descriptions : List Description
some_descriptions =
    record { description = 97 ∷ []; serverids = 1 ∷ 2 ∷ [] }
    ∷ record { description = 98 ∷ []; serverids = 3 ∷ [] }
    ∷ []

abbrev any_server : ℕ → Bool
any_server n = true

abbrev server_one : ℕ → Bool
server_one n = n == 1

is_eof : GroupResult → Bool
is_eof (group_read a log rest) = false
is_eof (no_more_groups log) = false
is_eof (unexpected_group_eof log) = true

some_descriptions-IsExclusive : IsExclusive some_descriptions
unfolding IsExclusive holders occurs
some_descriptions-IsExclusive = λ k. ground arith

addserverdescription-description_of_example :
    ((k : ℕ)
      → description_of k (addserverdescription 2 (98 ∷ []) some_descriptions).1
        ≡ (if k == 2 then some (98 ∷ []) else description_of k some_descriptions))
    × IsExclusive (addserverdescription 2 (98 ∷ []) some_descriptions).1
addserverdescription-description_of_example =
    addserverdescription-description_of 2 (98 ∷ []) some_descriptions some_descriptions-IsExclusive

abbrev some_list : Grouplist
some_list = record {
  saveit = false;
  server_info = [];
  groups =
      record { groupname = 103 ∷ []; serverids = 1 ∷ 2 ∷ []; servergroups = some_descriptions }
      ∷ record { groupname = 104 ∷ []; serverids = 2 ∷ []; servergroups = [] }
      ∷ [];
}

flushserver-serves_example :
    (serves 2 (104 ∷ []) (flushserver 2 some_list).groups ≡ false)
    × (describes_group 2 (104 ∷ []) (97 ∷ []) (flushserver 2 some_list).groups ≡ false)
flushserver-serves_example = flushserver-serves 2 2 (104 ∷ []) (97 ∷ []) some_list (
  unfold occurs in λ k. ground arith,
  (unfold occurs in λ k. ground arith, (unfold occurs in λ k. ground arith, tt)),
  (unfold occurs in λ k. ground arith, tt, tt),
)

-- a line that belongs to no group, and a group of a server that is not configured
abbrev some_lines : List Text
some_lines =
    (78 ∷ 71 ∷ 69 ∷ 84 ∷ 71 ∷ 76 ∷ 49 ∷ [])
    ∷ (46 ∷ [])
    ∷ (49 ∷ 9 ∷ 103 ∷ [])
    ∷ (46 ∷ [])
    ∷ (50 ∷ 9 ∷ 104 ∷ [])
    ∷ (46 ∷ [])
    ∷ []

-- a dead group behind the last one that lives is taken for a file that was cut off
dead_group_throws :
    is_eof (read_group server_one ((50 ∷ 9 ∷ 104 ∷ []) ∷ (46 ∷ []) ∷ []) fresh_log) ≡ true
unfolding read_group fresh_log is_eof
dead_group_throws = refl

-- and a group that is cut off is taken for a whole one
cut_group_reads : is_eof (read_group server_one ((49 ∷ 9 ∷ 104 ∷ []) ∷ []) fresh_log) ≡ false
unfolding read_group fresh_log is_eof
cut_group_reads = refl
