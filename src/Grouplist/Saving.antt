-- ===== src/Grouplist/Saving.antt =====
-- grouplist.cc: the constructor of c_nntp_grouplist, and save. The lines are those of the file; what
-- was read stays where the rest is refused.
use nget.Prelude.{
  ℕ, zero, suc, ◌==◌, List, [], ◌∷◌, ◌++◌, Bool, true, false, not, ◌&&◌, ◌||◌, ltb, if◌then◌else◌,
  Option, some, none, Text, eq_text, lt_text, length,
}
use nget.Decimal.{atoul, print_ulong}
use nget.Buffy.{bgets, btoks}
use nget.Grouplist.{GrouplistServerInfo, Description, Availability, Grouplist}
use nget.Grouplist.File.{
  GroupLog, warn_group, next_line, starts_dot_line, dot_ends, glcache_version, GroupResult,
  group_read, no_more_groups, unexpected_group_eof, read_group,
}

-- the insert of a map
unfoldable pub insert_server_info :
    GrouplistServerInfo → List GrouplistServerInfo → List GrouplistServerInfo
insert_server_info i [] = i ∷ []
insert_server_info i (j ∷ js) =
    if j.serverid == i.serverid
    then j ∷ js
    else if ltb i.serverid j.serverid
    then i ∷ j ∷ js
    else j ∷ insert_server_info i js

unfoldable pub insert_group : Availability → List Availability → List Availability
unfolding eq_text lt_text
insert_group a [] = a ∷ []
insert_group a (b ∷ bs) =
    if eq_text b.groupname a.groupname
    then b ∷ bs
    else if lt_text a.groupname b.groupname
    then a ∷ b ∷ bs
    else b ∷ insert_group a bs

module _ (hasserver : ℕ → Bool) where
  unfoldable pub server_info_line :
      ℕ → List Text → List GrouplistServerInfo → GroupLog → List GrouplistServerInfo × GroupLog
  unfolding insert_server_info atoul warn_group
  server_info_line i (a ∷ date ∷ []) is log =
      if (i == 2) && hasserver (atoul a)
      then (insert_server_info (record { serverid = atoul a; date = date }) is, log)
      else (is, warn_group log)
  server_info_line i toks is log = (is, warn_group log)

  -- the servers, up to the dot, and the lines behind it
  unfoldable pub read_server_infos :
      List Text
      → List GrouplistServerInfo
      → GroupLog
      → List GrouplistServerInfo × GroupLog × Option (List Text)
  unfolding server_info_line starts_dot_line dot_ends next_line btoks
  read_server_infos [] is log = (is, log, none)
  read_server_infos (l ∷ ls) is log =
      let (i, toks, end) = btoks 9 2 true l in
      let (is', log') = server_info_line i toks is (next_line log) in
      let rest = read_server_infos ls is' log' in
      if starts_dot_line l then (is, dot_ends l (next_line log), some ls) else rest

-- what is read, and whether the reader threw
pub data GroupsRead : Type 0 where
  groups_read : List Availability → GroupLog → GroupsRead
  groups_broken : List Availability → GroupLog → GroupsRead

unfoldable pub group_got :
    GroupResult
    → List Availability
    → (List Text → List Availability → GroupLog → Option GroupsRead)
    → Option GroupsRead
unfolding insert_group
group_got (no_more_groups log) gs go_on = some (groups_read gs log)
group_got (unexpected_group_eof log) gs go_on = some (groups_broken gs log)
group_got (group_read a log rest) gs go_on = go_on rest (insert_group a gs) log

unfoldable pub check_group_counts : GroupLog → GroupLog
unfolding warn_group
check_group_counts log =
    if (log.countdeads == 0) && (log.countdeadg == 0) then log else warn_group log

-- the list, and the log; the handler of CacheEx warns
unfoldable pub broken_list :
    List Availability → List GrouplistServerInfo → GroupLog → Grouplist × GroupLog
unfolding warn_group
broken_list gs is log = (record { saveit = false; server_info = is; groups = gs }, warn_group log)

unfoldable pub fresh_log : GroupLog
fresh_log = record {
  curline = 0;
  num = 0;
  nums = 0;
  numd = 0;
  numsd = 0;
  countdeads = 0;
  countdeadg = 0;
  warnings = 0;
}

unfoldable pub list_of :
    List GrouplistServerInfo → Option GroupsRead → Option (Grouplist × GroupLog)
unfolding check_group_counts broken_list
list_of is none = none
list_of is (some (groups_broken gs log)) = some (broken_list gs is log)
list_of is (some (groups_read gs log)) =
    some (record { saveit = false; server_info = is; groups = gs }, check_group_counts log)

module _ (hasserver : ℕ → Bool) where
  unfoldable pub read_groups : ℕ → List Text → List Availability → GroupLog → Option GroupsRead
  unfolding group_got read_group
  read_groups zero ls gs log = none
  read_groups (suc fuel) ls gs log =
      group_got (read_group hasserver ls log) gs (λ rest gs' log'. read_groups fuel rest gs' log')

  unfoldable pub load_groups :
      List GrouplistServerInfo → GroupLog → Option (List Text) → Option (Grouplist × GroupLog)
  unfolding list_of read_groups broken_list
  load_groups is log none = some (broken_list [] is log)
  load_groups is log (some ls) = list_of is (read_groups (suc (length ls)) ls [] log)

  unfoldable pub load_grouplist : List Text → Option (Grouplist × GroupLog)
  unfolding load_groups read_server_infos broken_list fresh_log next_line bgets eq_text
  load_grouplist [] = some (broken_list [] [] fresh_log)
  load_grouplist (l ∷ ls) =
      let (is, log, rest) = read_server_infos hasserver ls [] (next_line fresh_log) in
      let loaded = load_groups is log rest in
      if eq_text (bgets l).1 glcache_version
      then loaded
      else some (broken_list [] [] (next_line fresh_log))

-- the ids with commas between them
unfoldable pub joined_ids : List ℕ → Text
joined_ids [] = []
joined_ids (n ∷ []) = print_ulong n
joined_ids (n ∷ m ∷ ms) = print_ulong n ++ (44 ∷ joined_ids (m ∷ ms))

unfoldable pub description_lines : List Description → List Text → List Text
unfolding joined_ids
description_lines [] rest = (46 ∷ []) ∷ rest
description_lines (d ∷ ds) rest =
    (joined_ids d.serverids ++ 9 ∷ d.description) ∷ description_lines ds rest

unfoldable pub group_lines : List Availability → List Text
unfolding joined_ids description_lines
group_lines [] = []
group_lines (a ∷ more) =
    (joined_ids a.serverids ++ 9 ∷ a.groupname)
    ∷ description_lines a.servergroups (group_lines more)

unfoldable pub server_info_lines : List GrouplistServerInfo → List Text → List Text
server_info_lines [] rest = (46 ∷ []) ∷ rest
server_info_lines (i ∷ is) rest = (print_ulong i.serverid ++ 9 ∷ i.date) ∷ server_info_lines is rest

-- save: the lines of the file that it makes, where there is reason to
unfoldable pub grouplist_lines : Grouplist → List Text
unfolding server_info_lines group_lines
grouplist_lines l = glcache_version ∷ server_info_lines l.server_info (group_lines l.groups)

unfoldable pub save : Bool → Grouplist → Option (List Text)
unfolding grouplist_lines
save no_filename l = if not l.saveit || no_filename then none else some (grouplist_lines l)
