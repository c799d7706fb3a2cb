-- ===== src/Grouplist/File.antt =====
-- grouplist.cc: the file of a group list, read and saved. Lines stand without their ends;
-- nconfig.hasserver is a parameter, and the warnings are counted.
pub mod Total
use nget.Prelude.{
  ℕ, zero, suc, ◌+◌, ◌==◌, List, [], ◌∷◌, ◌++◌, Bool, true, false, not, ◌&&◌, ◌||◌, ltb,
  if◌then◌else◌, Option, some, none, Text, eq_text, lt_text, length, take, add_ulong,
}
use nget.Decimal.{atoul, print_ulong}
use nget.Buffy.{bgets, btoks}
use nget.Strtoker.{goodstrtok}
use nget.Grouplist.{
  GrouplistServerInfo, Description, Availability, Grouplist, insert_id, no_ids, no_descriptions,
  is_dead, addserverdescription,
}

-- the counters of c_nntp_grouplist_reader
pub record GroupLog : Type 0 where
  pub curline : ℕ
  pub num : ℕ
  pub nums : ℕ
  pub numd : ℕ
  pub numsd : ℕ
  pub countdeads : ℕ
  pub countdeadg : ℕ
  pub warnings : ℕ

unfoldable pub warn_group : GroupLog → GroupLog
warn_group log = record log { warnings = suc log.warnings }

unfoldable pub next_line : GroupLog → GroupLog
next_line log = record log { curline = add_ulong log.curline 1 }

unfoldable pub starts_dot_line : Text → Bool
starts_dot_line [] = false
starts_dot_line (c ∷ cs) = c == 46

unfoldable pub dot_ends : Text → GroupLog → GroupLog
unfolding bgets warn_group
dot_ends l log = if ltb 1 (length (bgets l).1) then warn_group log else log

-- GLCACHE_VERSION, "NGETGL1", and the six bytes of any version
abbrev pub glcache_version : Text
glcache_version = 78 ∷ 71 ∷ 69 ∷ 84 ∷ 71 ∷ 76 ∷ 49 ∷ []

-- the loop of goodstrtok at commas, with so many tokens at most
unfoldable pub comma_tokens : ℕ → Option Text → List Text
unfolding goodstrtok
comma_tokens zero s = []
comma_tokens (suc n) none = []
comma_tokens (suc n) (some s) =
    let (token, rest) = goodstrtok (some s) 44 in
    let more = comma_tokens n rest in add_some token more
  where
    add_some : Option Text → List Text → List Text
    add_some none more = []
    add_some (some t) more = t ∷ more

unfoldable pub ids_of : Text → List Text
unfolding comma_tokens
ids_of s = comma_tokens (suc (length s)) (some s)

module _ (hasserver : ℕ → Bool) where
  -- while ((cp = goodstrtok(&buf, ',')) && *cp)
  unfoldable pub add_ids : List Text → Availability → GroupLog → Availability × GroupLog
  unfolding insert_id atoul
  add_ids [] a log = (a, log)
  add_ids ([] ∷ more) a log = (a, log)
  add_ids ((c ∷ cs) ∷ more) a log =
      let sid = atoul (c ∷ cs) in
      if hasserver sid
      then add_ids more (record a { serverids = insert_id sid a.serverids })
          (record log { nums = add_ulong log.nums 1 })
      else add_ids more a (record log { countdeads = add_ulong log.countdeads 1 })

  -- while ((cp = goodstrtok(&buf, ',')))
  unfoldable pub add_describers :
      List Text → Text → Availability → GroupLog → Availability × GroupLog
  unfolding addserverdescription atoul
  add_describers [] desc a log = (a, log)
  add_describers (t ∷ more) desc a log =
      let (changed, ds) = addserverdescription (atoul t) desc a.servergroups in
      if hasserver (atoul t)
      then add_describers more desc (record a { servergroups = ds })
          (record log { numsd = add_ulong log.numsd 1 })
      else add_describers more desc a (record log { countdeads = add_ulong log.countdeads 1 })

-- Where read_group is: at a group, with the one before it where that was dead, or in a group.
pub data GroupMode : Type 0 where
  at_group : Bool → GroupMode
  in_group : Availability → GroupMode

pub data GroupResult : Type 0 where
  group_read : Availability → GroupLog → List Text → GroupResult
  no_more_groups : GroupLog → GroupResult
  unexpected_group_eof : GroupLog → GroupResult

-- the end of a file, where gd may be set
unfoldable pub at_group_eof : Bool → GroupLog → GroupResult
at_group_eof false log = no_more_groups log
at_group_eof true log = unexpected_group_eof log

-- behind the descriptions of a group
unfoldable pub count_group : Availability → GroupLog → GroupLog
unfolding is_dead
count_group a log =
    let log' : GroupLog = record log { numd = add_ulong log.numd (length a.servergroups) } in
    if is_dead a then record log' { countdeadg = add_ulong log'.countdeadg 1 } else log'

module _ (hasserver : ℕ → Bool) where
  unfoldable pub group_line : ℕ → List Text → GroupMode → GroupLog → GroupMode × GroupLog
  unfolding add_ids warn_group ids_of
  group_line i (ids ∷ name ∷ []) m log =
      let (a, log') =
        add_ids hasserver (ids_of ids)
          (record { groupname = name; serverids = []; servergroups = [] }) log in
      if i == 2
      then (in_group a, record log' { num = add_ulong log'.num 1 })
      else (m, warn_group log)
  group_line i toks m log = (m, warn_group log)

  unfoldable pub describe_line : ℕ → List Text → Availability → GroupLog → Availability × GroupLog
  unfolding add_describers warn_group ids_of
  describe_line i (ids ∷ desc ∷ []) a log =
      if i == 2 then add_describers hasserver (ids_of ids) desc a log else (a, warn_group log)
  describe_line i toks a log = (a, warn_group log)

  unfoldable pub read_group_from : List Text → GroupMode → GroupLog → GroupResult
  unfolding group_line describe_line at_group_eof count_group is_dead starts_dot_line dot_ends
      next_line btoks
  read_group_from [] (at_group dead) log = at_group_eof dead log
  read_group_from [] (in_group a) log =
      if is_dead a
      then at_group_eof true (count_group a log)
      else group_read a (count_group a log) []
  read_group_from (l ∷ ls) (at_group dead) log =
      let (i, toks, rest) = btoks 9 2 true l in
      let (m, log') = group_line i toks (at_group dead) (next_line log) in read_group_from ls m log'
  read_group_from (l ∷ ls) (in_group a) log =
      let (i, toks, rest) = btoks 9 2 false l in
      let (a', log') = describe_line i toks a (next_line log) in
      let ended = count_group a (dot_ends l (next_line log)) in
      let dead = read_group_from ls (at_group true) ended in
      let more = read_group_from ls (in_group a') log' in
      if starts_dot_line l then if is_dead a then dead else group_read a ended ls else more

  unfoldable pub read_group : List Text → GroupLog → GroupResult
  unfolding read_group_from
  read_group ls log = read_group_from ls (at_group false) log
