-- ===== src/Grouplist.antt =====
-- grouplist.cc: the groups that the servers have, and the descriptions that they give of them. The
-- maps are lists in the order of their keys, and a set of server ids is a list in order.
pub mod Sets
pub mod Descriptions
pub mod Flushing
pub mod File
pub mod Saving
pub mod Loading
mod Tests
use nget.Prelude.{
  ℕ, ◌+◌, List, [], ◌∷◌, Bool, true, false, not, ◌&&◌, ◌||◌, ◌==◌, ltb, if◌then◌else◌, Option, some,
  none, Text, eq_text, lt_text,
}

-- c_nntp_grouplist_server_info
pub record GrouplistServerInfo : Type 0 where
  pub serverid : ℕ
  pub date : Text

-- c_server_group_description
pub record Description : Type 0 where
  pub description : Text
  pub serverids : List ℕ

-- c_group_availability
pub record Availability : Type 0 where
  pub groupname : Text
  pub serverids : List ℕ
  pub servergroups : List Description

-- c_nntp_grouplist
pub record Grouplist : Type 0 where
  pub saveit : Bool
  pub server_info : List GrouplistServerInfo
  pub groups : List Availability

-- find, insert and erase of set<ulong>
unfoldable pub has_id : ℕ → List ℕ → Bool
has_id n [] = false
has_id n (m ∷ ms) = m == n || has_id n ms

unfoldable pub insert_id : ℕ → List ℕ → List ℕ
insert_id n [] = n ∷ []
insert_id n (m ∷ ms) = if m == n then m ∷ ms else if ltb n m then n ∷ m ∷ ms else m ∷ insert_id n ms

unfoldable pub erase_id : ℕ → List ℕ → List ℕ
erase_id n [] = []
erase_id n (m ∷ ms) = if m == n then ms else m ∷ erase_id n ms

unfoldable pub no_ids : List ℕ → Bool
no_ids [] = true
no_ids (m ∷ ms) = false

unfoldable pub no_descriptions : List Description → Bool
no_descriptions [] = true
no_descriptions (d ∷ ds) = false

-- c_nntp_grouplist::getserverinfo
unfoldable pub getserverinfo : ℕ → List GrouplistServerInfo → List GrouplistServerInfo
getserverinfo sid [] = record { serverid = sid; date = [] } ∷ []
getserverinfo sid (i ∷ is) =
    if i.serverid == sid
    then i ∷ is
    else if ltb sid i.serverid
    then record { serverid = sid; date = [] } ∷ i ∷ is
    else i ∷ getserverinfo sid is

-- the description that the server gives: the first one that has its id
unfoldable pub description_of : ℕ → List Description → Option Text
unfolding has_id
description_of sid [] = none
description_of sid (d ∷ ds) =
    if has_id sid d.serverids then some d.description else description_of sid ds

-- the id taken out of the first description that has it, which goes when it has no other
unfoldable pub leave_description : ℕ → List Description → List Description
unfolding has_id erase_id no_ids
leave_description sid [] = []
leave_description sid (d ∷ ds) =
    let rest = leave_description sid ds in
    let ids = erase_id sid d.serverids in
    if has_id sid d.serverids
    then if no_ids ids then ds else record d { serverids = ids } ∷ ds
    else d ∷ rest

-- the id put into that description, which comes where it is not there
unfoldable pub join_description : ℕ → Text → List Description → List Description
unfolding insert_id eq_text lt_text
join_description sid desc [] = record { description = desc; serverids = sid ∷ [] } ∷ []
join_description sid desc (d ∷ ds) =
    if eq_text d.description desc
    then record d { serverids = insert_id sid d.serverids } ∷ ds
    else if lt_text desc d.description
    then record { description = desc; serverids = sid ∷ [] } ∷ d ∷ ds
    else d ∷ join_description sid desc ds

unfoldable pub addserverdescription_as :
    Option Text → ℕ → Text → List Description → Bool × List Description
unfolding leave_description join_description eq_text
addserverdescription_as none sid desc ds = (true, join_description sid desc ds)
addserverdescription_as (some old) sid desc ds =
    if eq_text old desc
    then (false, ds)
    else (true, join_description sid desc (leave_description sid ds))

unfoldable pub addserverdescription : ℕ → Text → List Description → Bool × List Description
unfolding addserverdescription_as description_of
addserverdescription sid desc ds = addserverdescription_as (description_of sid ds) sid desc ds

-- a change of the group of that name, a new one where there is none, and whether it asks for a save
unfoldable pub with_group :
    Text → (Availability → Bool × Availability) → List Availability → Bool × List Availability
unfolding eq_text lt_text
with_group name g [] =
    let (b, a) = g (record { groupname = name; serverids = []; servergroups = [] }) in (b, a ∷ [])
with_group name g (a ∷ as') =
    let (b, a') = g a in
    let (n, new) = g (record { groupname = name; serverids = []; servergroups = [] }) in
    let (r, rest) = with_group name g as' in
    if eq_text a.groupname name
    then (b, a' ∷ as')
    else if lt_text name a.groupname
    then (n, new ∷ a ∷ as')
    else (r, a ∷ rest)

unfoldable pub add_server : ℕ → Availability → Bool × Availability
unfolding has_id insert_id
add_server sid a =
    if has_id sid a.serverids
    then (false, a)
    else (true, record a { serverids = insert_id sid a.serverids })

unfoldable pub add_description : ℕ → Text → Availability → Bool × Availability
unfolding addserverdescription
add_description sid desc a =
    let (changed, ds) = addserverdescription sid desc a.servergroups in
    (changed, record a { servergroups = ds })

unfoldable pub addgroup : ℕ → Text → Grouplist → Grouplist
unfolding with_group add_server
addgroup sid name l =
    let (changed, gs) = with_group name (add_server sid) l.groups in
    record l { groups = gs; saveit = changed || l.saveit }

unfoldable pub addgroupdesc : ℕ → Text → Text → Grouplist → Grouplist
unfolding with_group add_description
addgroupdesc sid name desc l =
    let (changed, gs) = with_group name (add_description sid desc) l.groups in
    record l { groups = gs; saveit = changed || l.saveit }

-- the counters of flushserver
pub record FlushCounts : Type 0 where
  pub countg : ℕ
  pub countgs : ℕ
  pub countd : ℕ
  pub countds : ℕ

unfoldable pub count_description : ℕ → Description → FlushCounts → FlushCounts
unfolding has_id erase_id no_ids
count_description sid d n = record n {
  countds = if has_id sid d.serverids then n.countds + 1 else n.countds;
  countd = if no_ids (erase_id sid d.serverids) then n.countd + 1 else n.countd;
}

unfoldable pub flush_descriptions :
    ℕ → List Description → FlushCounts → List Description × FlushCounts
unfolding erase_id no_ids count_description
flush_descriptions sid [] n = ([], n)
flush_descriptions sid (d ∷ ds) n =
    let ids = erase_id sid d.serverids in
    let (rest, m) = flush_descriptions sid ds (count_description sid d n) in
    if no_ids ids then (rest, m) else (record d { serverids = ids } ∷ rest, m)

-- what is left of a group, but for whether it goes
unfoldable pub flush_group : ℕ → Availability → FlushCounts → Availability × FlushCounts
unfolding has_id erase_id flush_descriptions
flush_group sid a n =
    let (ds, m) = flush_descriptions sid a.servergroups n in
    (
      record a { serverids = erase_id sid a.serverids; servergroups = ds },
      record m { countgs = if has_id sid a.serverids then m.countgs + 1 else m.countgs },
    )

unfoldable pub is_dead : Availability → Bool
unfolding no_ids no_descriptions
is_dead a = no_ids a.serverids && no_descriptions a.servergroups

unfoldable pub flush_groups : ℕ → List Availability → FlushCounts → List Availability × FlushCounts
unfolding flush_group is_dead
flush_groups sid [] n = ([], n)
flush_groups sid (a ∷ more) n =
    let (a', n') = flush_group sid a n in
    let (rest, m) =
      flush_groups sid more
        (record n' { countg = if is_dead a' then n'.countg + 1 else n'.countg }) in
    if is_dead a' then (rest, m) else (a' ∷ rest, m)

unfoldable pub has_info : ℕ → List GrouplistServerInfo → Bool
has_info sid [] = false
has_info sid (i ∷ is) = i.serverid == sid || has_info sid is

unfoldable pub erase_info : ℕ → List GrouplistServerInfo → List GrouplistServerInfo
erase_info sid [] = []
erase_info sid (i ∷ is) = if i.serverid == sid then is else i ∷ erase_info sid is

unfoldable pub flushserver : ℕ → Grouplist → Grouplist
unfolding flush_groups has_info erase_info
flushserver sid l =
    let (gs, n) =
      flush_groups sid l.groups (record { countg = 0; countgs = 0; countd = 0; countds = 0 }) in
    record {
      saveit =
          if has_info sid l.server_info || (ltb 0 n.countgs || ltb 0 n.countds)
          then true
          else l.saveit;
      server_info = erase_info sid l.server_info;
      groups = gs;
    }
