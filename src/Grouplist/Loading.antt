-- ===== src/Grouplist/Loading.antt =====
-- The constructor of c_nntp_grouplist ends.
use nget.Prelude.{
  ℕ, zero, suc, ◌<◌, ◌≤◌, ◌≡◌, refl, List, [], ◌∷◌, Bool, true, false, Option, some, none,
  if◌then◌else◌, Text, arith, length, eq_text,
}
use nget.Buffy.{bgets}
use nget.Grouplist.{Availability, Grouplist, GrouplistServerInfo}
use nget.Grouplist.File.{
  GroupLog, GroupResult, group_read, no_more_groups, unexpected_group_eof, read_group, next_line,
  glcache_version,
}
use nget.Grouplist.File.Total.{IsLiving, read_group_from-IsLiving}
use nget.Grouplist.Saving.{
  GroupsRead, groups_read, groups_broken, group_got, insert_group, list_of, broken_list,
  read_groups, load_groups, load_grouplist, read_server_infos, fresh_log,
}

-- a group that is returned used up a line
abbrev UsesLine : ℕ → GroupResult → Type 0
UsesLine n (group_read a log rest) = length rest < n
UsesLine n (no_more_groups log) = Unit {0}
UsesLine n (unexpected_group_eof log) = Unit {0}

IsLiving-UsesLine : (n : ℕ) (r : GroupResult) → IsLiving n r → UsesLine (suc n) r
IsLiving-UsesLine n (group_read a log rest) v = omega arith
IsLiving-UsesLine n (no_more_groups log) v = tt
IsLiving-UsesLine n (unexpected_group_eof log) v = tt

module _ (hasserver : ℕ → Bool) where
  read_group-UsesLine :
      (ls : List Text) (log : GroupLog) → UsesLine (length ls) (read_group hasserver ls log)
  unfolding read_group
  read_group-UsesLine [] log = tt
  read_group-UsesLine (l ∷ ls) log =
      IsLiving-UsesLine (length ls) _ (read_group_from-IsLiving hasserver ls _ _)

  Ends : ℕ → List Text → List Availability → GroupLog → Type 0
  Ends fuel ls gs log = (r : GroupsRead) × (read_groups hasserver fuel ls gs log ≡ some r)

  group_got-Ends :
      (fuel n : ℕ) (r : GroupResult) (gs : List Availability)
      → ((ls : List Text) (hs : List Availability) (log : GroupLog)
          → length ls < fuel
          → Ends fuel ls hs log)
      → n ≤ fuel
      → UsesLine n r
      → (x : GroupsRead) × (group_got r gs
            (λ rest gs' log'. read_groups hasserver fuel rest gs' log')
          ≡ some x)
  unfolding group_got Ends
  group_got-Ends fuel n (group_read a log rest) gs v b h =
      v rest (insert_group a gs) log (omega arith)
  group_got-Ends fuel n (no_more_groups log) gs v b h = (groups_read gs log, refl)
  group_got-Ends fuel n (unexpected_group_eof log) gs v b h = (groups_broken gs log, refl)

  read_groups-Ends :
      (fuel : ℕ) (ls : List Text) (gs : List Availability) (log : GroupLog)
      → length ls < fuel
      → Ends fuel ls gs log
  unfolding Ends read_groups
  read_groups-Ends zero ls gs log h = absurd (omega arith)
  read_groups-Ends (suc fuel) ls gs log h =
      group_got-Ends fuel (length ls) (read_group hasserver ls log) gs
        (λ more hs log'. read_groups-Ends fuel more hs log') (omega arith)
        (read_group-UsesLine ls log)

  Loads : Option (Grouplist × GroupLog) → Type 0
  Loads o = (r : Grouplist) × (log : GroupLog) × (o ≡ some (r, log))

  list_of-Loads : (is : List GrouplistServerInfo) (x : GroupsRead) → Loads (list_of is (some x))
  unfolding list_of Loads broken_list
  list_of-Loads is (groups_read gs log) = (_, _, refl)
  list_of-Loads is (groups_broken gs log) = (_, _, refl)

  load_groups-Loads :
      (is : List GrouplistServerInfo) (log : GroupLog) (o : Option (List Text))
      → Loads (load_groups hasserver is log o)
  unfolding load_groups Ends
  load_groups-Loads is log none = unfold Loads broken_list in (_, _, refl)
  load_groups-Loads is log (some ls) =
      let (x, e) = read_groups-Ends (suc (length ls)) ls [] log (omega arith) in
      rw e (list_of-Loads is x)

  if-Loads :
      (b : Bool) (x y : Option (Grouplist × GroupLog))
      → Loads x
      → Loads y
      → Loads (if b then x else y)
  if-Loads true x y v w = v
  if-Loads false x y v w = w

  -- A group list comes out of the lines of any file, valid or not: the loop over the groups ends.
  pub load_grouplist-total :
      (ls : List Text)
      → (r : Grouplist) × (log : GroupLog) × (load_grouplist hasserver ls ≡ some (r, log))
  unfolding load_grouplist Loads broken_list
  load_grouplist-total [] = (_, _, refl)
  load_grouplist-total (l ∷ ls) =
      if-Loads (eq_text (bgets l).1 glcache_version) _ _
        (load_groups-Loads _ _ (read_server_infos hasserver ls [] (next_line fresh_log)).2)
        (_, _, refl)
