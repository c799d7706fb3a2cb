-- ===== src/Grouplist/Flushing.antt =====
-- What flushserver leaves.
use nget.Prelude.{
  ℕ, ◌+◌, ◌≤◌, ◌≡◌, refl, List, [], ◌∷◌, Bool, true, false, ◌||◌, ◌&&◌, ◌==◌, if◌then◌else◌, arith,
  Text, eq_text,
}
use nget.Grouplist.{
  Description, Availability, Grouplist, FlushCounts, has_id, erase_id, no_ids, no_descriptions,
  flush_descriptions, flush_group, is_dead, count_description, flush_groups, flushserver,
}
use nget.Grouplist.Sets.{occurs, has_id-occurs, occurs-erase_id}

-- whether a server has the group of that name
unfoldable pub serves : ℕ → Text → List Availability → Bool
unfolding has_id
serves k name [] = false
serves k name (a ∷ more) = (eq_text a.groupname name && has_id k a.serverids) || serves k name more

unfoldable pub describes : ℕ → Text → List Description → Bool
unfolding has_id
describes k desc [] = false
describes k desc (d ∷ ds) =
    (eq_text d.description desc && has_id k d.serverids) || describes k desc ds

-- whether a server describes the group of that name so
unfoldable pub describes_group : ℕ → Text → Text → List Availability → Bool
unfolding describes
describes_group k name desc [] = false
describes_group k name desc (a ∷ more) =
    (eq_text a.groupname name && describes k desc a.servergroups)
    || describes_group k name desc more

-- the ids are sets
abbrev pub IsIdSet : List ℕ → Type 0
IsIdSet ms = (k : ℕ) → occurs k ms ≤ 1

abbrev pub AllIdSets : List Description → Type 0
AllIdSets [] = Unit {0}
AllIdSets (d ∷ ds) = IsIdSet d.serverids × AllIdSets ds

abbrev pub AreSets : List Availability → Type 0
AreSets [] = Unit {0}
AreSets (a ∷ more) = IsIdSet a.serverids × AllIdSets a.servergroups × AreSets more

abbrev but : ℕ → ℕ → Bool → Bool
but k sid b = if k == sid then false else b

has_id-erase_id :
    (k sid : ℕ) (ms : List ℕ) → IsIdSet ms → has_id k (erase_id sid ms) ≡ but k sid (has_id k ms)
has_id-erase_id k sid ms v =
    let h : occurs k ms ≤ 1 = v k in
    ground (arith, has_id-occurs k (erase_id sid ms), occurs-erase_id k sid ms, has_id-occurs k ms)

no_ids-has_id : (k : ℕ) (ms : List ℕ) → no_ids ms ≡ true → has_id k ms ≡ false
unfolding no_ids has_id
no_ids-has_id k [] e = refl
no_ids-has_id k (m ∷ ms) e = absurd (ground arith)

describes-flush :
    (k sid : ℕ) (desc : Text) (ds : List Description) (n : FlushCounts)
    → AllIdSets ds
    → describes k desc (flush_descriptions sid ds n).0 ≡ but k sid (describes k desc ds)
unfolding describes flush_descriptions
describes-flush k sid desc [] n v = ground arith
describes-flush k sid desc (d ∷ ds) n v = ground (
  arith,
  describes-flush k sid desc ds (count_description sid d n) v.1,
  has_id-erase_id k sid d.serverids v.0,
  no_ids-has_id k (erase_id sid d.serverids),
)

no_descriptions-describes :
    (k : ℕ) (desc : Text) (ds : List Description)
    → no_descriptions ds ≡ true
    → describes k desc ds ≡ false
unfolding no_descriptions describes
no_descriptions-describes k desc [] e = refl
no_descriptions-describes k desc (d ∷ ds) e = absurd (ground arith)

module _ (k sid : ℕ) (name : Text) where
  abbrev counted_group : Availability → FlushCounts → FlushCounts
  counted_group a n =
      let (a', n') = flush_group sid a n in
      record n' { countg = if is_dead a' then n'.countg + 1 else n'.countg }

  serves-flush :
      (as' : List Availability) (n : FlushCounts)
      → AreSets as'
      → serves k name (flush_groups sid as' n).0 ≡ but k sid (serves k name as')
  unfolding serves flush_groups is_dead
  serves-flush [] n v = ground arith
  serves-flush (a ∷ more) n v = ground (
    arith,
    serves-flush more (counted_group a n) v.2,
    has_id-erase_id k sid a.serverids v.0,
    no_ids-has_id k (erase_id sid a.serverids),
  )

  describes_group-flush :
      (desc : Text) (as' : List Availability) (n : FlushCounts)
      → AreSets as'
      → describes_group k name desc (flush_groups sid as' n).0
        ≡ but k sid (describes_group k name desc as')
  unfolding describes_group flush_groups is_dead
  describes_group-flush desc [] n v = ground arith
  describes_group-flush desc (a ∷ more) n v = ground (
    arith,
    describes_group-flush desc more (counted_group a n) v.2,
    describes-flush k sid desc a.servergroups n v.1,
    no_descriptions-describes k desc (flush_descriptions sid a.servergroups n).0,
  )

  -- After flushserver(sid) the server sid has no group and describes none, and each other server has
  -- and describes what it did before, where no id is twice in a set.
  pub flushserver-serves :
      (desc : Text) (l : Grouplist)
      → AreSets l.groups
      → (serves k name (flushserver sid l).groups
          ≡ (if k == sid then false else serves k name l.groups))
        × (describes_group k name desc (flushserver sid l).groups
            ≡ (if k == sid then false else describes_group k name desc l.groups))
  unfolding flushserver
  flushserver-serves desc l v = (serves-flush l.groups _ v, describes_group-flush desc l.groups _ v)
