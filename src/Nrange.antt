-- ===== src/Nrange.antt =====
-- nrange.h and nrange.cc: c_nrange, a set of numbers kept as a std::map from the high end of each
-- range to its low end. The map is a list of entries in the order of its keys; an iterator is the
-- entry that it stands at, `none` at end(), and a write through it names the entry by its key.
pub mod Members
pub mod Insert
pub mod InsertRange
pub mod Remove
pub mod Total
pub mod Invert
pub mod Trimming
mod Tests
use nget.Prelude.{
  ℕ, ◌+◌, ◌-◌, List, [], ◌∷◌, Option, none, some, Bool, true, false, ltb, leb, ◌==◌, if◌then◌else◌,
  ulong_max, add_ulong, sub_ulong,
}

-- an entry of the map: the key is `high`, the value `low`
pub record Range : Type 0 where
  pub high : ℕ
  pub low : ℕ

abbrev pub range : ℕ → ℕ → Range
range l h = record { high = h; low = l }

abbrev pub Rlist : Type 0
Rlist = List Range

-- std::map: lower_bound, find, operator[] with an assignment, a write through an iterator, erase
unfoldable pub lower_bound : ℕ → Rlist → Option Range
lower_bound n [] = none
lower_bound n (x ∷ xs) = if leb n x.high then some x else lower_bound n xs

unfoldable pub find : ℕ → Rlist → Option Range
find n [] = none
find n (x ∷ xs) = if x.high == n then some x else find n xs

unfoldable pub store : ℕ → ℕ → Rlist → Rlist
store k v [] = range v k ∷ []
store k v (x ∷ xs) =
    if ltb k x.high
    then range v k ∷ x ∷ xs
    else if x.high == k
    then range v k ∷ xs
    else x ∷ store k v xs

unfoldable pub set_low : ℕ → ℕ → Rlist → Rlist
set_low k v [] = []
set_low k v (x ∷ xs) = if x.high == k then range v k ∷ xs else x ∷ set_low k v xs

unfoldable pub erase : ℕ → Rlist → Rlist
erase k [] = []
erase k (x ∷ xs) = if x.high == k then xs else x ∷ erase k xs

-- erase(j, i): the entries from key `k` on, up to the iterator `i`
abbrev is_before : ℕ → Option Range → Bool
is_before k none = true
is_before k (some i) = ltb k i.high

unfoldable pub erase_range : ℕ → Option Range → Rlist → Rlist
erase_range k i [] = []
erase_range k i (x ∷ xs) =
    if ltb x.high k
    then x ∷ erase_range k i xs
    else if is_before x.high i
    then erase_range k i xs
    else x ∷ xs

-- `tot` is the loop's variable
unfoldable pub total_from : ℕ → Rlist → ℕ
total_from tot [] = tot
total_from tot (x ∷ xs) = total_from (add_ulong tot (add_ulong (sub_ulong x.high x.low) 1)) xs

unfoldable pub get_total : Rlist → ℕ
unfolding total_from
get_total r = total_from 0 r

-- `none` where low() and high() throw "of empty nrange"
unfoldable pub low : Rlist → Option ℕ
low [] = none
low (x ∷ xs) = some x.low

unfoldable pub high : Rlist → Option ℕ
high [] = none
high (x ∷ []) = some x.high
high (x ∷ y ∷ ys) = high (y ∷ ys)

unfoldable pub check : ℕ → Rlist → Bool
unfolding lower_bound
check n r = elim (lower_bound n r) [ none ↦ false | some i ↦ leb i.low n ]

-- insert(n), from "if we've gotten here, something will change" on; `i` is the range just above
insert_new : ℕ → Option Range → Rlist → Rlist
insert_new n none r = store n n r
insert_new n (some i) r = r

-- `j` is the range just below, if there is one
insert_join : ℕ → Option Range → Option Range → Rlist → Rlist
unfolding insert_new
insert_join n none (some j) r = erase j.high (store n j.low r)
insert_join n (some i) (some j) r = erase j.high (set_low i.high j.low r)
insert_join n i none r = insert_new n i r

insert_changed : ℕ → Option Range → Rlist → Rlist
unfolding insert_join find
insert_changed n i r = if ltb 0 n then insert_join n i (find (n - 1) r) r else insert_new n i r

insert_at : ℕ → Option Range → Rlist → Rlist
unfolding insert_changed
insert_at n none r = insert_changed n none r
insert_at n (some i) r =
    if leb i.low n
    then r
    else if i.low == add_ulong n 1
    then insert_changed n (some i) (set_low i.high n r)
    else insert_changed n none r

unfoldable pub insert_one : ℕ → Rlist → Rlist
unfolding insert_at lower_bound set_low store erase
insert_one n r = insert_at n (lower_bound n r) r

-- insert(l, h)
abbrev pub varmin : ℕ
varmin = 0

abbrev pub varmax : ℕ
varmax = ulong_max

-- at the end of insert(l, h): `i` is lower_bound(h), and `l` has been lowered
insert_over : ℕ → ℕ → ℕ → Option Range → Rlist → Rlist
insert_over l h h1 none r = store h l r
insert_over l h h1 (some i) r = if ltb h1 i.low then store h l r else set_low i.high l r

-- high and low find the same range
insert_same : ℕ → ℕ → ℕ → Range → Rlist → Rlist
insert_same l h h1 j r =
    if ltb l j.low then (if ltb h1 j.low then store h l r else set_low j.high l r) else r

same_iterator : Option Range → Range → Bool
same_iterator none j = false
same_iterator (some i) j = i.high == j.high

-- `j` is lower_bound(l1), and `i` lower_bound(h)
insert_from : ℕ → ℕ → ℕ → Range → Option Range → Rlist → Rlist
unfolding insert_over insert_same same_iterator erase_range store set_low
insert_from l h h1 j i r =
    if same_iterator i j
    then insert_same l h h1 j r
    else insert_over (if ltb j.low l then j.low else l) h h1 i (erase_range j.high i r)

insert_low : ℕ → ℕ → ℕ → Option Range → Rlist → Rlist
unfolding insert_from lower_bound
insert_low l h h1 none r = store h l r
insert_low l h h1 (some j) r = insert_from l h h1 j (lower_bound h r) r

insert_nonempty : ℕ → ℕ → Rlist → Rlist
unfolding insert_low
insert_nonempty l h r =
    insert_low l h (if ltb h varmax then h + 1 else h)
      (lower_bound (if ltb varmin l then l - 1 else l) r) r

unfoldable pub insert : ℕ → ℕ → Rlist → Rlist
unfolding insert_nonempty
insert l h [] = range l h ∷ []
insert l h (x ∷ xs) = insert_nonempty l h (x ∷ xs)

-- remove(l, h). The loop goes down from the iterator `j`; a pass returns the map, and whether the
-- loop breaks.
trim : ℕ → ℕ → Range → Rlist → Rlist × Bool
unfolding store erase set_low
trim l h j r =
    if leb j.high h
    then (if leb l j.high
        then (erase j.high (if ltb j.low l then store (l - 1) j.low r else r), false)
        else (r, true))
    else if leb j.low h
    then (
      set_low j.high (add_ulong h 1) (if ltb j.low l then store (l - 1) j.low r else r),
      ltb j.low l,
    )
    else (r, false)

trim_next : ℕ → ℕ → Range → Rlist × Bool → Rlist × Bool
unfolding trim
trim_next l h j (r, true) = (r, true)
trim_next l h j (r, false) = trim l h j r

-- the loop over the given entries, the last one first
remove_down : ℕ → ℕ → Rlist → Rlist → Rlist × Bool
unfolding trim_next
remove_down l h [] r = (r, false)
remove_down l h (x ∷ xs) r = trim_next l h x (remove_down l h xs r)

-- from begin() to the iterator at key `k`
up_to : ℕ → Rlist → Rlist
up_to k [] = []
up_to k (x ∷ xs) = if leb x.high k then x ∷ up_to k xs else []

remove_from : ℕ → ℕ → Option Range → Rlist → Rlist
unfolding remove_down up_to
remove_from l h none r = r
remove_from l h (some i) r = (remove_down l h (up_to i.high r) r).0

-- where the loop starts
pub or_else : Option Range → Option Range → Option Range
or_else none j = j
or_else (some i) j = some i

unfoldable pub remove_start : ℕ → ℕ → Rlist → Option Range
unfolding or_else lower_bound
remove_start l h r = or_else (lower_bound h r) (lower_bound l r)

unfoldable pub remove : ℕ → ℕ → Rlist → Rlist
unfolding remove_from remove_start
remove l h [] = []
remove l h (x ∷ xs) = remove_from l h (remove_start l h (x ∷ xs)) (x ∷ xs)

unfoldable pub remove_one : ℕ → Rlist → Rlist
unfolding remove
remove_one n r = remove n n r

-- clip_to_max_total(num): the loop goes over the ranges from the last on. Its state is what it has
-- added up so far, `more`, or the new low end of the set.
pub data Clip : Type 0 where
  more : ℕ → Clip
  new_low : ℕ → Clip

clip_range : ℕ → Range → Clip → Clip
clip_range num i (more tot) =
    let tot' = add_ulong tot (add_ulong (sub_ulong i.high i.low) 1) in
    if leb num tot' then new_low (add_ulong i.low (sub_ulong tot' num)) else more tot'
clip_range num i (new_low n) = new_low n

unfoldable pub clip_scan : ℕ → Rlist → Clip
unfolding clip_range
clip_scan num [] = more 0
clip_scan num (x ∷ xs) = clip_range num x (clip_scan num xs)

clip_at : Clip → ℕ → Rlist → Rlist
clip_at (more tot) l r = r
clip_at (new_low n) l r = if l == n then r else remove l (sub_ulong n 1) r

unfoldable pub clip_to_max_total : ℕ → Rlist → Rlist
unfolding clip_at clip_scan remove
clip_to_max_total num [] = []
clip_to_max_total num (x ∷ xs) = clip_at (clip_scan num (x ∷ xs)) x.low (x ∷ xs)

-- invert(r), into the set `s`; `n` is the first number not yet handled, and 0 again behind varmax
invert_from : ℕ → Rlist → Rlist → Rlist
unfolding insert
invert_from n [] s = if n == varmin then s else insert n varmax s
invert_from n (x ∷ xs) s =
    invert_from (add_ulong x.high 1) xs (if n == x.low then s else insert n (sub_ulong x.low 1) s)

unfoldable pub invert : Rlist → Rlist → Rlist
unfolding invert_from
invert [] s = insert varmin varmax s
invert (x ∷ xs) s = invert_from varmin (x ∷ xs) s
