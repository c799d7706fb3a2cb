-- ===== src/Cache/MidInfo.antt =====
-- c_mid_info and meta_mid_info: which messages have been retrieved, group by group. time_t is a
-- 64-bit number here, and none of the sums comes near its end. A file is its lines.
pub mod Laws
pub mod Saved
use Prim.Native.Nat.{min}
use nget.Prelude.{
  ℤ, pos, negsuc, eqb_ℤ, ltb_ℤ, ◌+ℤ◌, ◌^◌, ◌-◌, suc, ℕ, ◌+◌, ◌<◌, ◌≡◌, refl, List, [], ◌∷◌, Bool,
  true, false, ◌&&◌, ◌||◌, not, Option, none, some, Text, eq_text, eq_text_refl, eq_text→eq, ltb,
  ◌==◌, if◌then◌else◌, arith,
}
use nget.Decimal.{print_int, strtol, number_of}
use nget.Buffy.{btoks}
use nget.Buffy.Tokens.{joined_fields}

-- c_message_state
pub record MessageState : Type 0 where
  pub messageid : Text
  pub date_added : ℤ
  pub date_removed : ℤ

-- INT_MAX
abbrev pub time_t_max : ℤ
time_t_max = pos 2147483647

abbrev pub time_t_max1 : ℤ
time_t_max1 = pos 2147483646

abbrev pub time_t_dead : ℤ
time_t_dead = time_t_max

abbrev pub mid_info_min_keep : ℤ
mid_info_min_keep = pos 1209600

abbrev pub mid_info_min_keep_del : ℤ
mid_info_min_keep_del = pos 604800

-- the fields of c_mid_info that its methods change
pub record MidInfo : Type 0 where
  pub changed : Bool
  pub states : List MessageState

abbrev pub no_mid_info : MidInfo
no_mid_info = record { changed = false; states = [] }

unfoldable pub find_state : Text → List MessageState → Option MessageState
find_state mid [] = none
find_state mid (s ∷ ss) = if eq_text s.messageid mid then some s else find_state mid ss

unfoldable pub erase_state : Text → List MessageState → List MessageState
erase_state mid [] = []
erase_state mid (s ∷ ss) = if eq_text s.messageid mid then ss else s ∷ erase_state mid ss

unfoldable pub set_removed : Text → ℤ → List MessageState → List MessageState
set_removed mid d [] = []
set_removed mid d (s ∷ ss) =
    if eq_text s.messageid mid then record s { date_removed = d } ∷ ss else s ∷ set_removed mid d ss

is_state : Option MessageState → Bool
is_state none = false
is_state (some s) = true

unfoldable pub check : Text → MidInfo → Bool
unfolding is_state find_state
check mid m = is_state (find_state mid m.states)

unfoldable pub insert : Text → ℤ → MidInfo → MidInfo
unfolding check
insert mid now m = if check mid m then m else record {
  changed = true;
  states = record { messageid = mid; date_added = now; date_removed = time_t_max1 } ∷ m.states;
}

-- what insert_full does when the message is known, as `s`
replace_known : MessageState → Text → ℤ → ℤ → MidInfo → MidInfo
unfolding erase_state
replace_known s mid a d m =
    if eqb_ℤ d time_t_max1 && not (eqb_ℤ s.date_removed time_t_max1)
    then m
    else if not (eqb_ℤ s.date_removed time_t_max1) && ltb_ℤ d s.date_removed
    then m
    else record m {
      states =
          record { messageid = mid; date_added = a; date_removed = d } ∷ erase_state mid m.states;
    }

insert_or_replace : Option MessageState → Text → ℤ → ℤ → MidInfo → MidInfo
unfolding replace_known
insert_or_replace none mid a d m = record m {
  states = record { messageid = mid; date_added = a; date_removed = d } ∷ m.states;
}
insert_or_replace (some s) mid a d m = replace_known s mid a d m

unfoldable pub insert_full : Text → ℤ → ℤ → MidInfo → MidInfo
unfolding insert_or_replace find_state
insert_full mid a d m = insert_or_replace (find_state mid m.states) mid a d m

unfoldable pub remove : Text → MidInfo → MidInfo
unfolding check set_removed
remove mid m =
    if check mid m
    then record { changed = true; states = set_removed mid time_t_dead m.states }
    else m

unfoldable pub clear : MidInfo → MidInfo
clear m = elim m.states [ [] ↦ m | s ∷ ss ↦ record { changed = true; states = [] } ]

unfoldable pub set_delete : Text → ℕ → MidInfo → MidInfo
unfolding set_removed
set_delete mid now m = record m { states = set_removed mid (pos now) m.states }

-- whether do_delete_fun marks the state
unfoldable pub is_expired : ℤ → MessageState → Bool
is_expired now s =
    (eqb_ℤ s.date_removed time_t_max1 && ltb_ℤ (s.date_added +ℤ mid_info_min_keep) now)
    || (ltb_ℤ (s.date_added +ℤ mid_info_min_keep) now
        && ltb_ℤ (s.date_removed +ℤ mid_info_min_keep_del) now)

unfoldable pub delete_states : MidInfo → ℤ → List MessageState → Bool × List MessageState
unfolding check is_expired
delete_states rel now [] = (false, [])
delete_states rel now (s ∷ ss) =
    let (hit, rest) = delete_states rel now ss in
    if check s.messageid rel
    then (hit, s ∷ rest)
    else if is_expired now s
    then (true, record s { date_removed = time_t_dead } ∷ rest)
    else (hit, s ∷ rest)

unfoldable pub do_delete_fun : MidInfo → ℤ → MidInfo → MidInfo
unfolding delete_states
do_delete_fun rel now m =
    let (hit, states) = delete_states rel now m.states in
    record { changed = m.changed || hit; states = states }

-- the lines that save() writes, each without its end: the states that are not dead
unfoldable pub state_line : MessageState → Text
unfolding joined_fields print_int
state_line s = joined_fields 32 s.messageid (print_int s.date_added ∷ print_int s.date_removed ∷ [])

unfoldable pub saved_lines : List MessageState → List Text
unfolding state_line
saved_lines [] = []
saved_lines (s ∷ ss) =
    if eqb_ℤ s.date_removed time_t_dead then saved_lines ss else state_line s ∷ saved_lines ss

-- strtol stops at LONG_MIN and LONG_MAX
unfoldable pub to_long : ℤ → ℤ
to_long (pos n) = pos (min n (2 ^ 63 - 1))
to_long (negsuc n) = negsuc (min n (2 ^ 63 - 1))

unfoldable pub atol : Text → ℤ
unfolding to_long strtol number_of
atol s = to_long (number_of (strtol s))

-- what load() makes of the states, and its warnings
pub record MidInfoLoad : Type 0 where
  pub info : MidInfo
  pub warnings : ℕ

unfoldable pub load_tokens : ℕ → List Text → MidInfoLoad → MidInfoLoad
unfolding insert_full atol
load_tokens i (a ∷ b ∷ c ∷ []) r =
    if i == 3
    then record r { info = insert_full a (atol b) (atol c) r.info }
    else record r { warnings = suc r.warnings }
load_tokens i t r = record r { warnings = suc r.warnings }

unfoldable pub load_line : Text → MidInfoLoad → MidInfoLoad
unfolding load_tokens btoks
load_line l r = let (i, t, rest) = btoks 32 3 true l in load_tokens i t r

unfoldable pub load_lines : List Text → MidInfoLoad → MidInfoLoad
unfolding load_line
load_lines [] r = r
load_lines (l ∷ ls) r = load_lines ls (load_line l r)

unfoldable pub load_start : Bool → MidInfo → MidInfoLoad
unfolding clear
load_start merge m = record {
  info = if merge then m else record (clear m) { changed = false };
  warnings = 0;
}

-- load(): there are no lines where the path is empty or there is no such file
unfoldable pub load : Bool → Option (List Text) → MidInfo → MidInfoLoad
unfolding load_start load_lines
load merge none m = load_start merge m
load merge (some ls) m =
    let r = load_lines ls (load_start merge m) in
    if merge then r else record r { info = record r.info { changed = false } }

-- save(), where there is a path: the lines of the file, if they are written anew, and the states,
-- into which those of the file have been merged
unfoldable pub save : Option (List Text) → MidInfo → Option (List Text) × MidInfo
unfolding load saved_lines
save file m =
    let r = load true file m in
    if m.changed then (some (saved_lines r.info.states), r.info) else (file, m)

-- meta_mid_info: one for each group
abbrev pub MetaMidInfo : Type 0
MetaMidInfo = List (Text × MidInfo)

unfoldable pub meta_check : Text → MetaMidInfo → Bool
unfolding check
meta_check mid [] = false
meta_check mid ((g, m) ∷ ms) = check mid m || meta_check mid ms

unfoldable pub meta_remove : Text → MetaMidInfo → MetaMidInfo
unfolding remove
meta_remove mid [] = []
meta_remove mid ((g, m) ∷ ms) = (g, remove mid m) ∷ meta_remove mid ms

unfoldable pub meta_set_delete : Text → ℕ → MetaMidInfo → MetaMidInfo
unfolding set_delete
meta_set_delete mid now [] = []
meta_set_delete mid now ((g, m) ∷ ms) = (g, set_delete mid now m) ∷ meta_set_delete mid now ms

unfoldable pub meta_do_delete_fun : MidInfo → ℤ → MetaMidInfo → MetaMidInfo
unfolding do_delete_fun
meta_do_delete_fun rel now [] = []
meta_do_delete_fun rel now ((g, m) ∷ ms) =
    (g, do_delete_fun rel now m) ∷ meta_do_delete_fun rel now ms
