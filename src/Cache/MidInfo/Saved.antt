-- ===== src/Cache/MidInfo/Saved.antt =====
-- What load() reads of the lines that save() writes.
use nget.Prelude.{
  none, if◌then◌else◌, ◌^◌, ◌<◌, ◌≡◌, refl, ap, sym, ◌∙◌, ℤ, pos, negsuc, eqb_ℤ, List, [], ◌∷◌,
  Bool, true, false, some, Text, append_nil, arith, suc,
}
use nget.Decimal.{print_int, print_ulong, atoi}
use nget.Decimal.RoundTrip.{AllDigits, print_ulong-AllDigits, atoi-print_int}
use nget.Buffy.{btoks}
use nget.Buffy.Tokens.{IsField, is_end, btoks-joined_fields}
use nget.Cache.MidInfo.{
  MessageState, MidInfo, find_state, time_t_dead, insert_full, state_line, saved_lines, save,
  to_long, atol, MidInfoLoad, load_tokens, load_line, load_lines, load_start, load, clear,
}
use nget.Cache.MidInfo.Laws.{IsUnique, alive, kept, insert_states, find_state-insert_states-kept}

AllDigits-IsField : (s : Text) → AllDigits s → IsField 32 s
AllDigits-IsField [] v = tt
AllDigits-IsField (c ∷ cs) v = (ground arith, ground arith, ground arith, AllDigits-IsField cs v.2)

print_int-IsField : (n : ℤ) → IsField 32 (print_int n)
unfolding print_int
print_int-IsField (pos n) = AllDigits-IsField (print_ulong n) (print_ulong-AllDigits n)
print_int-IsField (negsuc n) = (
  ground arith,
  ground arith,
  ground arith,
  AllDigits-IsField (print_ulong (suc n)) (print_ulong-AllDigits (suc n)),
)

-- a time_t
abbrev pub IsLong : ℤ → Type 0
IsLong (pos n) = n < 2 ^ 63
IsLong (negsuc n) = n < 2 ^ 63

-- ids without spaces and ends of lines
abbrev pub AllStates : List MessageState → Type 0
AllStates [] = Unit {0}
AllStates (s ∷ ss) =
    IsField 32 s.messageid × IsLong s.date_added × IsLong s.date_removed × AllStates ss

to_long-IsLong : (n : ℤ) → IsLong n → to_long n ≡ n
unfolding to_long
to_long-IsLong (pos n) h = ap pos (omega arith)
to_long-IsLong (negsuc n) h = ap negsuc (omega arith)

atol-print_int : (n : ℤ) → IsLong n → atol (print_int n) ≡ n
unfolding atol atoi
atol-print_int n h = ap to_long (atoi-print_int n) ∙ to_long-IsLong n h

load_line-state_line :
    (s : MessageState) (r : MidInfoLoad)
    → IsField 32 s.messageid
    → IsLong s.date_added
    → IsLong s.date_removed
    → load_line (state_line s) r
      ≡ record r { info = insert_full s.messageid s.date_added s.date_removed r.info }
unfolding load_line state_line load_tokens
load_line-state_line s r f a d =
    ap (λ x. load_tokens x.0 x.1 r)
      (ap (btoks 32 3 true) (sym (append_nil (state_line s)))
        ∙ btoks-joined_fields 32 3 s.messageid
            (print_int s.date_added ∷ print_int s.date_removed ∷ []) [] (omega arith)
            (f, (print_int-IsField s.date_added, (print_int-IsField s.date_removed, tt)))
            (omega arith) (unfold is_end in refl))
    ∙ rw (atol-print_int s.date_added a, atol-print_int s.date_removed d) refl

load_lines-saved_lines :
    (ss : List MessageState) (r : MidInfoLoad)
    → AllStates ss
    → load_lines (saved_lines ss) r ≡ record r { info = insert_states (kept ss) r.info }
unfolding load_lines saved_lines kept insert_states
load_lines-saved_lines [] r v = refl
load_lines-saved_lines (s ∷ ss) r v =
    either (eqb_ℤ s.date_removed time_t_dead) (λ r'. load_lines-saved_lines ss r' v.3)
  where
    either :
        (b : Bool)
        → ((r' : MidInfoLoad)
            → load_lines (saved_lines ss) r' ≡ record r' { info = insert_states (kept ss) r'.info })
        → load_lines (if b then saved_lines ss else state_line s ∷ saved_lines ss) r
          ≡ record r { info = insert_states (if b then kept ss else s ∷ kept ss) r.info }
    either true more = more r
    either false more =
        ap (load_lines (saved_lines ss)) (load_line-state_line s r v.0 v.1 v.2) ∙ more _

states-clear :
    (b : Bool) (ss : List MessageState) → (clear (record { changed = b; states = ss })).states ≡ []
unfolding clear
states-clear b [] = refl
states-clear b (s ∷ ss) = refl

states-load_start : (m : MidInfo) → (load_start false m).info.states ≡ []
unfolding load_start
states-load_start m = states-clear m.changed m.states

load-saved_lines :
    (k : Text) (ss : List MessageState) (m : MidInfo)
    → IsUnique ss
    → AllStates ss
    → ((load false (some (saved_lines ss)) m).warnings ≡ 0)
      × (find_state k (load false (some (saved_lines ss)) m).info.states ≡ alive (find_state k ss))
unfolding load
load-saved_lines k ss m v w = rw (load_lines-saved_lines ss (load_start false m) w) (
  unfold load_start in refl,
  find_state-insert_states-kept k ss (load_start false m).info v (states-load_start m),
)

save-none : (n : MidInfo) → n.changed ≡ true → save none n ≡ (some (saved_lines n.states), n)
unfolding save load load_start
save-none n e = ap (λ b. if b then (some (saved_lines n.states), n) else (none, n)) e

-- Where a set has changed and there is no file of it yet, no id is in it twice, none has a space or
-- an end of a line in it, and the dates have 64 bits, load() of the file that save() writes finds no
-- line that is not valid, and a message looked up afterwards has the state that it had in the set,
-- unless that was dead: then it is unknown.
pub load-save :
    (k : Text) (n m : MidInfo)
    → n.changed ≡ true
    → IsUnique n.states
    → AllStates n.states
    → ((load false (save none n).0 m).warnings ≡ 0)
      × (find_state k (load false (save none n).0 m).info.states ≡ alive (find_state k n.states))
load-save k n m e v w = rw (save-none n e) (load-saved_lines k n.states m v w)
