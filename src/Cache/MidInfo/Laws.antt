-- ===== src/Cache/MidInfo/Laws.antt =====
-- What the states of a c_mid_info say after each call.
use nget.Prelude.{
  ℤ, eqb_ℤ, ltb_ℤ, subst, sym, ◌≡◌, refl, ap, ◌∙◌, List, [], ◌∷◌, ◌&&◌, ◌||◌, not, Option, none,
  some, Text, eq_text, eq_text_refl, eq_text→eq, eq_text_comm, if◌then◌else◌, arith, Bool-cases,
  inl, inr,
}
use nget.Cache.MidInfo.{
  MessageState, MidInfo, find_state, erase_state, insert_full, insert_or_replace, replace_known,
  is_expired, time_t_dead, time_t_max1, check,
}

-- no two states have one message id
abbrev pub IsUnique : List MessageState → Type 0
IsUnique [] = Unit {0}
IsUnique (s ∷ ss) = (find_state s.messageid ss ≡ none) × IsUnique ss

find_state-key :
    (mid : Text) (ss : List MessageState) (s : MessageState)
    → find_state mid ss ≡ some s
    → s.messageid ≡ mid
unfolding find_state
find_state-key mid [] s e = cc
find_state-key mid (x ∷ ss) s e =
    ground (arith, eq_text→eq x.messageid mid, find_state-key mid ss s)

find_state-erase_state :
    (mid k : Text) (ss : List MessageState)
    → IsUnique ss
    → find_state k (erase_state mid ss) ≡ (if eq_text mid k then none else find_state k ss)
unfolding find_state erase_state
find_state-erase_state mid k [] v = ground arith
find_state-erase_state mid k (x ∷ ss) v = ground (
  arith,
  eq_text→eq x.messageid mid,
  eq_text→eq x.messageid k,
  eq_text→eq mid k,
  eq_text_refl k,
  find_state-erase_state mid k ss v.1,
)

erase_state-IsUnique :
    (mid : Text) (ss : List MessageState) → IsUnique ss → IsUnique (erase_state mid ss)
unfolding erase_state
erase_state-IsUnique mid [] v = tt
erase_state-IsUnique mid (x ∷ ss) v =
    ground (arith, find_state-erase_state mid x.messageid ss v.1, erase_state-IsUnique mid ss v.1)

-- the state that a merge of (a, d) into a known or unknown message leaves
unfoldable pub merged : Option MessageState → Text → ℤ → ℤ → MessageState
merged none mid a d = record { messageid = mid; date_added = a; date_removed = d }
merged (some s) mid a d =
    if not (eqb_ℤ s.date_removed time_t_max1) && (eqb_ℤ d time_t_max1 || ltb_ℤ d s.date_removed)
    then s
    else record { messageid = mid; date_added = a; date_removed = d }

insert_or_replace-IsUnique :
    (o : Option MessageState) (mid : Text) (a d : ℤ) (m : MidInfo)
    → find_state mid m.states ≡ o
    → IsUnique m.states
    → IsUnique (insert_or_replace o mid a d m).states
unfolding insert_or_replace
insert_or_replace-IsUnique none mid a d m e v = (e, v)
insert_or_replace-IsUnique (some s) mid a d m e v =
    unfold replace_known in
    ground (
      arith,
      find_state-erase_state mid mid m.states v,
      eq_text_refl mid,
      erase_state-IsUnique mid m.states v,
    )

pub insert_full-IsUnique :
    (mid : Text) (a d : ℤ) (m : MidInfo)
    → IsUnique m.states
    → IsUnique (insert_full mid a d m).states
unfolding insert_full
insert_full-IsUnique mid a d m v =
    insert_or_replace-IsUnique (find_state mid m.states) mid a d m refl v

find_state-insert_or_replace :
    (o : Option MessageState) (mid k : Text) (a d : ℤ) (m : MidInfo)
    → find_state mid m.states ≡ o
    → IsUnique m.states
    → find_state k (insert_or_replace o mid a d m).states
      ≡ (if eq_text mid k then some (merged o mid a d) else find_state k m.states)
unfolding insert_or_replace merged
find_state-insert_or_replace none mid k a d m e v = unfold find_state in refl
find_state-insert_or_replace (some s) mid k a d m e v = elim (Bool-cases (eq_text mid k)) [
  | inl same ↦ rw same (known (eq_text→eq mid k same))
  | inr other ↦
      rw other
        (unfold replace_known find_state in ground (arith, find_state-erase_state mid k m.states v))
]
  where
    known :
        mid ≡ k
        → find_state k (replace_known s mid a d m).states
          ≡ some (
              if not (eqb_ℤ s.date_removed time_t_max1)
                && (eqb_ℤ d time_t_max1 || ltb_ℤ d s.date_removed)
              then s
              else record { messageid = mid; date_added = a; date_removed = d })
    known g =
        unfold replace_known find_state in
        ground
          (arith, ap (λ t. find_state t m.states) g, eq_text_refl mid, ap (λ t. eq_text mid t) g)

-- After insert_full(mid, a, d), with no id twice, mid has the merged state: a known removal stays if
-- the new line has none or an earlier one, and else the new line stands. Every other id is as
-- before.
pub find_state-insert_full :
    (mid k : Text) (a d : ℤ) (m : MidInfo)
    → IsUnique m.states
    → find_state k (insert_full mid a d m).states ≡ (
        if eq_text mid k
        then some (merged (find_state mid m.states) mid a d)
        else find_state k m.states)
unfolding insert_full
find_state-insert_full mid k a d m v =
    find_state-insert_or_replace (find_state mid m.states) mid k a d m refl v

-- the states that a file keeps
unfoldable pub kept : List MessageState → List MessageState
kept [] = []
kept (s ∷ ss) = if eqb_ℤ s.date_removed time_t_dead then kept ss else s ∷ kept ss

unfoldable pub insert_states : List MessageState → MidInfo → MidInfo
unfolding insert_full
insert_states [] m = m
insert_states (s ∷ ss) m = insert_states ss (insert_full s.messageid s.date_added s.date_removed m)

-- the state that a file keeps
unfoldable pub alive : Option MessageState → Option MessageState
alive none = none
alive (some s) = if eqb_ℤ s.date_removed time_t_dead then none else some s

find_state-kept :
    (k : Text) (ss : List MessageState)
    → IsUnique ss
    → find_state k (kept ss) ≡ alive (find_state k ss)
unfolding find_state kept alive
find_state-kept k [] v = refl
find_state-kept k (s ∷ ss) v =
    ground (
      arith,
      find_state-kept k ss v.1,
      eq_text→eq s.messageid k,
      find_state-kept s.messageid ss v.1,
    )

kept-IsUnique : (ss : List MessageState) → IsUnique ss → IsUnique (kept ss)
unfolding kept alive
kept-IsUnique [] v = tt
kept-IsUnique (s ∷ ss) v = ground (arith, kept-IsUnique ss v.1, find_state-kept s.messageid ss v.1)

abbrev or_state : Option MessageState → Option MessageState → Option MessageState
or_state none t = t
or_state (some s) t = some s

-- none of the lines is of a known message
abbrev Fresh : List MessageState → List MessageState → Type 0
Fresh [] ms = Unit {0}
Fresh (s ∷ ss) ms = (find_state s.messageid ms ≡ none) × Fresh ss ms

Fresh-cons :
    (t : MessageState) (ss ms : List MessageState)
    → find_state t.messageid ss ≡ none
    → Fresh ss ms
    → Fresh ss (t ∷ ms)
unfolding find_state
Fresh-cons t [] ms e f = tt
Fresh-cons t (s ∷ ss) ms e f =
    (ground (arith, eq_text_comm t.messageid s.messageid), Fresh-cons t ss ms (ground arith) f.1)

insert_full-fresh :
    (s : MessageState) (m : MidInfo)
    → find_state s.messageid m.states ≡ none
    → insert_full s.messageid s.date_added s.date_removed m ≡ record m { states = s ∷ m.states }
unfolding insert_full insert_or_replace
insert_full-fresh s m e = ap (λ o. insert_or_replace o s.messageid s.date_added s.date_removed m) e

find_state-insert_states :
    (k : Text) (ss : List MessageState) (m : MidInfo)
    → IsUnique ss
    → Fresh ss m.states
    → find_state k (insert_states ss m).states ≡ or_state (find_state k ss) (find_state k m.states)
unfolding insert_states find_state
find_state-insert_states k [] m v f = refl
find_state-insert_states k (s ∷ ss) m v f =
    ap (λ n. find_state k (insert_states ss n).states) (insert_full-fresh s m f.0)
    ∙ find_state-insert_states k ss (record m { states = s ∷ m.states }) v.1
        (Fresh-cons s ss m.states v.0 f.1)
    ∙ ground (arith, eq_text→eq s.messageid k)

Fresh-nil : (ss : List MessageState) → Fresh ss []
unfolding find_state
Fresh-nil [] = tt
Fresh-nil (s ∷ ss) = (refl, Fresh-nil ss)

pub find_state-insert_states-kept :
    (k : Text) (ss : List MessageState) (m : MidInfo)
    → IsUnique ss
    → m.states ≡ []
    → find_state k (insert_states (kept ss) m).states ≡ alive (find_state k ss)
find_state-insert_states-kept k ss m v e =
    find_state-insert_states k (kept ss) m (kept-IsUnique ss v)
      (subst (Fresh (kept ss)) (sym e) (Fresh-nil (kept ss)))
    ∙ ap (λ xs. or_state (find_state k (kept ss)) (find_state k xs)) e
    ∙ or_state-none (find_state k (kept ss))
    ∙ find_state-kept k ss v
  where
    or_state-none : (o : Option MessageState) → or_state o (find_state k []) ≡ o
    or_state-none none = unfold find_state in refl
    or_state-none (some s) = refl

-- how do_delete_fun leaves the state that a message had
unfoldable pub after_delete : MidInfo → ℤ → Option MessageState → Option MessageState
after_delete rel now none = none
after_delete rel now (some s) =
    if not (check s.messageid rel) && is_expired now s
    then some (record s { date_removed = time_t_dead })
    else some s
