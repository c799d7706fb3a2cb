-- ===== src/Buffy/Tests.antt =====
-- Runs of the tokens, and their theorem at a concrete line.
use nget.Prelude.{
  ℕ, zero, suc, ◌<◌, ◌≡◌, refl, sym, [], ◌∷◌, true, Text, arith, take, drop, length-take,
  take-append-drop, replicate, length-replicate,
}
use nget.Buffy.Ring.{Source, Ring, ring_get}
use nget.Buffy.Stream.{IsRing, view, next_byte, seen, ring_get-next_byte}
use nget.Buffy.{bgets, btoks}
use nget.Buffy.Tokens.{joined_fields, is_end, btoks-joined_fields}

btoks-joined_fields_example :
    btoks 9 2 true (97 ∷ 98 ∷ 9 ∷ 99 ∷ 10 ∷ 100 ∷ [])
    ≡ (2, (97 ∷ 98 ∷ []) ∷ (99 ∷ []) ∷ [], 100 ∷ [])
unfolding joined_fields is_end
btoks-joined_fields_example =
    btoks-joined_fields 9 2 (97 ∷ 98 ∷ []) ((99 ∷ []) ∷ []) (10 ∷ 100 ∷ []) (ground arith)
      (ground arith) (omega arith) refl

-- a third token, counted but not kept
btoks_full : btoks 9 2 true (97 ∷ 9 ∷ 98 ∷ 9 ∷ 99 ∷ 10 ∷ []) ≡ (3, (97 ∷ []) ∷ (98 ∷ []) ∷ [], [])
unfolding btoks
btoks_full = refl

bgets_line : bgets (97 ∷ 13 ∷ 10 ∷ 98 ∷ []) ≡ (3, 97 ∷ [], 98 ∷ [])
unfolding bgets
bgets_line = refl

-- a source that gives all that there is room for
none_left : (q : Text) (l : ℕ) → 0 < l → take l q ≡ [] → q ≡ []
none_left [] l h e = refl
none_left (c ∷ cs) zero h e = absurd (omega arith)
none_left (c ∷ cs) (suc l) h e = absurd (ground (arith, e))

abbrev text_source : Source
text_source = record {
  State = Text;
  bfill = λ q l. (take l q, drop l q);
  to_come = λ q. q;
  fits = λ q l. omega (arith, length-take l q);
  in_order = λ q l. sym (take-append-drop l q);
  ends = none_left;
}

-- an empty ring, with head and tail at its last place
abbrev full_turn : Ring
full_turn = record { bhead = 2047; btail = 2047; buf = replicate 2048 0 }

full_turn-IsRing : IsRing full_turn
unfolding IsRing
full_turn-IsRing = (omega arith, omega arith, length-replicate {A = ℕ} 2048 0)

ring_get-next_byte_example :
    IsRing (ring_get text_source full_turn (97 ∷ 98 ∷ [])).1
    × (seen text_source (ring_get text_source full_turn (97 ∷ 98 ∷ []))
        ≡ next_byte (view text_source full_turn (97 ∷ 98 ∷ [])))
ring_get-next_byte_example =
    ring_get-next_byte text_source full_turn (97 ∷ 98 ∷ []) full_turn-IsRing
