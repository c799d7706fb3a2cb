-- ===== src/Buffy/CharBuffer.antt =====
-- buffy.h: CharBuffer, which grows by doubling. The cells are the memory behind cbuf; a write behind
-- them has no result. realloc finds memory, and the size of it does not overflow.
use nget.Prelude.{
  lt→ltb, ℕ, zero, suc, ◌+◌, ◌-◌, ◌*◌, ◌≤◌, ◌<◌, ◌≡◌, refl, ap, sym, ◌∙◌, [], ◌∷◌, ◌++◌, true, inl,
  inr, Bool-cases, ltb, leb, if◌then◌else◌, Option, some, none, Text, length, length-append, take,
  set, length-set, replicate, length-replicate, arith,
}

pub record CharBuf : Type 0 where
  pub bsize : ℕ
  pub reserved : ℕ
  pub cells : Text

unfoldable pub reserve : ℕ → CharBuf → CharBuf
reserve s b =
    if ltb b.reserved s
    then record b { reserved = s; cells = b.cells ++ replicate (s - b.reserved) 0 }
    else b

unfoldable pub clear_buf : CharBuf → CharBuf
clear_buf b = record b { bsize = 0 }

-- cbuf[i] = c
unfoldable pub write : ℕ → ℕ → CharBuf → Option CharBuf
write i c b = if ltb i (length b.cells) then some (record b { cells = set b.cells i c }) else none

unfoldable pub grow : CharBuf → CharBuf
unfolding reserve
grow b = if leb b.reserved b.bsize then reserve (b.reserved * 2) b else b

unfoldable pub c_str : CharBuf → Option CharBuf
unfolding grow write
c_str b = write b.bsize 0 (grow b)

unfoldable pub longer : Option CharBuf → Option CharBuf
longer none = none
longer (some b) = some (record b { bsize = suc b.bsize })

unfoldable pub append : ℕ → CharBuf → Option CharBuf
unfolding grow write longer
append c b = longer (write b.bsize c (grow b))

unfoldable pub new_char_buffer : ℕ → CharBuf
unfolding reserve
new_char_buffer initialreserve =
    reserve initialreserve (record { bsize = 0; reserved = 0; cells = [] })

-- the bytes that were appended
unfoldable pub contents : CharBuf → Text
contents b = take b.bsize b.cells

-- there is memory, as much as is said, and as much as is used at least
pub record IsCharBuf (b : CharBuf) : Type 0 where
  pub some_memory : 0 < b.reserved
  pub all_memory : length b.cells ≡ b.reserved
  pub in_memory : b.bsize ≤ b.reserved

take-append : (n : ℕ) (xs ys : Text) → n ≤ length xs → take n (xs ++ ys) ≡ take n xs
take-append zero xs ys h = refl
take-append (suc n) [] ys h = absurd (omega arith)
take-append (suc n) (x ∷ xs) ys h = ap (λ zs. x ∷ zs) (take-append n xs ys (omega arith))

take-set_same : (n : ℕ) (xs : Text) (c : ℕ) → take n (set xs n c) ≡ take n xs
take-set_same zero xs c = refl
take-set_same (suc n) [] c = refl
take-set_same (suc n) (x ∷ xs) c = ap (λ zs. x ∷ zs) (take-set_same n xs c)

-- a buffer that holds the same bytes, with room for one more
record IsRoom (b b' : CharBuf) : Type 0 where
  valid : IsCharBuf b'
  same_size : b'.bsize ≡ b.bsize
  room : b.bsize < length b'.cells
  same : contents b' ≡ contents b

length-grown : (xs : Text) (n : ℕ) → length (xs ++ replicate n 0) ≡ length xs + n
length-grown xs n =
    length-append xs (replicate n 0) ∙ ap (λ k. length xs + k) (length-replicate n 0)

grow-IsRoom : (b : CharBuf) → IsCharBuf b → IsRoom b (grow b)
unfolding grow reserve contents
grow-IsRoom b v = elim (Bool-cases (leb b.reserved b.bsize)) [
  | inl e ↦
      rw (e, grows)
        (record {
          valid = record {
            some_memory = omega (arith, v.some_memory);
            all_memory = grown ∙ omega (arith, v.all_memory);
            in_memory = omega (arith, v.in_memory);
          };
          same_size = refl;
          room = omega (arith, grown, v.all_memory, v.in_memory, v.some_memory);
          same =
              take-append b.bsize b.cells (replicate (b.reserved * 2 - b.reserved) 0)
                (omega (arith, v.all_memory, v.in_memory));
        })
  | inr e ↦
      rw e (record {
        valid = v;
        same_size = refl;
        room = ground (arith, e, v.all_memory);
        same = refl;
      })
]
  where
    grows : ltb b.reserved (b.reserved * 2) ≡ true
    grows = ground (arith, v.some_memory)

    grown :
        length (b.cells ++ replicate (b.reserved * 2 - b.reserved) 0)
        ≡ length b.cells + (b.reserved * 2 - b.reserved)
    grown = length-grown b.cells (b.reserved * 2 - b.reserved)

module _ (c : ℕ) (b b' : CharBuf) (r : IsRoom b b') where
  abbrev appended : CharBuf
  appended = record b' { bsize = suc b'.bsize; cells = set b'.cells b.bsize c }

  write_in : write b.bsize c b' ≡ some (record b' { cells = set b'.cells b.bsize c })
  unfolding write
  write_in = rw (lt→ltb b.bsize (length b'.cells) r.room) refl

-- c_str writes the 0 behind the bytes within the memory, and leaves the bytes as they are.
pub c_str-IsCharBuf :
    (b : CharBuf)
    → IsCharBuf b
    → (b' : CharBuf) × (c_str b ≡ some b') × IsCharBuf b' × (contents b' ≡ contents b)
unfolding c_str contents
c_str-IsCharBuf b v = (
  record (grow b) { cells = set (grow b).cells b.bsize 0 },
  write_in 0 b (grow b) roomy,
  record {
    some_memory = roomy.valid.some_memory;
    all_memory = length-set (grow b).cells b.bsize 0 ∙ roomy.valid.all_memory;
    in_memory = roomy.valid.in_memory;
  },
  ap (λ n. take n (set (grow b).cells b.bsize 0)) roomy.same_size
      ∙ take-set_same b.bsize (grow b).cells 0
      ∙ ap (λ n. take n (grow b).cells) (sym roomy.same_size)
      ∙ roomy.same,
)
  where
    roomy : IsRoom b (grow b)
    roomy = grow-IsRoom b v

pub new_char_buffer-IsCharBuf :
    (initialreserve : ℕ) → 0 < initialreserve → IsCharBuf (new_char_buffer initialreserve)
unfolding new_char_buffer reserve
new_char_buffer-IsCharBuf initialreserve h = rw (lt→ltb 0 initialreserve h) (record {
  some_memory = h;
  all_memory = length-grown [] (initialreserve - 0) ∙ omega arith;
  in_memory = omega arith;
})
