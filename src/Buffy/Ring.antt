-- ===== src/Buffy/Ring.antt =====
-- c_buffy's ring of bytes: buffy.h, and the sources that fill it. `& buffy_bufmask` is the remainder
-- by the size of the ring, for numbers that are not negative.
use nget.Prelude.{
  ℕ, suc, ◌+◌, ◌-◌, ◌%◌, ◌≤◌, ◌<◌, ◌≡◌, [], ◌∷◌, ◌++◌, Bool, true, false, not, leb, ◌==◌,
  if◌then◌else◌, Option, some, none, Text, length, get_or, set,
}

-- bfill is of the classes that inherit from c_buffy: it gives some of the bytes that are to come,
-- no more than there is room for, and none only at their end
pub record Source : Type 1 where
  pub State : Type 0
  pub bfill : State → ℕ → Text × State
  pub to_come : State → Text
  pub fits : (q : State) (l : ℕ) → length (bfill q l).0 ≤ l
  pub in_order : (q : State) (l : ℕ) → to_come q ≡ (bfill q l).0 ++ to_come (bfill q l).1
  pub ends : (q : State) (l : ℕ) → 0 < l → (bfill q l).0 ≡ [] → to_come q ≡ []

abbrev pub buffy_bufsize : ℕ
buffy_bufsize = 2048

pub record Ring : Type 0 where
  pub bhead : ℕ
  pub btail : ℕ
  pub buf : Text

unfoldable pub clearbuf : Ring → Ring
clearbuf b = record b { bhead = 0; btail = 0 }

unfoldable pub buftailfree : Ring → ℕ
buftailfree b =
    if leb b.bhead b.btail
    then buffy_bufsize - b.btail - (if b.bhead == 0 then 1 else 0)
    else b.bhead - b.btail - 1

unfoldable pub inchead : ℕ → Ring → Ring
inchead i b = record b { bhead = (b.bhead + i) % buffy_bufsize }

unfoldable pub inctail : ℕ → Ring → Ring
inctail i b = record b { btail = (b.btail + i) % buffy_bufsize }

-- what bfill writes from a place on
unfoldable pub write_from : ℕ → Text → Text → Text
write_from at [] buf = buf
write_from at (c ∷ cs) buf = write_from (suc at) cs (set buf at c)

unfoldable pub is_none : Text → Bool
is_none [] = true
is_none (c ∷ cs) = false

module _ (source : Source) where
  unfoldable pub filled : Text × source.State → Ring → Bool × Ring × source.State
  unfolding write_from inctail is_none
  filled (chunk, q) b =
      if is_none chunk
      then (false, b, q)
      else (true, inctail (length chunk) (record b { buf = write_from b.btail chunk b.buf }), q)

  -- dofill: whether it got a byte
  unfoldable pub dofill : Ring → source.State → Bool × Ring × source.State
  unfolding filled buftailfree
  dofill b q = filled (source.bfill q (buftailfree b)) b

  -- the test that beof, bpeek and bget begin with: whether there is a byte in the ring
  unfoldable pub ready : Ring → source.State → Bool × Ring × source.State
  unfolding dofill
  ready b q = if b.bhead == b.btail then dofill b q else (true, b, q)

  unfoldable pub ring_eof : Ring → source.State → Bool × Ring × source.State
  unfolding ready
  ring_eof b q = let (got, b', q') = ready b q in (not got, b', q')

  unfoldable pub peek_byte : Bool × Ring × source.State → Option ℕ × Ring × source.State
  peek_byte (true, b, q) = (some (get_or b.buf b.bhead 0), b, q)
  peek_byte (false, b, q) = (none, b, q)

  unfoldable pub ring_peek : Ring → source.State → Option ℕ × Ring × source.State
  unfolding ready peek_byte
  ring_peek b q = peek_byte (ready b q)

  unfoldable pub take_byte : Bool × Ring × source.State → Option ℕ × Ring × source.State
  unfolding inchead
  take_byte (true, b, q) = (some (get_or b.buf b.bhead 0), inchead 1 b, q)
  take_byte (false, b, q) = (none, b, q)

  unfoldable pub ring_get : Ring → source.State → Option ℕ × Ring × source.State
  unfolding ready take_byte
  ring_get b q = take_byte (ready b q)
