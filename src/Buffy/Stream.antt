-- ===== src/Buffy/Stream.antt =====
-- The ring and its source are a stream of bytes.
use nget.Prelude.{
  ℕ, zero, suc, ◌+◌, ◌-◌, ◌%◌, ◌≤◌, ◌<◌, ◌≡◌, refl, ap, sym, ◌∙◌, [], ◌∷◌, ◌++◌, Bool, true, false,
  inl, inr, Bool-cases, ◌==◌, Option, some, none, Text, length, get_or, set, length-set, arith,
}
use nget.Buffy.Ring.{
  Source, buffy_bufsize, Ring, buftailfree, inchead, inctail, write_from, is_none, filled, dofill,
  ready, peek_byte, take_byte, ring_peek, ring_get,
}

-- the bytes in the ring, from a place on
unfoldable pub bytes_from : Text → ℕ → ℕ → Text
bytes_from buf h zero = []
bytes_from buf h (suc n) = get_or buf h 0 ∷ bytes_from buf ((h + 1) % buffy_bufsize) n

abbrev pub held : Ring → ℕ
held b = (b.btail + buffy_bufsize - b.bhead) % buffy_bufsize

-- head and tail are places in the ring
unfoldable pub IsRing : Ring → Type 0
IsRing b = (b.bhead < buffy_bufsize) × (b.btail < buffy_bufsize) × (length b.buf ≡ buffy_bufsize)

cons_equal : {c d : ℕ} {cs ds : Text} → c ≡ d → cs ≡ ds → c ∷ cs ≡ d ∷ ds
cons_equal h g = λ i. h i ∷ g i

get_or-set_self : (xs : Text) (i v : ℕ) → i < length xs → get_or (set xs i v) i 0 ≡ v
get_or-set_self [] i v h = absurd (omega arith)
get_or-set_self (x ∷ xs) zero v h = refl
get_or-set_self (x ∷ xs) (suc i) v h = get_or-set_self xs i v (omega arith)

get_or-set_ne : (xs : Text) (i j v : ℕ) → i < j → get_or (set xs j v) i 0 ≡ get_or xs i 0
get_or-set_ne [] i j v h = refl
get_or-set_ne (x ∷ xs) i zero v h = absurd (omega arith)
get_or-set_ne (x ∷ xs) zero (suc j) v h = refl
get_or-set_ne (x ∷ xs) (suc i) (suc j) v h = get_or-set_ne xs i j v (omega arith)

length-write_from : (at : ℕ) (cs buf : Text) → length (write_from at cs buf) ≡ length buf
unfolding write_from
length-write_from at [] buf = refl
length-write_from at (c ∷ cs) buf =
    length-write_from (suc at) cs (set buf at c) ∙ length-set buf at c

get_or-write_from :
    (at i : ℕ) (cs buf : Text) → i < at → get_or (write_from at cs buf) i 0 ≡ get_or buf i 0
unfolding write_from
get_or-write_from at i [] buf h = refl
get_or-write_from at i (c ∷ cs) buf h =
    get_or-write_from (suc at) i cs (set buf at c) (omega arith) ∙ get_or-set_ne buf i at c h

-- what is written without a wrap is read again
bytes_from-write_from :
    (at : ℕ) (cs buf : Text)
    → at + length cs ≤ buffy_bufsize
    → length buf ≡ buffy_bufsize
    → bytes_from (write_from at cs buf) at (length cs) ≡ cs
unfolding bytes_from write_from
bytes_from-write_from at [] buf h full = refl
bytes_from-write_from at (c ∷ []) buf h full =
    ap (λ x. x ∷ []) (get_or-set_self buf at c (omega (arith, full)))
bytes_from-write_from at (c ∷ d ∷ cs) buf h full =
    cons_equal
      (get_or-write_from (suc at) at (d ∷ cs) (set buf at c) (omega arith)
        ∙ get_or-set_self buf at c (omega (arith, full)))
      (ap (λ k. bytes_from (write_from (suc at) (d ∷ cs) (set buf at c)) k (length (d ∷ cs))) next
        ∙ bytes_from-write_from (suc at) (d ∷ cs) (set buf at c) (omega (arith, h))
            (length-set buf at c ∙ full))
  where
    next : (at + 1) % buffy_bufsize ≡ suc at
    next = omega (arith, h)

-- the bytes that are still to be read: in the ring, and behind it
module _ (source : Source) where
  unfoldable pub view : Ring → source.State → Text
  unfolding bytes_from
  view b q = bytes_from b.buf b.bhead (held b) ++ source.to_come q

-- into an empty ring, bfill can write at least a byte, without a wrap, and never all of the ring
module _ (b : Ring) (ring : IsRing b) (empty : b.bhead ≡ b.btail) where
  room :
      (0 < buftailfree b)
      × (b.btail + buftailfree b ≤ buffy_bufsize)
      × (buftailfree b < buffy_bufsize)
  unfolding buftailfree IsRing
  room =
      (ground (arith, empty, ring.1), ground (arith, empty, ring.1), ground (arith, empty, ring.1))

  unfoldable written : Text → Ring
  written chunk = inctail (length chunk) (record b { buf = write_from b.btail chunk b.buf })

  written-IsRing : (chunk : Text) → IsRing (written chunk)
  unfolding written IsRing inctail
  written-IsRing chunk = (ring.0, omega arith, length-write_from b.btail chunk b.buf ∙ ring.2)

  held-written : (chunk : Text) → length chunk ≤ buftailfree b → held (written chunk) ≡ length chunk
  unfolding written inctail IsRing
  held-written chunk h = omega (arith, empty, h, room.1, room.2, ring.0)

  bytes_from-written :
      (chunk : Text)
      → length chunk ≤ buftailfree b
      → bytes_from (written chunk).buf (written chunk).bhead (held (written chunk)) ≡ chunk
  unfolding written inctail IsRing
  bytes_from-written chunk h =
      ap (bytes_from (written chunk).buf (written chunk).bhead) (held-written chunk h)
      ∙ ap (λ k. bytes_from (write_from b.btail chunk b.buf) k (length chunk)) empty
      ∙ bytes_from-write_from b.btail chunk b.buf (omega (arith, h, room.1)) ring.2

-- a ring that is ready to be read: it holds a byte, or there is none to come
data IsReady (source : Source) (before : Text) : Bool × Ring × source.State → Type 0 where
  a_byte :
      (b : Ring) (q : source.State) (n : ℕ)
      → IsRing b
      → held b ≡ suc n
      → view source b q ≡ before
      → IsReady source before (true, b, q)
  the_end :
      (b : Ring) (q : source.State)
      → IsRing b
      → view source b q ≡ before
      → before ≡ []
      → IsReady source before (false, b, q)

held_empty : (b : Ring) → b.bhead ≡ b.btail → held b ≡ 0
held_empty b h = omega (arith, h)

module _ (source : Source) where
  view_empty :
      (b : Ring) (q : source.State) → b.bhead ≡ b.btail → view source b q ≡ source.to_come q
  unfolding view bytes_from
  view_empty b q h = ap (λ n. bytes_from b.buf b.bhead n ++ source.to_come q) (held_empty b h)

  filled-IsReady :
      (b : Ring) (q q' : source.State) (chunk : Text)
      → IsRing b
      → b.bhead ≡ b.btail
      → length chunk ≤ buftailfree b
      → source.to_come q ≡ chunk ++ source.to_come q'
      → (chunk ≡ [] → source.to_come q ≡ [])
      → IsReady source (view source b q) (filled source (chunk, q') b)
  unfolding filled is_none view bytes_from written
  filled-IsReady b q q' [] ring empty fits in_order ends =
      the_end b q' ring (view_empty b q' empty ∙ sym in_order ∙ sym (view_empty b q empty))
        (view_empty b q empty ∙ ends refl)
  filled-IsReady b q q' (c ∷ cs) ring empty fits in_order ends =
      a_byte (written b ring empty (c ∷ cs)) q' (length cs) (written-IsRing b ring empty (c ∷ cs))
        (held-written b ring empty (c ∷ cs) fits)
        (ap (λ bs. bs ++ source.to_come q') (bytes_from-written b ring empty (c ∷ cs) fits)
          ∙ sym in_order
          ∙ sym (view_empty b q empty))

  dofill-IsReady :
      (b : Ring) (q : source.State)
      → IsRing b
      → b.bhead ≡ b.btail
      → IsReady source (view source b q) (dofill source b q)
  unfolding dofill
  dofill-IsReady b q ring empty =
      filled-IsReady b q (source.bfill q (buftailfree b)).1 (source.bfill q (buftailfree b)).0 ring
        empty (source.fits q (buftailfree b)) (source.in_order q (buftailfree b))
        (source.ends q (buftailfree b) (room b ring empty).0)

  held_some : (b : Ring) → IsRing b → (b.bhead == b.btail) ≡ false → held b ≡ suc (held b - 1)
  unfolding IsRing
  held_some b ring e = ground (arith, e, ring.0, ring.1)

  ready-IsReady :
      (b : Ring) (q : source.State) → IsRing b → IsReady source (view source b q) (ready source b q)
  unfolding ready
  ready-IsReady b q ring = elim (Bool-cases (b.bhead == b.btail)) [
    | inl e ↦ rw e (dofill-IsReady b q ring (ground (arith, e)))
    | inr e ↦ rw e (a_byte b q (held b - 1) ring (held_some b ring e) refl)
  ]

-- what a stream of bytes gives
unfoldable pub next_byte : Text → Option ℕ × Text
next_byte [] = (none, [])
next_byte (c ∷ cs) = (some c, cs)

-- what an operation gives, and the stream behind it
unfoldable pub seen : (source : Source) → Option ℕ × Ring × source.State → Option ℕ × Text
unfolding view
seen source (o, b, q) = (o, view source b q)

held-inchead : (b : Ring) (n : ℕ) → IsRing b → held b ≡ suc n → held (inchead 1 b) ≡ n
unfolding inchead IsRing
held-inchead b n ring h = omega (arith, h, ring.0, ring.1)

module _ (source : Source) where
  view-inchead :
      (b : Ring) (q : source.State) (n : ℕ)
      → IsRing b
      → held b ≡ suc n
      → view source b q ≡ get_or b.buf b.bhead 0 ∷ view source (inchead 1 b) q
  unfolding view bytes_from inchead
  view-inchead b q n ring h =
      ap (λ k. bytes_from b.buf b.bhead k ++ source.to_come q) h
      ∙ ap
          (λ k.
            get_or b.buf b.bhead 0
            ∷ (bytes_from b.buf ((b.bhead + 1) % buffy_bufsize) k ++ source.to_come q))
          (sym (held-inchead b n ring h))

  take_byte-next_byte :
      (before : Text) (t : Bool × Ring × source.State)
      → IsReady source before t
      → IsRing (take_byte source t).1 × (seen source (take_byte source t) ≡ next_byte before)
  unfolding take_byte seen next_byte inchead IsRing
  take_byte-next_byte before t (a_byte b q n ring h same) =
      ((omega arith, ring.1, ring.2), sym (ap next_byte (sym same ∙ view-inchead b q n ring h)))
  take_byte-next_byte before t (the_end b q ring same ends) =
      (ring, ap (λ s. (none, s)) (same ∙ ends) ∙ sym (ap next_byte ends))

-- The ring of bytes with its source refines the stream of the bytes that it holds and that are
-- still to come: from a ring whose head and tail are places in it, bget gives the first byte of
-- the stream and leaves the others, or nothing where there is none, and head and tail are places
-- in the ring again. (The source gives bytes in order, as many as there is room for at most, and
-- none only at the end.)
pub ring_get-next_byte :
    (source : Source) (b : Ring) (q : source.State)
    → IsRing b
    → IsRing (ring_get source b q).1
      × (seen source (ring_get source b q) ≡ next_byte (view source b q))
unfolding ring_get
ring_get-next_byte source b q ring =
    take_byte-next_byte source (view source b q) (ready source b q) (ready-IsReady source b q ring)

module _ (source : Source) where
  peek_byte-next_byte :
      (before : Text) (t : Bool × Ring × source.State)
      → IsReady source before t
      → IsRing (peek_byte source t).1
        × (seen source (peek_byte source t) ≡ ((next_byte before).0, before))
  unfolding peek_byte seen next_byte
  peek_byte-next_byte before t (a_byte b q n ring h same) = (
    ring,
    ap (λ s. (some (get_or b.buf b.bhead 0), s)) same
        ∙ sym (ap (λ s. ((next_byte s).0, before)) (sym same ∙ view-inchead source b q n ring h)),
  )
  peek_byte-next_byte before t (the_end b q ring same ends) =
      (ring, ap (λ s. (none, s)) same ∙ sym (ap (λ s. ((next_byte s).0, before)) ends))

-- bpeek gives the first byte of the stream, or nothing where there is none, and leaves the stream
-- as it is.
pub ring_peek-next_byte :
    (source : Source) (b : Ring) (q : source.State)
    → IsRing b
    → IsRing (ring_peek source b q).1
      × (seen source (ring_peek source b q) ≡ ((next_byte (view source b q)).0, view source b q))
unfolding ring_peek
ring_peek-next_byte source b q ring =
    peek_byte-next_byte source (view source b q) (ready source b q) (ready-IsReady source b q ring)
