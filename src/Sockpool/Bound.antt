-- ===== src/Sockpool/Bound.antt =====
-- The number of the connections, and that no server has two.
use nget.Prelude.{
  ℕ, suc, ◌≤◌, ◌<◌, ◌≡◌, ◌≢◌, ◌⊎◌, refl, ℤ, List, [], ◌∷◌, Bool, true, false, ◌==◌, if◌then◌else◌,
  Option, some, none, arith, length, Bool-cases, Option-cases, inl, inr,
}
use nget.Sockpool.{
  Connection, insert_connection, remove_connection, Erased, close_throws, closed, connection_erase,
  put_connection, oldest_from, erase_oldest, expire_old_connection,
}

-- the servers are in order, and all are above n
abbrev pub Above : ℕ → List Connection → Type 0
Above n [] = Unit {0}
Above n (c ∷ cs) = (n < c.server) × Above c.server cs

-- no server has two connections
abbrev pub InOrder : List Connection → Type 0
InOrder [] = Unit {0}
InOrder (c ∷ cs) = Above c.server cs

pub Above-weaken : (m n : ℕ) (cs : List Connection) → m ≤ n → Above n cs → Above m cs
Above-weaken m n [] h v = tt
Above-weaken m n (c ∷ cs) h v = (omega arith, v.1)

Above-same : (m n : ℕ) (cs : List Connection) → m ≡ n → Above m cs → Above n cs
Above-same m n [] h v = tt
Above-same m n (c ∷ cs) h v = (omega arith, v.1)

pub Above-InOrder : (n : ℕ) (cs : List Connection) → Above n cs → InOrder cs
Above-InOrder n [] v = tt
Above-InOrder n (c ∷ cs) v = v.1

Above-insert :
    (n : ℕ) (c : Connection) (cs : List Connection)
    → n < c.server
    → Above n cs
    → Above n (insert_connection c cs)
unfolding insert_connection
Above-insert n c [] h v = (h, tt)
Above-insert n c (d ∷ ds) h v = ground (arith, Above-insert d.server c ds)

Above-erase : (n sid : ℕ) (cs : List Connection) → Above n cs → Above n (remove_connection sid cs)
unfolding remove_connection
Above-erase n sid [] v = tt
Above-erase n sid (c ∷ cs) v =
    ground (arith, Above-erase c.server sid cs v.1, Above-weaken n c.server cs (omega arith) v.1)

Above-put :
    (n : ℕ) (c : Connection) (cs : List Connection) → Above n cs → Above n (put_connection c cs)
unfolding put_connection
Above-put n c [] v = tt
Above-put n c (d ∷ ds) v = elim (Bool-cases (d.server == c.server)) [
  | inl e ↦ rw e (
      let same : d.server ≡ c.server = ground arith in
      (omega arith, Above-same d.server c.server ds same v.1))
  | inr e ↦ rw e (v.0, Above-put d.server c ds v.1)
]

pub InOrder-insert :
    (c : Connection) (cs : List Connection) → InOrder cs → InOrder (insert_connection c cs)
unfolding insert_connection
InOrder-insert c [] v = tt
InOrder-insert c (d ∷ ds) v = ground (arith, Above-insert d.server c ds)

InOrder-erase : (sid : ℕ) (cs : List Connection) → InOrder cs → InOrder (remove_connection sid cs)
unfolding remove_connection
InOrder-erase sid [] v = tt
InOrder-erase sid (c ∷ cs) v =
    ground (arith, Above-erase c.server sid cs v, Above-InOrder c.server cs v)

pub InOrder-put :
    (c : Connection) (cs : List Connection) → InOrder cs → InOrder (put_connection c cs)
unfolding put_connection
InOrder-put c [] v = tt
InOrder-put c (d ∷ ds) v = elim (Bool-cases (d.server == c.server)) [
  | inl e ↦ rw e (Above-same d.server c.server ds (ground arith) v)
  | inr e ↦ rw e (Above-put d.server c ds v)
]

-- whether there is a connection of that server
unfoldable has_server : ℕ → List Connection → Bool
has_server sid [] = false
has_server sid (c ∷ cs) = if c.server == sid then true else has_server sid cs

length-remove_connection :
    (sid : ℕ) (cs : List Connection)
    → has_server sid cs ≡ true
    → length cs ≡ suc (length (remove_connection sid cs))
unfolding remove_connection has_server
length-remove_connection sid [] h = ground arith
length-remove_connection sid (c ∷ cs) h = ground (arith, length-remove_connection sid cs)

erase-shorter : (sid : ℕ) (cs : List Connection) → length (remove_connection sid cs) ≤ length cs
unfolding remove_connection
erase-shorter sid [] = omega arith
erase-shorter sid (c ∷ cs) = ground (arith, erase-shorter sid cs)

pub length-insert :
    (c : Connection) (cs : List Connection) → length (insert_connection c cs) ≤ suc (length cs)
unfolding insert_connection
length-insert c [] = omega arith
length-insert c (d ∷ ds) = ground (arith, length-insert c ds)

pub length-put : (c : Connection) (cs : List Connection) → length (put_connection c cs) ≡ length cs
unfolding put_connection
length-put c [] = refl
length-put c (d ∷ ds) = ground (arith, length-put c ds)

-- in order still, and no longer
abbrev pub IsKept : List Connection → Erased → Type 0
IsKept cs e = InOrder e.connections × (length e.connections ≤ length cs)

pub connection_erase-IsKept :
    (quits : ℕ → Bool) (c : Connection) (cs : List Connection)
    → InOrder cs
    → IsKept cs (connection_erase quits c cs)
unfolding connection_erase
connection_erase-IsKept quits c cs v = elim (Bool-cases (close_throws quits c)) [
  | inl e ↦ rw e (InOrder-put (closed c) cs v, omega (arith, length-put (closed c) cs))
  | inr e ↦ rw e (InOrder-erase c.server cs v, erase-shorter c.server cs)
]

connection_erase-shorter :
    (quits : ℕ → Bool) (c : Connection) (cs : List Connection)
    → has_server c.server cs ≡ true
    → (connection_erase quits c cs).thrown ≡ false
    → length cs ≡ suc (length (connection_erase quits c cs).connections)
unfolding connection_erase
connection_erase-shorter quits c cs h e = ground (arith, length-remove_connection c.server cs)

-- the oldest is the one so far, or one of the others
oldest_from-found :
    (now : ℤ) (best : Option Connection) (cs : List Connection) (c : Connection)
    → oldest_from now best cs ≡ some c
    → (best ≡ some c) ⊎ (has_server c.server cs ≡ true)
unfolding oldest_from has_server
oldest_from-found now best [] c e = inl e
oldest_from-found now none (d ∷ ds) c e = ground (arith, oldest_from-found now (some d) ds c)
oldest_from-found now (some b) (d ∷ ds) c e =
    ground (arith, oldest_from-found now (some d) ds c, oldest_from-found now (some b) ds c)

oldest_from-some :
    (now : ℤ) (b : Connection) (cs : List Connection) → oldest_from now (some b) cs ≢ none
unfolding oldest_from
oldest_from-some now b [] = λ e. ground arith
oldest_from-some now b (c ∷ cs) =
    λ e. ground (arith, oldest_from-some now c cs, oldest_from-some now b cs)

oldest_from-more :
    (now : ℤ) (d : Connection) (cs : List Connection) → oldest_from now none (d ∷ cs) ≢ none
unfolding oldest_from
oldest_from-more now d cs = λ e. ground (arith, oldest_from-some now d cs)

-- a connection goes, or the write of its QUIT throws, and the assertion holds
pub expire_old_connection-shorter :
    (quits : ℕ → Bool) (now : ℤ) (cs : List Connection)
    → cs ≢ []
    → InOrder cs
    → (rest : Erased) × (expire_old_connection quits now cs ≡ some rest)
      × (rest.thrown ≡ false → length cs ≡ suc (length rest.connections))
      × IsKept cs rest
unfolding expire_old_connection erase_oldest
expire_old_connection-shorter quits now [] h v = absurd (h refl)
expire_old_connection-shorter quits now (d ∷ ds) h v =
    elim (Option-cases (oldest_from now none (d ∷ ds))) [
      | inl e ↦ absurd (oldest_from-more now d ds e)
      | inr (c, e) ↦ rw e (
        connection_erase quits c (d ∷ ds),
        refl,
        connection_erase-shorter quits c (d ∷ ds)
            (has_it c (oldest_from-found now none (d ∷ ds) c e)),
        connection_erase-IsKept quits c (d ∷ ds) v,
      )
    ]
  where
    has_it :
        (c : Connection)
        → (none ≡ some c) ⊎ (has_server c.server (d ∷ ds) ≡ true)
        → has_server c.server (d ∷ ds) ≡ true
    has_it c v = ground arith
