-- ===== src/Sockpool.antt =====
-- sockpool.cc: the connections that are kept open, and the servers that they are of. A server is named by its place in the list of the servers, which stands
-- for the pointer; times are in seconds. The network answers by the parameters `drains` (whether a
-- connection is still open when what waits on it is read), `opens` (whether a new one is made) and
-- `quits` (whether the QUIT that closes the connection to a server can be written).
pub mod Bound
pub mod Reach
pub mod Expiry
mod Tests
use nget.Server.{Config, Server, check_penalized, penalize, unpenalize, bindaddr_of}
use nget.Prelude.{
  ℕ, suc, ℤ, pos, negsuc, ltb_ℤ, leb_ℤ, eqb_ℤ, ◌+ℤ◌, ◌-ℤ◌, List, [], ◌∷◌, Bool, true, false, not,
  ◌&&◌, ◌||◌, ◌==◌, ltb, if◌then◌else◌, Option, some, none, Text, eq_text, length, get_elem?, set,
}

pub record Connection : Type 0 where
  pub server : ℕ
  pub bindaddr : Text
  pub lastuse : ℤ
  pub is_open : Bool
  pub server_ok : Bool

-- what connect gives or throws
pub data ConnectResult : Type 0 where
  connected : Connection → ConnectResult
  penalized : ℤ → ConnectResult
  connection_failed : ConnectResult
  quit_failed : ConnectResult

-- SockPool, its connections in the order of the servers, and the servers
pub record Pool : Type 0 where
  pub connections : List Connection
  pub servers : List Server

unfoldable pub age : ℤ → Connection → ℤ
age now c = now -ℤ c.lastuse

unfoldable pub touch : ℤ → Connection → Connection
touch now c = record c { lastuse = now }

-- the constructor of Connection, and touch
unfoldable pub new_connection : ℤ → ℕ → Text → Connection
new_connection now sid bindaddr = record {
  server = sid;
  bindaddr = bindaddr;
  lastuse = now;
  is_open = true;
  server_ok = false;
}

-- find, insert and erase of the map
unfoldable pub find_connection : ℕ → List Connection → Option Connection
find_connection sid [] = none
find_connection sid (c ∷ cs) = if c.server == sid then some c else find_connection sid cs

unfoldable pub insert_connection : Connection → List Connection → List Connection
insert_connection c [] = c ∷ []
insert_connection c (d ∷ ds) =
    if d.server == c.server
    then d ∷ ds
    else if ltb c.server d.server
    then c ∷ d ∷ ds
    else d ∷ insert_connection c ds

unfoldable pub remove_connection : ℕ → List Connection → List Connection
remove_connection sid [] = []
remove_connection sid (c ∷ cs) = if c.server == sid then cs else c ∷ remove_connection sid cs

-- a change of the connection itself
unfoldable pub put_connection : Connection → List Connection → List Connection
put_connection c [] = []
put_connection c (d ∷ ds) = if d.server == c.server then c ∷ ds else d ∷ put_connection c ds

-- close() of an open connection writes QUIT. Where it cannot, the connection is closed and a
-- TransportExError is thrown.
unfoldable pub close_throws : (ℕ → Bool) → Connection → Bool
close_throws quits c = c.is_open && not (quits c.server)

unfoldable pub closed : Connection → Connection
closed c = record c { is_open = false }

pub record Erased : Type 0 where
  pub thrown : Bool
  pub connections : List Connection

-- a FileEx is ignored, but not a TransportExError, which leaves the connection in the map
unfoldable pub connection_erase : (ℕ → Bool) → Connection → List Connection → Erased
unfolding close_throws closed put_connection remove_connection
connection_erase quits c cs =
    if close_throws quits c
    then record { thrown = true; connections = put_connection (closed c) cs }
    else record { thrown = false; connections = remove_connection c.server cs }

-- the connection that expire_old_connection takes, from the one that it has so far
unfoldable pub oldest_from : ℤ → Option Connection → List Connection → Option Connection
unfolding age
oldest_from now best [] = best
oldest_from now none (c ∷ cs) = if c.is_open then oldest_from now (some c) cs else some c
oldest_from now (some b) (c ∷ cs) =
    if c.is_open
    then oldest_from now (if ltb_ℤ (age now b) (age now c) then some c else some b) cs
    else some c

unfoldable pub erase_oldest : (ℕ → Bool) → Option Connection → List Connection → Option Erased
unfolding connection_erase
erase_oldest quits none cs = none
erase_oldest quits (some c) cs = some (connection_erase quits c cs)

-- nothing where the assertion fails
unfoldable pub expire_old_connection : (ℕ → Bool) → ℤ → List Connection → Option Erased
unfolding erase_oldest oldest_from
expire_old_connection quits now cs = erase_oldest quits (oldest_from now none cs) cs

unfoldable pub is_idle : ℤ → Connection → Option Server → Bool
unfolding age
is_idle now c none = false
is_idle now c (some s) = leb_ℤ s.idletimeout (age now c)

-- the loop ends where connection_erase throws
unfoldable pub expire_connections : (ℕ → Bool) → Bool → ℤ → List Server → List Connection → Erased
unfolding is_idle close_throws closed
expire_connections quits closeall now ss [] = record { thrown = false; connections = [] }
expire_connections quits closeall now ss (c ∷ cs) =
    let rest = expire_connections quits closeall now ss cs in
    if closeall || (not c.is_open || is_idle now c (get_elem? ss c.server))
    then if close_throws quits c
      then record { thrown = true; connections = closed c ∷ cs }
      else rest
    else record { thrown = rest.thrown; connections = c ∷ rest.connections }

module _ (config : Config) (multiply : ℤ → ℤ) where
  -- of the server with that number, if there is one
  unfoldable pub penalize_server : ℤ → ℕ → Option Server → List Server → Bool × List Server
  unfolding penalize
  penalize_server now sid none ss = (false, ss)
  penalize_server now sid (some s) ss =
      let (strikes_out, s') = penalize config multiply now s in (strikes_out, set ss sid s')

  unfoldable pub unpenalize_server : ℕ → Option Server → List Server → List Server
  unfolding unpenalize
  unpenalize_server sid none ss = ss
  unpenalize_server sid (some s) ss = set ss sid (unpenalize s)

  unfoldable pub make_room : (ℕ → Bool) → ℤ → List Connection → Option Erased
  unfolding expire_old_connection
  make_room quits now cs =
      if ltb_ℤ (pos 0) config.maxconnections && leb_ℤ config.maxconnections (pos (length cs))
      then expire_old_connection quits now cs
      else some (record { thrown = false; connections = cs })

  unfoldable pub open_connection :
      Bool → ℤ → ℕ → Text → List Server → Option Erased → Option (ConnectResult × Pool)
  unfolding new_connection insert_connection penalize_server
  open_connection opens now sid bindaddr ss none = none
  open_connection opens now sid bindaddr ss (some e) =
      let c = new_connection now sid bindaddr in
      let (strikes_out, ss') = penalize_server now sid (get_elem? ss sid) ss in
      if e.thrown
      then some (quit_failed, record { connections = e.connections; servers = ss })
      else if opens
      then some
          (connected c, record { connections = insert_connection c e.connections; servers = ss })
      else some (connection_failed, record { connections = e.connections; servers = ss' })

  -- the rest of connect, where no connection can be used again
  unfoldable pub connect_anew :
      (ℕ → Bool) → Bool → ℤ → ℕ → Text → Option ℤ → Pool → Option (ConnectResult × Pool)
  unfolding open_connection make_room
  connect_anew quits opens now sid bindaddr (some timeleft) p = some (penalized timeleft, p)
  connect_anew quits opens now sid bindaddr none p =
      open_connection opens now sid bindaddr p.servers (make_room quits now p.connections)

  -- behind connection_erase
  unfoldable pub connect_past :
      (ℕ → Bool)
      → Bool
      → ℤ
      → ℕ
      → Text
      → Option ℤ
      → Erased
      → List Server
      → Option (ConnectResult × Pool)
  unfolding connect_anew
  connect_past quits opens now sid bindaddr left e ss =
      let p : Pool = record { connections = e.connections; servers = ss } in
      if e.thrown then some (quit_failed, p) else connect_anew quits opens now sid bindaddr left p

  unfoldable pub connect_with :
      (ℕ → Bool)
      → Bool
      → Bool
      → ℤ
      → ℕ
      → Text
      → Option ℤ
      → Option Connection
      → Pool
      → Option (ConnectResult × Pool)
  unfolding connect_anew connect_past touch put_connection connection_erase eq_text
  connect_with quits drains opens now sid bindaddr left none p =
      connect_anew quits opens now sid bindaddr left p
  connect_with quits drains opens now sid bindaddr left (some c) p =
      let c' = record c { is_open = c.is_open && drains } in
      if c.is_open && drains && eq_text c.bindaddr bindaddr
      then some (
        connected (touch now c),
        record p { connections = put_connection (touch now c) p.connections },
      )
      else connect_past quits opens now sid bindaddr left (connection_erase quits c' p.connections)
          p.servers

  unfoldable pub connect :
      (ℕ → Bool) → Bool → Bool → ℤ → ℕ → Text → Pool → Option (ConnectResult × Pool)
  unfolding connect_with check_penalized bindaddr_of find_connection
  connect quits drains opens now sid force p =
      let server = get_elem? p.servers sid in
      connect_with quits drains opens now sid (bindaddr_of force server)
        (check_penalized config now server) (find_connection sid p.connections) p

  unfoldable pub release_as :
      (ℕ → Bool) → Bool → ℤ → Connection → List Connection → List Server → Bool × Pool
  unfolding touch put_connection connection_erase
  release_as quits keepopen now c cs ss =
      let e = connection_erase quits c cs in
      if keepopen
      then (false, record { connections = put_connection (touch now c) cs; servers = ss })
      else (e.thrown, record { connections = e.connections; servers = ss })

  -- whether it throws, and the pool
  unfoldable pub release : (ℕ → Bool) → ℤ → Connection → Pool → Bool × Pool
  unfolding release_as penalize_server unpenalize_server
  release quits now c p =
      let server = get_elem? p.servers c.server in
      let (strikes_out, ss) = penalize_server now c.server server p.servers in
      if c.server_ok
      then release_as quits c.is_open now (record c { server_ok = false }) p.connections
          (unpenalize_server c.server server p.servers)
      else release_as quits (c.is_open && not strikes_out) now c p.connections ss
