-- ===== src/Sockpool/Tests.antt =====
-- Runs of the pool, and its theorems at concrete pools.
use nget.Prelude.{ℕ, Bool, false, ◌≡◌, refl, ℤ, pos, ◌+ℤ◌, ◌<ℤ◌, [], ◌∷◌, true, some, arith}
use nget.Server.{Config, Server}
use nget.Sockpool.{Pool, connected, quit_failed, connect, new_connection}
use nget.Sockpool.Reach.{IsPoolOk, Given, connect-Given, stays, connects, Reaches-IsPoolOk}

-- one connection at a time, and the server is kept out at its first failure
abbrev strict : Config
strict = record { maxconnections = pos 1; penaltystrikes = pos 1; initialpenalty = pos 100 }

strict-positive : pos 0 <ℤ strict.maxconnections
strict-positive = ground arith

abbrev some_server : Server
some_server = record {
  bindaddr = [];
  idletimeout = pos 300;
  last_penalty = pos 0;
  penalty_time = pos 0;
  penalty_count = 0;
}

abbrev twice : ℤ → ℤ
twice t = t +ℤ t

abbrev quits_well : ℕ → Bool
quits_well sid = true

abbrev no_connections : Pool
no_connections = record { connections = []; servers = some_server ∷ some_server ∷ [] }

abbrev one_connection : Pool
one_connection = record no_connections { connections = new_connection (pos 5) 0 [] ∷ [] }

-- the connection to server 0 makes room for that to server 1
abbrev other_connection : Pool
other_connection = record no_connections { connections = new_connection (pos 9) 1 [] ∷ [] }

no_connections-IsPoolOk : IsPoolOk strict twice strict-positive no_connections
no_connections-IsPoolOk = record { in_order = tt; bounded = ground arith }

one_connection-IsPoolOk : IsPoolOk strict twice strict-positive one_connection
unfolding new_connection
one_connection-IsPoolOk = record { in_order = tt; bounded = ground arith }

connect-Given_example :
    Given strict twice strict-positive
      (connect strict twice quits_well true true (pos 9) 1 [] one_connection)
connect-Given_example =
    connect-Given strict twice strict-positive quits_well true true (pos 9) 1 [] one_connection
      one_connection-IsPoolOk

first_connect :
    connect strict twice quits_well true true (pos 5) 0 [] no_connections
    ≡ some (connected (new_connection (pos 5) 0 []), one_connection)
unfolding connect
first_connect = refl

second_connect :
    connect strict twice quits_well true true (pos 9) 1 [] one_connection
    ≡ some (connected (new_connection (pos 9) 1 []), other_connection)
unfolding connect
second_connect = refl

Reaches-IsPoolOk_example : IsPoolOk strict twice strict-positive other_connection
Reaches-IsPoolOk_example =
    Reaches-IsPoolOk strict twice strict-positive no_connections other_connection
      no_connections-IsPoolOk
      (connects quits_well true true (pos 5) 0 [] (connected (new_connection (pos 5) 0 []))
        no_connections one_connection other_connection first_connect
        (connects quits_well true true (pos 9) 1 [] (connected (new_connection (pos 9) 1 []))
          one_connection other_connection other_connection second_connect (stays other_connection)))

-- a QUIT that cannot be written: connect throws, and the closed connection stays
failed_quit :
    connect strict twice (λ sid. false) true true (pos 9) 1 [] one_connection
    ≡ some (
      quit_failed,
      record no_connections {
        connections = record (new_connection (pos 5) 0 []) { is_open = false } ∷ [];
      },
    )
unfolding connect
failed_quit = refl
