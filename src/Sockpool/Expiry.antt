-- ===== src/Sockpool/Expiry.antt =====
-- What expire_connections keeps.
use nget.Prelude.{ℕ, ◌≤◌, ℤ, List, [], ◌∷◌, Bool, arith, length}
use nget.Server.{Server}
use nget.Sockpool.{Connection, expire_connections}
use nget.Sockpool.Bound.{Above, InOrder, Above-weaken, Above-InOrder}

Above-expire :
    (quits : ℕ → Bool) (closeall : Bool) (now : ℤ) (ss : List Server) (n : ℕ) (cs : List Connection)
    → Above n cs
    → Above n (expire_connections quits closeall now ss cs).connections
unfolding expire_connections
Above-expire quits closeall now ss n [] v = tt
Above-expire quits closeall now ss n (c ∷ cs) v = ground (
  arith,
  Above-expire quits closeall now ss c.server cs v.1,
  Above-expire quits closeall now ss n cs (Above-weaken n c.server cs (omega arith) v.1),
)

pub InOrder-expire :
    (quits : ℕ → Bool) (closeall : Bool) (now : ℤ) (ss : List Server) (cs : List Connection)
    → InOrder cs
    → InOrder (expire_connections quits closeall now ss cs).connections
unfolding expire_connections
InOrder-expire quits closeall now ss [] v = tt
InOrder-expire quits closeall now ss (c ∷ cs) v = ground (
  arith,
  Above-expire quits closeall now ss c.server cs v,
  InOrder-expire quits closeall now ss cs (Above-InOrder c.server cs v),
)

pub length-expire :
    (quits : ℕ → Bool) (closeall : Bool) (now : ℤ) (ss : List Server) (cs : List Connection)
    → length (expire_connections quits closeall now ss cs).connections ≤ length cs
unfolding expire_connections
length-expire quits closeall now ss [] = omega arith
length-expire quits closeall now ss (c ∷ cs) =
    ground (arith, length-expire quits closeall now ss cs)
