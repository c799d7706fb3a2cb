-- ===== src/Sockpool/Reach.antt =====
-- The steps of a pool, and what holds in every pool that they reach.
use nget.Prelude.{
  ℕ, suc, ◌≤ℤ◌, ◌<ℤ◌, ◌≡◌, refl, sym, subst, ◌∙◌, ℤ, pos, ltb_ℤ, leb_ℤ, List, [], ◌∷◌, Bool, true,
  false, ◌&&◌, if◌then◌else◌, Option, some, none, Text, eq_text, arith, length, Bool-cases, inl,
  inr,
}
use nget.Server.{Config, Server}
use nget.Sockpool.{
  Connection, Pool, touch, new_connection, find_connection, connection_erase, put_connection,
  expire_connections, make_room, ConnectResult, connected, penalized, connection_failed,
  open_connection, connect_anew, connect_with, connect, release_as, release, expire_old_connection,
  Erased, connect_past, quit_failed,
}
use nget.Sockpool.Bound.{
  InOrder, InOrder-insert, InOrder-put, length-insert, length-put, expire_old_connection-shorter,
  connection_erase-IsKept,
}
use nget.Sockpool.Expiry.{InOrder-expire, length-expire}

module _ (config : Config) (multiply : ℤ → ℤ) (h : pos 0 <ℤ config.maxconnections) where
  -- no server has two connections, and no more are open than the configuration lets
  pub record IsPoolOk (p : Pool) : Type 0 where
    pub in_order : InOrder p.connections
    pub bounded : pos (length p.connections) ≤ℤ config.maxconnections

  -- room for one connection more, where nothing was thrown
  HasRoom : Erased → Type 0
  HasRoom e =
      InOrder e.connections
      × (pos (length e.connections) ≤ℤ config.maxconnections)
      × (e.thrown ≡ false → pos (suc (length e.connections)) ≤ℤ config.maxconnections)

  full-HasRoom :
      (quits : ℕ → Bool) (now : ℤ) (cs : List Connection)
      → InOrder cs
      → pos (length cs) ≤ℤ config.maxconnections
      → leb_ℤ config.maxconnections (pos (length cs)) ≡ true
      → (rest : Erased) × (expire_old_connection quits now cs ≡ some rest) × HasRoom rest
  unfolding HasRoom
  full-HasRoom quits now [] v b e = absurd (ground arith)
  full-HasRoom quits now (d ∷ ds) v b e =
      let (rest, same, shorter, (ok, short)) =
        expire_old_connection-shorter quits now (d ∷ ds) (λ q. ground arith) v in
      (rest, same, (ok, omega arith, λ not_thrown. omega (arith, shorter not_thrown)))

  make_room-HasRoom :
      (quits : ℕ → Bool) (now : ℤ) (cs : List Connection)
      → InOrder cs
      → pos (length cs) ≤ℤ config.maxconnections
      → (rest : Erased) × (make_room config multiply quits now cs ≡ some rest) × HasRoom rest
  unfolding make_room HasRoom
  make_room-HasRoom quits now cs v b =
      elim (Bool-cases (leb_ℤ config.maxconnections (pos (length cs)))) [
        | inl e ↦
            let positive : ltb_ℤ (pos 0) config.maxconnections ≡ true = ground arith in
            rw (positive, e) (full-HasRoom quits now cs v b e)
        | inr e ↦
            let positive : ltb_ℤ (pos 0) config.maxconnections ≡ true = ground arith in
            rw (positive, e)
              (
                record { thrown = false; connections = cs },
                refl,
                (v, omega arith, λ not_thrown. free cs (ground arith)),
              )
      ]
    where
      free :
          (ds : List Connection)
          → pos (length ds) <ℤ config.maxconnections
          → pos (suc (length ds)) ≤ℤ config.maxconnections
      free ds c = omega arith

  erase-IsPoolOk :
      (quits : ℕ → Bool) (c : Connection) (ss : List Server) (p : Pool)
      → IsPoolOk p
      → IsPoolOk (record {
        connections = (connection_erase quits c p.connections).connections;
        servers = ss;
      })
  erase-IsPoolOk quits c ss p v =
      let b : pos (length p.connections) ≤ℤ config.maxconnections = v.bounded in
      let (ok, short) = connection_erase-IsKept quits c p.connections v.in_order in
      record { in_order = ok; bounded = omega arith }

  put-IsPoolOk :
      (c : Connection) (ss : List Server) (p : Pool)
      → IsPoolOk p
      → IsPoolOk (record { connections = put_connection c p.connections; servers = ss })
  put-IsPoolOk c ss p v =
      let b : pos (length p.connections) ≤ℤ config.maxconnections = v.bounded in
      record {
        in_order = InOrder-put c p.connections v.in_order;
        bounded = omega (arith, length-put c p.connections);
      }

  -- a result of connect, with a pool that is as it should be
  pub Given : Option (ConnectResult × Pool) → Type 0
  Given o = (r : ConnectResult) × (p : Pool) × (o ≡ some (r, p)) × IsPoolOk p

  Given-if :
      (b : Bool) (x y : Option (ConnectResult × Pool))
      → Given x
      → (b ≡ false → Given y)
      → Given (if b then x else y)
  Given-if true x y v w = v
  Given-if false x y v w = w refl

  open_connection-Given :
      (opens : Bool) (now : ℤ) (sid : ℕ) (bindaddr : Text) (ss : List Server) (e : Erased)
      → HasRoom e
      → Given (open_connection config multiply opens now sid bindaddr ss (some e))
  unfolding open_connection Given HasRoom
  open_connection-Given opens now sid bindaddr ss e v =
      let c = new_connection now sid bindaddr in
      Given-if e.thrown _ _ (quit_failed, _, refl, record { in_order = v.0; bounded = v.1 })
        (λ not_thrown.
          Given-if opens _ _
            (
              connected c,
              _,
              refl,
              record {
                in_order = InOrder-insert c e.connections v.0;
                bounded = omega (arith, length-insert c e.connections, v.2 not_thrown);
              },
            )
            (λ fails. (connection_failed, _, refl, record { in_order = v.0; bounded = v.1 })))

  connect_anew-Given :
      (quits : ℕ → Bool) (opens : Bool) (now : ℤ) (sid : ℕ) (bindaddr : Text) (left : Option ℤ)
      (p : Pool)
      → IsPoolOk p
      → Given (connect_anew config multiply quits opens now sid bindaddr left p)
  unfolding connect_anew
  connect_anew-Given quits opens now sid bindaddr (some timeleft) p v =
      unfold Given in (penalized timeleft, p, refl, v)
  connect_anew-Given quits opens now sid bindaddr none p v =
      let (rest, same, room) = make_room-HasRoom quits now p.connections v.in_order v.bounded in
      rw same (open_connection-Given opens now sid bindaddr p.servers rest room)

  connect_past-Given :
      (quits : ℕ → Bool) (opens : Bool) (now : ℤ) (sid : ℕ) (bindaddr : Text) (left : Option ℤ)
      (e : Erased) (ss : List Server)
      → IsPoolOk (record { connections = e.connections; servers = ss })
      → Given (connect_past config multiply quits opens now sid bindaddr left e ss)
  unfolding connect_past
  connect_past-Given quits opens now sid bindaddr left e ss v =
      Given-if e.thrown _ _ (unfold Given in (quit_failed, _, refl, v))
        (λ not_thrown. connect_anew-Given quits opens now sid bindaddr left _ v)

  connect_with-Given :
      (quits : ℕ → Bool) (drains opens : Bool) (now : ℤ) (sid : ℕ) (bindaddr : Text)
      (left : Option ℤ) (o : Option Connection) (p : Pool)
      → IsPoolOk p
      → Given (connect_with config multiply quits drains opens now sid bindaddr left o p)
  unfolding connect_with
  connect_with-Given quits drains opens now sid bindaddr left none p v =
      connect_anew-Given quits opens now sid bindaddr left p v
  connect_with-Given quits drains opens now sid bindaddr left (some c) p v =
      Given-if (c.is_open && drains && eq_text c.bindaddr bindaddr) _ _
        (unfold Given in
          (connected (touch now c), _, refl, put-IsPoolOk (touch now c) p.servers p v))
        (λ not_used.
          connect_past-Given quits opens now sid bindaddr left _ p.servers
            (erase-IsPoolOk quits (record c { is_open = c.is_open && drains }) p.servers p v))

  -- connect ends, with a connection or a throw (also that of a QUIT that cannot be written), and never at the assertion of expire_old_connection;
  -- the pool that it leaves has no more connections than maxconnections (above 0) and no two to one
  -- server, where the pool before had.
  pub connect-Given :
      (quits : ℕ → Bool) (drains opens : Bool) (now : ℤ) (sid : ℕ) (force : Text) (p : Pool)
      → IsPoolOk p
      → Given (connect config multiply quits drains opens now sid force p)
  unfolding connect
  connect-Given quits drains opens now sid force p v =
      connect_with-Given quits drains opens now sid _ _ (find_connection sid p.connections) p v

  release_as-IsPoolOk :
      (quits : ℕ → Bool) (keepopen : Bool) (now : ℤ) (c : Connection) (ss : List Server) (p : Pool)
      → IsPoolOk p
      → IsPoolOk (release_as config multiply quits keepopen now c p.connections ss).1
  unfolding release_as
  release_as-IsPoolOk quits true now c ss p v = put-IsPoolOk (touch now c) ss p v
  release_as-IsPoolOk quits false now c ss p v = erase-IsPoolOk quits c ss p v

  either_way :
      (b : Bool) (x y : Bool × Pool) → IsPoolOk x.1 → IsPoolOk y.1 → IsPoolOk (if b then x else y).1
  either_way true x y v w = v
  either_way false x y v w = w

  release-IsPoolOk :
      (quits : ℕ → Bool) (now : ℤ) (c : Connection) (p : Pool)
      → IsPoolOk p
      → IsPoolOk (release config multiply quits now c p).1
  unfolding release
  release-IsPoolOk quits now c p v =
      either_way c.server_ok _ _
        (release_as-IsPoolOk quits c.is_open now (record c { server_ok = false }) _ p v)
        (release_as-IsPoolOk quits _ now c _ p v)

  -- the users of a pool: they connect, use a connection (which may close, or show that its server is
  -- well), release it, and have those expire that are not used
  pub data Reaches : Pool → Pool → Type 0 where
    stays : (p : Pool) → Reaches p p
    connects :
        (quits : ℕ → Bool) (drains opens : Bool) (now : ℤ) (sid : ℕ) (force : Text)
        (r : ConnectResult) (p q t : Pool)
        → connect config multiply quits drains opens now sid force p ≡ some (r, q)
        → Reaches q t
        → Reaches p t
    uses :
        (c : Connection) (p t : Pool)
        → Reaches (record p { connections = put_connection c p.connections }) t
        → Reaches p t
    releases :
        (quits : ℕ → Bool) (now : ℤ) (c : Connection) (p t : Pool)
        → Reaches (release config multiply quits now c p).1 t
        → Reaches p t
    expires :
        (quits : ℕ → Bool) (closeall : Bool) (now : ℤ) (p t : Pool)
        → Reaches
            (record p {
              connections =
                  (expire_connections quits closeall now p.servers p.connections).connections;
            })
            t
        → Reaches p t

  Given-IsPoolOk :
      (o : Option (ConnectResult × Pool)) (r : ConnectResult) (q : Pool)
      → Given o
      → o ≡ some (r, q)
      → IsPoolOk q
  unfolding Given
  Given-IsPoolOk o r q (r', p, e, ok) e' = subst (λ x. IsPoolOk x) (same (sym e ∙ e')) ok
    where
      same : ◌≡◌ {A = Option (ConnectResult × Pool)} (some (r', p)) (some (r, q)) → p ≡ q
      same w = cc

  -- Whatever its users do, a pool that starts with no more connections than maxconnections (above 0)
  -- and without two connections to one server stays so.
  pub Reaches-IsPoolOk : (p t : Pool) → IsPoolOk p → Reaches p t → IsPoolOk t
  Reaches-IsPoolOk p t v (stays p') = v
  Reaches-IsPoolOk p t v (connects quits drains opens now sid force r p' q t' e more) =
      Reaches-IsPoolOk q t
        (Given-IsPoolOk _ r q (connect-Given quits drains opens now sid force p v) e) more
  Reaches-IsPoolOk p t v (uses c p' t' more) =
      Reaches-IsPoolOk _ t (put-IsPoolOk c p.servers p v) more
  Reaches-IsPoolOk p t v (releases quits now c p' t' more) =
      Reaches-IsPoolOk _ t (release-IsPoolOk quits now c p v) more
  Reaches-IsPoolOk p t v (expires quits closeall now p' t' more) =
      let b : pos (length p.connections) ≤ℤ config.maxconnections = v.bounded in
      Reaches-IsPoolOk _ t
        (record {
          in_order = InOrder-expire quits closeall now p.servers p.connections v.in_order;
          bounded = omega (arith, length-expire quits closeall now p.servers p.connections);
        })
        more
