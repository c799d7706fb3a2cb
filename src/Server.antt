-- ===== src/Server.antt =====
-- server.cc and server.h: the penalties of a server that does not answer. Times are in seconds.
pub mod Penalty
mod Tests
use nget.Prelude.{
  ℕ, suc, ℤ, pos, ltb_ℤ, leb_ℤ, eqb_ℤ, ◌+ℤ◌, ◌-ℤ◌, [], ◌∷◌, Bool, true, false, ◌&&◌, if◌then◌else◌,
  Option, some, none, Text,
}

-- the fields of c_nget_config that the code reads
pub record Config : Type 0 where
  pub maxconnections : ℤ
  pub penaltystrikes : ℤ
  pub initialpenalty : ℤ

-- c_server
pub record Server : Type 0 where
  pub bindaddr : Text
  pub idletimeout : ℤ
  pub last_penalty : ℤ
  pub penalty_time : ℤ
  pub penalty_count : ℕ

unfoldable pub is_empty : Text → Bool
is_empty [] = true
is_empty (c ∷ cs) = false

unfoldable pub get_bindaddr : Text → Server → Text
unfolding is_empty
get_bindaddr force s = if is_empty force then s.bindaddr else force

unfoldable pub bindaddr_of : Text → Option Server → Text
unfolding get_bindaddr
bindaddr_of force none = force
bindaddr_of force (some s) = get_bindaddr force s

unfoldable pub unpenalize : Server → Server
unpenalize s = record s { penalty_count = 0 }

module _ (config : Config) where
  -- check_penalized: the seconds that are left, where it throws
  unfoldable pub check_penalized : ℤ → Option Server → Option ℤ
  check_penalized now none = none
  check_penalized now (some s) =
      let timeleft = s.last_penalty +ℤ s.penalty_time -ℤ now in
      if ltb_ℤ (pos 0) config.penaltystrikes
        && (leb_ℤ config.penaltystrikes (pos s.penalty_count) && ltb_ℤ (pos 0) timeleft)
      then some timeleft
      else none

  -- the multiplier is a float: `multiply` is the product, as a time
  module _ (multiply : ℤ → ℤ) where
    unfoldable pub penalty_time_of : ℕ → ℤ → ℤ
    penalty_time_of count time =
        if eqb_ℤ (pos count) config.penaltystrikes
        then config.initialpenalty
        else if ltb_ℤ config.penaltystrikes (pos count)
        then multiply time
        else time

    unfoldable pub penalize : ℤ → Server → Bool × Server
    unfolding penalty_time_of
    penalize now s = if leb_ℤ config.penaltystrikes (pos 0) then (false, s) else (
      leb_ℤ config.penaltystrikes (pos (suc s.penalty_count)),
      record s {
        penalty_count = suc s.penalty_count;
        penalty_time = penalty_time_of (suc s.penalty_count) s.penalty_time;
        last_penalty = now;
      },
    )
