-- ===== src/Server/Tests.antt =====
-- Runs of the penalties, and their theorem at a concrete server.
use nget.Prelude.{ℕ, ◌+◌, ◌*◌, ◌≤◌, ◌≡◌, refl, ℤ, pos, negsuc, ◌+ℤ◌, ◌-ℤ◌, [], none, some}
use nget.Server.{Config, Server, check_penalized}
use nget.Server.Penalty.{failed, seconds_left, multiplied, check_penalized-failed}

abbrev some_config : Config
some_config = record { maxconnections = negsuc 0; penaltystrikes = pos 3; initialpenalty = pos 180 }

abbrev some_server : Server
some_server = record {
  bindaddr = [];
  idletimeout = pos 300;
  last_penalty = pos 0;
  penalty_time = pos 0;
  penalty_count = 0;
}

abbrev twice : ℤ → ℤ
twice t = t +ℤ t

abbrev each_minute : ℕ → ℤ
each_minute m = pos (m * 60)

-- the fourth failure, at the third minute, keeps the server out for six minutes
check_penalized-failed_example :
    ((3 ≤ 2)
      → check_penalized some_config
          (pos 200)
          (some (failed some_config twice 2 each_minute some_server 3))
        ≡ none)
    × ((k : ℕ)
        → 3 ≡ 2 + k
        → check_penalized some_config
            (pos 200)
            (some (failed some_config twice 2 each_minute some_server 4))
          ≡ seconds_left (pos 180 +ℤ multiplied twice k (pos 180)) (pos 200))
check_penalized-failed_example =
    check_penalized-failed some_config twice 2 each_minute some_server refl 3 (pos 200)

fourth_failure :
    check_penalized some_config
      (pos 200)
      (some (failed some_config twice 2 each_minute some_server 4))
    ≡ some (pos 340)
unfolding check_penalized failed ◌-ℤ◌ ◌+ℤ◌
fourth_failure = refl
