-- ===== src/Server/Penalty.antt =====
-- How long a server is out after failures, one behind the other.
use nget.Prelude.{
  ℕ, zero, suc, ◌+◌, ◌≤◌, ◌<◌, ◌≡◌, ap, ◌∙◌, ℤ, pos, ltb_ℤ, ◌+ℤ◌, ◌-ℤ◌, if◌then◌else◌, Option, some,
  none, arith,
}
use nget.Server.{Config, Server, check_penalized, penalize, penalty_time_of}

-- n times multiplied
unfoldable pub multiplied : (ℤ → ℤ) → ℕ → ℤ → ℤ
multiplied multiply zero t = t
multiplied multiply (suc n) t = multiply (multiplied multiply n t)

-- the seconds from now up to a time, where there are any
unfoldable pub seconds_left : ℤ → ℤ → Option ℤ
seconds_left until now = if ltb_ℤ (pos 0) (until -ℤ now) then some (until -ℤ now) else none

-- with n + 1 strikes
module _ (config : Config) (multiply : ℤ → ℤ) (n : ℕ) where
  abbrev pub strikes : Config
  strikes = record config { penaltystrikes = pos (suc n) }

  penalize-strikes :
      (now : ℤ) (s : Server)
      → (penalize strikes multiply now s).1 ≡ record s {
        penalty_count = suc s.penalty_count;
        penalty_time = penalty_time_of strikes multiply (suc s.penalty_count) s.penalty_time;
        last_penalty = now;
      }
  unfolding penalize
  penalize-strikes now s = ground arith

  penalty_time_of-struck :
      (c : ℕ) (t : ℤ) → c ≡ suc n → penalty_time_of strikes multiply c t ≡ config.initialpenalty
  unfolding penalty_time_of
  penalty_time_of-struck c t e = ground arith

  penalty_time_of-out :
      (c : ℕ) (t : ℤ) → suc n < c → penalty_time_of strikes multiply c t ≡ multiply t
  unfolding penalty_time_of
  penalty_time_of-out c t e = ground arith

  check_penalized-few :
      (t : ℤ) (s : Server) → s.penalty_count ≤ n → check_penalized strikes t (some s) ≡ none
  unfolding check_penalized
  check_penalized-few t s h = ground arith

  check_penalized-many :
      (t : ℤ) (s : Server)
      → n < s.penalty_count
      → check_penalized strikes t (some s) ≡ seconds_left (s.last_penalty +ℤ s.penalty_time) t
  unfolding check_penalized seconds_left
  check_penalized-many t s h = ground arith

  module _ (clock : ℕ → ℤ) (s : Server) where
    -- the server after so many failures, each at its time
    unfoldable pub failed : ℕ → Server
    unfolding penalize
    failed zero = s
    failed (suc m) = (penalize strikes multiply (clock m) (failed m)).1

    failed-step :
        (m : ℕ)
        → failed (suc m) ≡ record (failed m) {
          penalty_count = suc (failed m).penalty_count;
          penalty_time =
              penalty_time_of strikes multiply
                (suc (failed m).penalty_count)
                (failed m).penalty_time;
          last_penalty = clock m;
        }
    unfolding failed
    failed-step m = penalize-strikes (clock m) (failed m)

    module _ (fresh : s.penalty_count ≡ 0) where
      failed-count : (m : ℕ) → (failed m).penalty_count ≡ m
      failed-count zero = unfold failed in fresh
      failed-count (suc m) = ap (λ x. x.penalty_count) (failed-step m) ∙ ap suc (failed-count m)

      failed-time :
          (k m : ℕ)
          → m ≡ suc (n + k)
          → (failed m).penalty_time ≡ multiplied multiply k config.initialpenalty
      unfolding multiplied
      failed-time k zero e = absurd (ground arith)
      failed-time zero (suc m) e =
          ap (λ x. x.penalty_time) (failed-step m)
          ∙ penalty_time_of-struck _ _ (ground (arith, failed-count m))
      failed-time (suc k) (suc m) e =
          ap (λ x. x.penalty_time) (failed-step m)
          ∙ penalty_time_of-out _ _ (ground (arith, failed-count m))
          ∙ ap multiply (failed-time k m (ground arith))

      -- With penaltystrikes of n + 1: a server that failed m times, at most n, with no success between
      -- them, is not kept out; one that failed n + 1 + k times is kept out for initialpenalty,
      -- multiplied k times, from the last failure on.
      pub check_penalized-failed :
          (m : ℕ) (t : ℤ)
          → ((m ≤ n) → check_penalized strikes t (some (failed m)) ≡ none)
            × ((k : ℕ)
                → m ≡ n + k
                → check_penalized strikes t (some (failed (suc m)))
                  ≡ seconds_left (clock m +ℤ multiplied multiply k config.initialpenalty) t)
      check_penalized-failed m t = (
        λ h. check_penalized-few t (failed m) (ground (arith, failed-count m)),
        λ k e.
            check_penalized-many t (failed (suc m)) (ground (arith, failed-count (suc m)))
            ∙ ap (λ x. seconds_left (x +ℤ (failed (suc m)).penalty_time) t)
                (ap (λ x. x.last_penalty) (failed-step m))
            ∙ ap (λ x. seconds_left (clock m +ℤ x) t) (failed-time k (suc m) (ground arith)),
      )
