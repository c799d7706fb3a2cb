-- ===== src/Prelude/Ulong.antt =====
-- `unsigned long` of an LP64 machine: 64 bits, with wrap-around.
use Prim.Native.Nat.{ℕ, ◌+◌, ◌-◌, ◌%◌}

abbrev pub ulong_mod : ℕ
ulong_mod = 18446744073709551616

-- ULONG_MAX
abbrev pub ulong_max : ℕ
ulong_max = 18446744073709551615

abbrev pub add_ulong : ℕ → ℕ → ℕ
add_ulong a b = (a + b) % ulong_mod

abbrev pub sub_ulong : ℕ → ℕ → ℕ
sub_ulong a b = (a + ulong_mod - b) % ulong_mod
