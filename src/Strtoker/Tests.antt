-- ===== src/Strtoker/Tests.antt =====
-- Runs of tok, and its theorem at a concrete line.
use nget.Prelude.{◌≡◌, refl, List, [], ◌∷◌, true, Text, arith}
use nget.Strtoker.{tok}
use nget.Strtoker.Joining.{AllFree}

-- a, an empty token and b c
abbrev more_tokens : List Text
more_tokens = [] ∷ (98 ∷ 32 ∷ 99 ∷ []) ∷ []

too_many : tok 2 9 (97 ∷ 9 ∷ 9 ∷ 98 ∷ []) ≡ ((97 ∷ []) ∷ [] ∷ [], true)
unfolding tok
too_many = refl

more_tokens-AllFree : AllFree 9 ((97 ∷ []) ∷ more_tokens)
more_tokens-AllFree = ground arith
