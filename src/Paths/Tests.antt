-- ===== src/Paths/Tests.antt =====
-- Runs of the path functions, and their theorem at concrete names.
use nget.Prelude.{◌≡◌, refl, [], ◌∷◌, arith}
use nget.Paths.{path_join3, path_split}
use nget.Paths.Splitting.{IsName}

-- a//b/ is a/ and b
slashes : path_split (97 ∷ 47 ∷ 47 ∷ 98 ∷ 47 ∷ []) ≡ (97 ∷ 47 ∷ [], 98 ∷ [])
unfolding path_split
slashes = refl

at_root : path_split (47 ∷ 98 ∷ []) ≡ ([], 47 ∷ 98 ∷ [])
unfolding path_split
at_root = refl

three : path_join3 (97 ∷ []) (98 ∷ 47 ∷ []) (99 ∷ []) ≡ 97 ∷ 47 ∷ 98 ∷ 47 ∷ 99 ∷ []
unfolding path_join3
three = refl

b-IsName : IsName (98 ∷ [])
b-IsName = ground arith
