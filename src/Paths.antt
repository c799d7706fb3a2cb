-- ===== src/Paths.antt =====
-- path.cc where the separator is '/': joining and splitting of path names.
pub mod Splitting
mod Tests
use nget.Prelude.{ℕ, List, [], ◌∷◌, ◌++◌, Bool, true, false, not, ◌&&◌, ◌==◌, if◌then◌else◌, Text}

abbrev pub pathsep : ℕ
pathsep = 47

unfoldable pub is_pathsep : ℕ → Bool
is_pathsep c = c == pathsep

-- whether a text's last character is no separator; true of none
unfoldable pub lacks_sep : Text → Bool
unfolding is_pathsep
lacks_sep [] = true
lacks_sep (c ∷ []) = if is_pathsep c then false else true
lacks_sep (c ∷ d ∷ cs) = lacks_sep (d ∷ cs)

unfoldable pub path_append : Text → Text → Text
unfolding lacks_sep
path_append [] b = b
path_append (c ∷ cs) b = if lacks_sep (c ∷ cs) then (c ∷ cs) ++ pathsep ∷ b else (c ∷ cs) ++ b

unfoldable pub path_join : Text → Text → Text
unfolding path_append
path_join a b = path_append a b

unfoldable pub path_join3 : Text → Text → Text → Text
unfolding path_append
path_join3 a b c = path_append (path_append a b) c

unfoldable pub is_empty : Text → Bool
is_empty [] = true
is_empty (c ∷ cs) = false

unfoldable pub reverse_onto : Text → Text → Text
reverse_onto [] ys = ys
reverse_onto (x ∷ xs) ys = reverse_onto xs (x ∷ ys)

-- the loop, with the head from its last character on, and the tail
unfoldable pub split_from : Text → Text → Text × Text
unfolding is_pathsep is_empty
split_from [] tail = ([], tail)
split_from (c ∷ head) tail =
    let tail' = if is_pathsep c then (if is_empty head then c ∷ tail else tail) else c ∷ tail in
    let rest = split_from head tail' in
    if is_pathsep c && not (is_empty tail') then (head, tail') else rest

unfoldable pub path_split : Text → Text × Text
unfolding split_from reverse_onto
path_split head =
    let (left, tail) = split_from (reverse_onto head []) [] in (reverse_onto left [], tail)
