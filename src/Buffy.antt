-- ===== src/Buffy.antt =====
-- c_buffy of buffy.h: bytes, lines and tokens from a source. The functions take the bytes that are
-- still to come, in the buffer and behind it. No byte is 0.
pub mod Tokens
pub mod CharBuffer
pub mod Ring
pub mod Stream
mod Tests
use nget.Prelude.{
  ℕ, zero, suc, ◌+◌, ◌≤◌, List, [], ◌∷◌, ◌++◌, Bool, true, false, ◌&&◌, ◌||◌, not, ◌==◌, ltb, leb,
  if◌then◌else◌, Option, some, none, Text,
}

unfoldable pub beof : Text → Bool
beof [] = true
beof (c ∷ cs) = false

unfoldable pub bpeek : Text → Option ℕ
bpeek [] = none
bpeek (c ∷ cs) = some c

-- the count of the bytes read, the line without its end, and what comes behind it
unfoldable pub bgets : Text → ℕ × Text × Text
bgets [] = (0, [], [])
bgets (c ∷ cs) =
    let (rcount, line, rest) = bgets cs in
    if c == 13
    then (rcount + 1, line, rest)
    else if c == 10
    then (1, [], cs)
    else (rcount + 1, c ∷ line, rest)

-- whether a byte ends a token; whether it is swallowed; whether it ends the line
unfoldable pub ends_token : ℕ → ℕ → ℕ → ℕ → Bool
ends_token tok max num c = c == tok && ltb num max

unfoldable pub is_swallowed : ℕ → ℕ → Bool → ℕ → ℕ → Bool
is_swallowed tok max tokfinal num c =
    (c == tok && (not (ltb num max) && tokfinal)) || (not (c == tok) && c == 13)

unfoldable pub ends_line : ℕ → ℕ → Bool
ends_line tok c = not (c == tok) && c == 10

unfoldable pub next_num : ℕ → ℕ → Bool → ℕ → ℕ → ℕ
next_num tok max tokfinal num c = if c == tok && (ltb num max || tokfinal) then num + 1 else num

unfoldable pub next_token : ℕ → ℕ → Bool → ℕ → Text → ℕ → Text
unfolding ends_token is_swallowed
next_token tok max tokfinal num cur c =
    if ends_token tok max num c
    then []
    else if is_swallowed tok max tokfinal num c
    then cur
    else if leb num max
    then cur ++ c ∷ []
    else cur

-- the loop of btoks, with the number of tokens and the token that it is in: the number, the tokens
-- and what comes behind the line
unfoldable pub toks_from : ℕ → ℕ → Bool → ℕ → Text → Text → ℕ × List Text × Text
unfolding ends_token ends_line next_num next_token
toks_from tok max tokfinal num cur [] = (num, cur ∷ [], [])
toks_from tok max tokfinal num cur (c ∷ cs) =
    let (n, toks, rest) =
      toks_from tok max tokfinal (next_num tok max tokfinal num c)
        (next_token tok max tokfinal num cur c) cs in
    if ends_line tok c
    then (num, cur ∷ [], cs)
    else if ends_token tok max num c
    then (n, cur ∷ toks, rest)
    else (n, toks, rest)

unfoldable pub btoks : ℕ → ℕ → Bool → Text → ℕ × List Text × Text
unfolding toks_from
btoks tok max tokfinal s = toks_from tok max tokfinal 1 [] s

-- the lines of a source, without their ends of 10
unfoldable pub cut_line : ℕ → List Text → List Text
cut_line c [] = (c ∷ []) ∷ []
cut_line c (l ∷ ls) = (c ∷ l) ∷ ls

unfoldable pub lines_of : Text → List Text
unfolding cut_line
lines_of [] = []
lines_of (c ∷ cs) = let rest = lines_of cs in if c == 10 then [] ∷ rest else cut_line c rest
