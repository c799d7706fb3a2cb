-- ===== src/Strtoker.antt =====
-- strtoker.cc: the splitting of a line at a separator. A char* into the line is the text from it
-- on, and a null pointer is none.
pub mod Joining
mod Tests
use nget.Prelude.{
  ℕ, zero, suc, List, [], ◌∷◌, Bool, true, false, ◌==◌, if◌then◌else◌, Option, some, none, Text,
}

-- strchr, and the texts before and behind what it finds
unfoldable pub cut_at : ℕ → Text → Text × Option Text
cut_at sep [] = ([], none)
cut_at sep (c ∷ cs) =
    let (token, rest) = cut_at sep cs in if c == sep then ([], some cs) else (c ∷ token, rest)

-- the token, and what *cur is then
unfoldable pub goodstrtok : Option Text → ℕ → Option Text × Option Text
unfolding cut_at
goodstrtok none sep = (none, none)
goodstrtok (some cur) sep = let (token, rest) = cut_at sep cur in (some token, rest)

-- whether maxtoks wasn't enough
unfoldable pub is_left : Option Text → Bool
is_left none = false
is_left (some s) = true

-- the loop of strtoker::tok, with so many tokens to go: the tokens, and whether it returns -1
add_token : Option Text → List Text × Bool → List Text × Bool
add_token none rest = ([], false)
add_token (some token) (toks, left) = (token ∷ toks, left)

unfoldable pub tok_from : ℕ → ℕ → Option Text → List Text × Bool
unfolding is_left goodstrtok add_token
tok_from zero sep str = ([], is_left str)
tok_from (suc n) sep str =
    let (token, rest) = goodstrtok str sep in add_token token (tok_from n sep rest)

unfoldable pub tok : ℕ → ℕ → Text → List Text × Bool
unfolding tok_from
tok maxtoks tokchar str = tok_from maxtoks tokchar (some str)
