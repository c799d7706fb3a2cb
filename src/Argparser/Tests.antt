-- ===== src/Argparser/Tests.antt =====
-- Runs of parseargs, and its theorem at concrete arguments.
use nget.Prelude.{◌≡◌, refl, List, [], ◌∷◌, true, false, Text, ok, thrown, arith}
use nget.Argparser.{parseargs, unterminated_quote, ended_with_escape}
use nget.Argparser.Quoting.{AllArgs, quoted_line, parseargs-quoted_line}

-- -g  a'b c' # d
abbrev some_line : Text
some_line = 45 ∷ 103 ∷ 32 ∷ 32 ∷ 97 ∷ 39 ∷ 98 ∷ 32 ∷ 99 ∷ 39 ∷ 32 ∷ 35 ∷ 32 ∷ 100 ∷ []

with_comment : parseargs some_line true ≡ ok ((45 ∷ 103 ∷ []) ∷ (97 ∷ 98 ∷ 32 ∷ 99 ∷ []) ∷ [])
unfolding parseargs
with_comment = refl

open_quote : parseargs (97 ∷ 34 ∷ 98 ∷ []) false ≡ thrown (unterminated_quote 34)
unfolding parseargs
open_quote = refl

open_escape : parseargs (97 ∷ 92 ∷ []) false ≡ thrown ended_with_escape
unfolding parseargs
open_escape = refl

-- a" and b c
abbrev two_args : List Text
two_args = (97 ∷ 34 ∷ []) ∷ (98 ∷ 32 ∷ 99 ∷ []) ∷ []

two_args-AllArgs : AllArgs two_args
two_args-AllArgs = ground arith

parseargs-quoted_line_example : parseargs (quoted_line two_args) true ≡ ok two_args
parseargs-quoted_line_example = parseargs-quoted_line true two_args two_args-AllArgs
