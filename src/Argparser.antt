-- ===== src/Argparser.antt =====
-- parseargs of argparser.cc: splits a line into its arguments, with quotes, escapes and comments.
-- A text has no character 0; spaces are those of the C locale.
pub mod Quoting
mod Tests
use nget.Prelude.{
  ℕ, List, [], ◌∷◌, ◌++◌, Bool, true, false, not, ◌&&◌, ◌||◌, ◌==◌, leb, if◌then◌else◌, Text,
  Outcome, ok, thrown,
}

unfoldable pub is_space : ℕ → Bool
is_space c = c == 32 || (leb 9 c && leb c 13)

abbrev pub double_quote : ℕ
double_quote = 34

abbrev pub single_quote : ℕ
single_quote = 39

abbrev pub backslash : ℕ
backslash = 92

abbrev pub hash_sign : ℕ
hash_sign = 35

unfoldable pub is_quote : ℕ → Bool
is_quote c = c == double_quote || c == single_quote

pub data ArgError : Type 0 where
  unterminated_quote : ℕ → ArgError
  ended_with_escape : ArgError

-- the locals of the loop; `quote` is 0 outside quotes
pub record ArgState : Type 0 where
  pub argl : List Text
  pub curpart : Text
  pub quote : ℕ
  pub esc : Bool

unfoldable pub is_empty : Text → Bool
is_empty [] = true
is_empty (c ∷ cs) = false

-- argl.push_back(curpart), if there is one
unfoldable pub push_part : ArgState → ArgState
unfolding is_empty
push_part s =
    if is_empty s.curpart then s else record s { argl = s.argl ++ s.curpart ∷ []; curpart = [] }

unfoldable pub add_char : ℕ → ArgState → ArgState
add_char c s = record s { curpart = s.curpart ++ c ∷ [] }

-- the character behind a backslash
unfoldable pub escaped_char : ℕ → ArgState → ArgState
unfolding is_quote
escaped_char c s = record s {
  curpart = s.curpart ++ (if is_quote c then c ∷ [] else backslash ∷ c ∷ []);
  esc = false;
}

unfoldable pub plain_char : ℕ → ArgState → ArgState
unfolding is_quote add_char
plain_char c s =
    if c == backslash
    then record s { esc = true }
    else if is_quote c
    then (if s.quote == c
        then record s { quote = 0 }
        else if s.quote == 0
        then record s { quote = c }
        else add_char c s)
    else add_char c s

unfoldable pub starts_comment : Bool → ℕ → ArgState → Bool
unfolding is_empty
starts_comment ignorecomments c s =
    ignorecomments && (s.quote == 0 && (c == hash_sign && is_empty s.curpart))

-- a pass of the loop that does not return
unfoldable pub next_char : ℕ → ArgState → ArgState
unfolding escaped_char is_space push_part plain_char
next_char c s =
    if s.esc
    then escaped_char c s
    else if is_space c && s.quote == 0
    then push_part s
    else plain_char c s

-- whether the pass returns: the tests before it in the loop fail
unfoldable pub returns : Bool → ℕ → ArgState → Bool
unfolding is_space starts_comment
returns ignorecomments c s =
    not s.esc && (not (is_space c && s.quote == 0) && starts_comment ignorecomments c s)

-- behind the loop
unfoldable pub finish_args : ArgState → Outcome ArgError (List Text)
unfolding push_part
finish_args s =
    if not (s.quote == 0)
    then thrown (unterminated_quote s.quote)
    else if s.esc
    then thrown ended_with_escape
    else ok (push_part s).argl

unfoldable pub parse_from : Bool → Text → ArgState → Outcome ArgError (List Text)
unfolding next_char returns finish_args
parse_from ignorecomments [] s = finish_args s
parse_from ignorecomments (c ∷ cs) s =
    let rest = parse_from ignorecomments cs (next_char c s) in
    if returns ignorecomments c s then ok s.argl else rest

-- The arguments are added to a list; parseargs starts with the empty one here.
unfoldable pub parseargs : Text → Bool → Outcome ArgError (List Text)
unfolding parse_from
parseargs optarg ignorecomments =
    parse_from ignorecomments optarg (record { argl = []; curpart = []; quote = 0; esc = false })
