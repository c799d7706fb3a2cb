-- ===== src/Cache/Writer.antt =====
-- ~c_nntp_cache: the lines of a cache file. Each function is given the lines that come behind its
-- own; a line stands without its end.
use nget.Prelude.{ℕ, List, [], ◌∷◌, ◌++◌, Bool, false, ◌==◌, if◌then◌else◌, Text}
use nget.Decimal.{print_ulong, print_int}
use nget.Buffy.Tokens.{joined_fields}
use nget.Cache.{ServerArticle, Part, NntpFile, ServerInfo, NntpCache}

abbrev pub dot_line : Text
dot_line = 46 ∷ []

-- CACHE_VERSION, "NGET5"
abbrev pub cache_version : Text
cache_version = 78 ∷ 71 ∷ 69 ∷ 84 ∷ 53 ∷ []

-- CACHE_SORTVER
abbrev pub cache_sortver : ℕ
cache_sortver = 1

unfoldable pub server_line : ServerInfo → Text
server_line i =
    joined_fields 9 (print_ulong i.serverid)
      (print_ulong i.high ∷ print_ulong i.low ∷ print_ulong i.num ∷ [])

unfoldable pub server_lines : List ServerInfo → List Text → List Text
unfolding server_line
server_lines [] rest = dot_line ∷ rest
server_lines (i ∷ is) rest = server_line i ∷ server_lines is rest

unfoldable pub article_line : ServerArticle → Text
article_line a =
    joined_fields 9 (print_ulong a.serverid)
      (print_ulong a.articlenum ∷ print_ulong a.bytes ∷ print_ulong a.lines ∷ [])

unfoldable pub article_lines : List ServerArticle → List Text → List Text
unfolding article_line
article_lines [] rest = dot_line ∷ rest
article_lines (a ∷ more) rest = article_line a ∷ article_lines more rest

unfoldable pub part_line : Part → Text
part_line p = joined_fields 9 (print_int p.partnum) (print_ulong p.date ∷ p.messageid ∷ [])

unfoldable pub part_lines : List Part → List Text → List Text
unfolding part_line article_lines
part_lines [] rest = dot_line ∷ rest
part_lines (p ∷ ps) rest = part_line p ∷ article_lines p.articles (part_lines ps rest)

unfoldable pub starts_dot : Text → Bool
starts_dot [] = false
starts_dot (c ∷ cs) = c == 46

unfoldable pub reference_line : Text → Text
unfolding starts_dot
reference_line r = if starts_dot r then 46 ∷ r else r

unfoldable pub reference_lines : List Text → List Text → List Text
unfolding reference_line
reference_lines [] rest = dot_line ∷ rest
reference_lines (r ∷ rs) rest = reference_line r ∷ reference_lines rs rest

unfoldable pub file_line : NntpFile → Text
file_line f = joined_fields 9 (print_int f.req) (
    print_ulong f.flags
    ∷ f.subject
    ∷ f.author
    ∷ print_int f.partoff
    ∷ print_int f.tailoff
    ∷ print_ulong f.update
    ∷ [])

unfoldable pub file_lines : NntpFile → List Text → List Text
unfolding file_line reference_lines part_lines
file_lines f rest = file_line f ∷ reference_lines f.references (part_lines f.parts rest)

unfoldable pub all_file_lines : List NntpFile → List Text
unfolding file_lines
all_file_lines [] = []
all_file_lines (f ∷ fs) = file_lines f (all_file_lines fs)

unfoldable pub start_line : ℕ → Text
start_line totalnum =
    joined_fields 9 cache_version ((print_ulong totalnum ++ 32 ∷ print_ulong cache_sortver) ∷ [])

unfoldable pub cache_lines : NntpCache → List Text
unfolding start_line server_lines all_file_lines
cache_lines c = start_line c.totalnum ∷ server_lines c.server_info (all_file_lines c.files)

-- the bytes of lines
unfoldable pub bytes_of : List Text → Text
bytes_of [] = []
bytes_of (l ∷ ls) = l ++ (10 ∷ bytes_of ls)
