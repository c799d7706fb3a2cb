-- ===== src/Cache/Load/Beginning.antt =====
-- The lines before the files: the version, the number of the parts, the servers.
use nget.Prelude.{
  ℕ, ◌≤◌, ◌<◌, ◌≡◌, refl, ap, sym, subst, ◌∙◌, pos, List, [], ◌∷◌, ◌++◌, Bool, true, false, some,
  Text, arith, length, append_assoc, append_nil, ulong_max, add_ulong,
}
use nget.Decimal.{print_ulong, atoi, starts_digit}
use nget.Decimal.RoundTrip.{
  AllDigits, print_ulong-AllDigits, atoul-print_ulong, atoul-print_ulong_before,
}
use nget.Buffy.Tokens.{IsField}
use nget.Cache.{ServerArticle, Part, NntpFile, ServerInfo}
use nget.Cache.Writer.{
  cache_version, cache_sortver, start_line, server_line, server_lines, all_file_lines, file_lines,
  article_lines, part_lines, reference_lines, starts_dot,
}
use nget.Cache.Reader.{ReadLog, tokens_of}
use nget.Cache.Reader.Lines.{
  tokens_of-joined_fields, joined_fields-plain, print_ulong-IsField, print_ulong-StartsPlain,
  btoks-line, IsField-append,
}
use nget.Cache.Load.{
  strchr, sortver_of, starts, start_of, read_start, insert_info, read_info, read_infos,
}

-- each file has a line
length-article_lines :
    (xs : List ServerArticle) (rest : List Text) → length rest ≤ length (article_lines xs rest)
unfolding article_lines
length-article_lines [] rest = omega arith
length-article_lines (a ∷ more) rest = omega (arith, length-article_lines more rest)

length-part_lines : (ps : List Part) (rest : List Text) → length rest ≤ length (part_lines ps rest)
unfolding part_lines
length-part_lines [] rest = omega arith
length-part_lines (p ∷ ps) rest =
    omega (arith, length-article_lines p.articles (part_lines ps rest), length-part_lines ps rest)

length-reference_lines : (rs rest : List Text) → length rest ≤ length (reference_lines rs rest)
unfolding reference_lines
length-reference_lines [] rest = omega arith
length-reference_lines (r ∷ rs) rest = omega (arith, length-reference_lines rs rest)

pub length-all_file_lines : (fs : List NntpFile) → length fs ≤ length (all_file_lines fs)
unfolding all_file_lines file_lines
length-all_file_lines [] = omega arith
length-all_file_lines (f ∷ fs) = omega (
  arith,
  length-all_file_lines fs,
  length-part_lines f.parts (all_file_lines fs),
  length-reference_lines f.references (part_lines f.parts (all_file_lines fs)),
)

-- the ids of the servers are in order
abbrev pub AllAbove : ServerInfo → List ServerInfo → Type 0
AllAbove i [] = Unit {0}
AllAbove i (j ∷ js) = (i.serverid < j.serverid) × AllAbove i js

abbrev pub AreInfosInOrder : List ServerInfo → Type 0
AreInfosInOrder [] = Unit {0}
AreInfosInOrder (i ∷ is) = AllAbove i is × AreInfosInOrder is

AllAbove-mid :
    (j : ServerInfo) (is : List ServerInfo) (i : ServerInfo) (more : List ServerInfo)
    → AllAbove j (is ++ i ∷ more)
    → j.serverid < i.serverid
AllAbove-mid j [] i more v = v.0
AllAbove-mid j (k ∷ is) i more v = AllAbove-mid j is i more v.1

insert_info-last :
    (i : ServerInfo) (is more : List ServerInfo)
    → AreInfosInOrder (is ++ i ∷ more)
    → insert_info i is ≡ is ++ i ∷ []
unfolding insert_info
insert_info-last i [] more v = refl
insert_info-last i (j ∷ js) more v =
    ground (arith, AllAbove-mid j js i more v.0, insert_info-last i js more v.1)

strchr-digits : (ds rest : Text) → AllDigits ds → strchr 32 (ds ++ 32 ∷ rest) ≡ some (32 ∷ rest)
unfolding strchr
strchr-digits [] rest v = refl
strchr-digits (c ∷ cs) rest v = ground (arith, strchr-digits cs rest v.2)

abbrev sortver : ℕ → Text
sortver n = print_ulong n ++ 32 ∷ print_ulong cache_sortver

sortver-IsField : (n : ℕ) → IsField 9 (sortver n)
sortver-IsField n =
    IsField-append 9 (print_ulong n) (32 ∷ print_ulong cache_sortver) (print_ulong-IsField n)
      (ground arith, ground arith, ground arith, print_ulong-IsField cache_sortver)

version-IsField : IsField 9 cache_version
version-IsField = ground arith

some_sortver : sortver_of (some (32 ∷ print_ulong cache_sortver)) ≡ pos cache_sortver
unfolding sortver_of print_ulong atoi
some_sortver = refl

start_of-version :
    (n : ℕ)
    → n ≤ ulong_max
    → start_of 2 (cache_version ∷ sortver n ∷ []) ≡ starts n (pos cache_sortver)
unfolding start_of
start_of-version n h =
    rw
      (
        atoul-print_ulong_before n (32 ∷ print_ulong cache_sortver) h (unfold starts_digit in refl),
        strchr-digits (print_ulong n) (print_ulong cache_sortver) (print_ulong-AllDigits n),
      )
      (ap (starts n) some_sortver)

pub read_start-start_line :
    (n : ℕ) → n ≤ ulong_max → read_start (start_line n) ≡ starts n (pos cache_sortver)
unfolding read_start start_line start_of
read_start-start_line n h =
    ap (λ t. start_of t.0 t.1)
      (btoks-line cache_version (sortver n ∷ []) (version-IsField, (sortver-IsField n, tt)))
    ∙ start_of-version n h

module _ (hasserver : ℕ → Bool) where
  -- the numbers are unsigned longs, and the server is configured
  pub record IsInfoOk (i : ServerInfo) : Type 0 where
    pub id : i.serverid ≤ ulong_max
    pub high : i.high ≤ ulong_max
    pub low : i.low ≤ ulong_max
    pub num : i.num ≤ ulong_max
    pub has : hasserver i.serverid ≡ true

  abbrev pub AllInfosOk : List ServerInfo → Type 0
  AllInfosOk [] = Unit {0}
  AllInfosOk (i ∷ is) = IsInfoOk i × AllInfosOk is

  info_tokens :
      (i : ServerInfo)
      → tokens_of 4 (server_line i)
        ≡ some (
            print_ulong i.serverid
            ∷ print_ulong i.high
            ∷ print_ulong i.low
            ∷ print_ulong i.num
            ∷ [])
  unfolding server_line
  info_tokens i =
      tokens_of-joined_fields (print_ulong i.serverid)
        (print_ulong i.high ∷ print_ulong i.low ∷ print_ulong i.num ∷ [])
        (
          print_ulong-IsField i.serverid,
          (
            print_ulong-IsField i.high,
            (print_ulong-IsField i.low, (print_ulong-IsField i.num, tt)),
          ),
        )

  read_info-server :
      (i : ServerInfo) (is : List ServerInfo) (log : ReadLog)
      → IsInfoOk i
      → read_info hasserver (tokens_of 4 (server_line i)) is log ≡ (insert_info i is, log)
  unfolding read_info
  read_info-server i is log v =
      rw
        (
          info_tokens i,
          atoul-print_ulong i.serverid v.id,
          v.has,
          atoul-print_ulong i.high v.high,
          atoul-print_ulong i.low v.low,
          atoul-print_ulong i.num v.num,
        )
        refl

  server_plain : (i : ServerInfo) → starts_dot (server_line i) ≡ false
  unfolding server_line
  server_plain i =
      joined_fields-plain (print_ulong i.serverid) _ (print_ulong-StartsPlain i.serverid)

  pub read_infos-server_lines :
      (is before : List ServerInfo) (tail : List Text) (log : ReadLog)
      → AllInfosOk is
      → AreInfosInOrder (before ++ is)
      → (log' : ReadLog) × (read_infos hasserver (server_lines is tail) before log
          ≡ (before ++ is, log', some tail))
  unfolding read_infos server_lines
  read_infos-server_lines [] before tail log v o = (
    record log { curline = add_ulong log.curline 1 },
    ap (λ is. (is, record log { curline = add_ulong log.curline 1 }, some tail))
        (sym (append_nil before)),
  )
  read_infos-server_lines (i ∷ is) before tail log v o =
      let counted : ReadLog = record log { curline = add_ulong log.curline 1 } in
      let (log', rest) =
        read_infos-server_lines is (before ++ i ∷ []) tail counted v.1
          (subst (λ js. AreInfosInOrder js) (sym (append_assoc before (i ∷ []) is)) o) in
      (
        log',
        rw (server_plain i, read_info-server i before counted v.0, insert_info-last i before is o)
            (rest ∙ ap (λ js. (js, log', some tail)) (append_assoc before (i ∷ []) is)),
      )
