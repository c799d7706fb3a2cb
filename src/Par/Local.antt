-- ===== src/Par/Local.antt =====
-- par.h and par.cc: LocalParFiles, which knows the par files that are in a directory. The names in it
-- are given in the order of readdir; that opendir fails, which throws, is left out.
mod Tests
use nget.Prelude.{
  ℕ, List, [], ◌∷◌, ◌++◌, Bool, false, leb, ◌==◌, ◌&&◌, ◌||◌, if◌then◌else◌, Option, some, none,
  Text, eq_text, lt_text, codes, get_or,
}
use nget.Paths.{path_join}
use nget.Par.{Regex, LocalParFiles}
use nget.Par.Info.{first_char, isalpha}
use nget.Par.Rounds.{has_text}
use nget.Par.Extra.{strtolower}

-- the regex library and its words, and what the par files of a directory tell of their sets
pub record Scanner : Type 0 where
  pub compile : Text → Regex
  pub word_beginning_safe : Text
  pub word_end : Text
  pub parfile_re : Regex
  pub par2file_re : Regex
  pub par2pxxre : Regex
  pub dupefile_res1 : List Regex
  pub dupefile_res2 : List Regex
  pub parfile_get_sethash : Text → Option Text
  pub par2file_get_sethash : Text → Option Text

unfoldable pub isalnum : ℕ → Bool
unfolding isalpha
isalnum c = isalpha c || (leb 48 c && leb c 57)

unfoldable pub is_special : ℕ → Text → Bool
is_special c [] = false
is_special c (d ∷ ds) = (c == d) || is_special c ds

-- what is appended to buf
unfoldable pub regex_escape_string : Text → Text
unfolding is_special
regex_escape_string [] = []
regex_escape_string (c ∷ cs) =
    let rest = regex_escape_string cs in
    if is_special c (codes "{}()|[]\\.+*?^$") then 92 ∷ c ∷ rest else c ∷ rest

-- basenames[key] or basefilenames[key], and a change of it; the map is in the order of the keys
unfoldable pub with_names :
    Text → (List Text → List Text) → List (Text × List Text) → List (Text × List Text)
unfolding eq_text lt_text
with_names key g [] = (key, g []) ∷ []
with_names key g ((k, names) ∷ rest) =
    if eq_text key k
    then (k, g names) ∷ rest
    else if lt_text key k
    then (key, g []) ∷ (k, names) ∷ rest
    else (k, names) ∷ with_names key g rest

unfoldable pub names_of : Text → List (Text × List Text) → List Text
unfolding eq_text
names_of key [] = []
names_of key ((k, names) ∷ rest) = if eq_text key k then names else names_of key rest

unfoldable pub insert_text : Text → List Text → List Text
unfolding eq_text lt_text
insert_text t [] = t ∷ []
insert_text t (u ∷ us) =
    if eq_text t u then u ∷ us else if lt_text t u then t ∷ u ∷ us else u ∷ insert_text t us

-- insert_value of a multimap: behind the entries with the same key
unfoldable pub insert_entry : Text → Regex → List (Text × Regex) → List (Text × Regex)
unfolding lt_text
insert_entry key r [] = (key, r) ∷ []
insert_entry key r ((k, q) ∷ rest) =
    if lt_text key k then (key, r) ∷ (k, q) ∷ rest else (k, q) ∷ insert_entry key r rest

-- the expression for a basename, with what stands behind it in the names of par files
unfoldable pub subject_pattern : Scanner → Text → Text → Text
unfolding isalnum first_char regex_escape_string
subject_pattern s basename extension =
    (if isalnum (first_char basename) then s.word_beginning_safe else [])
    ++ regex_escape_string basename
    ++ extension
    ++ s.word_end

-- addsubjmatch_par1 and addsubjmatch_par2
unfoldable pub addsubjmatch : Scanner → Text → Text → Text → LocalParFiles → LocalParFiles
unfolding has_text names_of with_names insert_text insert_entry subject_pattern
addsubjmatch s extension key basename l =
    if has_text basename (names_of key l.basenames) then l else record l {
      basenames = with_names key (insert_text basename) l.basenames;
      subjmatches =
          insert_entry key (s.compile (subject_pattern s basename extension)) l.subjmatches;
    }

abbrev pub par1_extension : Text
par1_extension = codes "\\.p(ar|[0-9]{2})"

abbrev pub par2_extension : Text
par2_extension = codes "(\\.vol([0-9]+)\\+([0-9]+))?\\.par2"

unfoldable pub add_set_file :
    Scanner → Text → Text → Text → Option Text → LocalParFiles → LocalParFiles
unfolding addsubjmatch with_names insert_text
add_set_file s extension name basename (some sethash) l =
    addsubjmatch s extension sethash basename (record l {
      basefilenames = with_names sethash (λ names. names ++ name ∷ []) l.basefilenames;
    })
add_set_file s extension name basename none l = record l {
  badbasenames = insert_text basename l.badbasenames;
}

-- a name of the directory: addfrompath_par1
unfoldable pub scan_name1 :
    Scanner → Text → Text → Option (List Text) → LocalParFiles → LocalParFiles
unfolding add_set_file strtolower path_join
scan_name1 s path name none l = l
scan_name1 s path name (some subs) l =
    add_set_file s par1_extension name (strtolower (get_or subs 1 []))
      (s.parfile_get_sethash (path_join path name)) l

-- a name of the directory: addfrompath_par2, with the base name without its volume
unfoldable pub volume_base : Text → Option (List Text) → Text
volume_base basename none = basename
volume_base basename (some subs) = get_or subs 1 []

unfoldable pub scan_name2 :
    Scanner → Text → Text → Option (List Text) → LocalParFiles → LocalParFiles
unfolding add_set_file strtolower path_join volume_base
scan_name2 s path name none l = l
scan_name2 s path name (some subs) l =
    add_set_file s par2_extension name
      (strtolower (volume_base (get_or subs 1 []) (s.par2pxxre (get_or subs 1 []))))
      (s.par2file_get_sethash (path_join path name)) l

-- add_to_nocase_map: a multimap
unfoldable pub insert_nocase : Text → Text → List (Text × Text) → List (Text × Text)
unfolding lt_text
insert_nocase key name [] = (key, name) ∷ []
insert_nocase key name ((k, n) ∷ rest) =
    if lt_text key k then (key, name) ∷ (k, n) ∷ rest else (k, n) ∷ insert_nocase key name rest

unfoldable pub add_to_nocase_map : Text → Text → List (Text × Text) → List (Text × Text)
unfolding insert_nocase strtolower
add_to_nocase_map key name m = insert_nocase (strtolower key) name m

-- a downloaded dupe is added under its original name
unfoldable pub add_dupe : Text → Option (List Text) → List (Text × Text) → List (Text × Text)
unfolding add_to_nocase_map
add_dupe name none m = m
add_dupe name (some subs) m = add_to_nocase_map (get_or subs 1 []) name m

unfoldable pub add_dupes : Text → List Regex → List (Text × Text) → List (Text × Text)
unfolding add_dupe
add_dupes name [] m = m
add_dupes name (r ∷ rs) m = add_dupes name rs (add_dupe name (r name) m)

unfoldable pub scan_nocase : List Regex → Text → List (Text × Text) → List (Text × Text)
unfolding add_dupes add_to_nocase_map eq_text
scan_nocase dupefile_res name m =
    if eq_text name (codes "..") || eq_text name (codes ".")
    then m
    else add_to_nocase_map name name (add_dupes name dupefile_res m)

-- the loops over the directory
unfoldable pub addfrompath_par1 :
    Scanner
    → Text
    → List Text
    → LocalParFiles × List (Text × Text)
    → LocalParFiles × List (Text × Text)
unfolding scan_name1 scan_nocase
addfrompath_par1 s path [] (l, m) = (l, m)
addfrompath_par1 s path (name ∷ names) (l, m) =
    addfrompath_par1 s path names
      (scan_name1 s path name (s.parfile_re name) l, scan_nocase s.dupefile_res1 name m)

unfoldable pub addfrompath_par2 :
    Scanner
    → Text
    → List Text
    → LocalParFiles × List (Text × Text)
    → LocalParFiles × List (Text × Text)
unfolding scan_name2 scan_nocase
addfrompath_par2 s path [] (l, m) = (l, m)
addfrompath_par2 s path (name ∷ names) (l, m) =
    addfrompath_par2 s path names
      (scan_name2 s path name (s.par2file_re name) l, scan_nocase s.dupefile_res2 name m)
