-- ===== src/Par/Local/Tests.antt =====
-- A run of the search of a directory for par files.
use nget.Prelude.{◌≡◌, refl, List, [], ◌∷◌, some, none, Text, codes, length}
use nget.Par.{Regex, LocalParFiles}
use nget.Par.Local.{Scanner, addfrompath_par1, subject_pattern, par1_extension}

-- x1 and x2 are par files of one set, with one base name
abbrev digit_re : Regex
digit_re (c ∷ d ∷ []) = some ((c ∷ d ∷ []) ∷ (c ∷ []) ∷ [])
digit_re t = none

abbrev scanner : Scanner
scanner = record {
  compile = λ pattern. digit_re;
  word_beginning_safe = [];
  word_end = [];
  parfile_re = digit_re;
  par2file_re = digit_re;
  par2pxxre = λ t. none;
  dupefile_res1 = [];
  dupefile_res2 = [];
  parfile_get_sethash = λ fn. some (codes "k");
  par2file_get_sethash = λ fn. none;
}

abbrev scanned : LocalParFiles × List (Text × Text)
scanned =
    addfrompath_par1 scanner (codes "d") (codes "x1" ∷ codes "." ∷ codes "x2" ∷ [])
      (record { subjmatches = []; basenames = []; basefilenames = []; badbasenames = [] }, [])

scanned_set : scanned.0.basefilenames ≡ (codes "k", codes "x1" ∷ codes "x2" ∷ []) ∷ []
unfolding addfrompath_par1
scanned_set = refl

scanned_once : length scanned.0.subjmatches ≡ 1
unfolding addfrompath_par1
scanned_once = refl

scanned_names : scanned.1 ≡ (codes "x1", codes "x1") ∷ (codes "x2", codes "x2") ∷ []
unfolding addfrompath_par1
scanned_names = refl

pattern_escaped :
    subject_pattern scanner (codes "a.b") par1_extension ≡ codes "a\\.b\\.p(ar|[0-9]{2})"
unfolding subject_pattern
pattern_escaped = refl
