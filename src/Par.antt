-- ===== src/Par.antt =====
-- par.h and par.cc: which of the files on the servers are fetched to repair what was fetched. A
-- multimap is a List in the order of its keys; a regular expression is what it gives for a text:
-- the submatches, or none. A file's completeness is an exact fraction here.
pub mod Sets
pub mod Info
pub mod Weight
pub mod Adding
pub mod Pxxs
pub mod Volumes
pub mod Wanted
pub mod Packets
pub mod Extra
pub mod Chosen
pub mod Least
pub mod Rounds
pub mod Run
pub mod Run2
pub mod Finished2
pub mod Handler
mod Samples
mod Tests
pub mod Local
pub mod Counting
pub mod Progress
pub mod Finished
use nget.Prelude.{
  ℕ, ◌+◌, ◌*◌, ◌<◌, ℤ, pos, ltb_ℤ, leb_ℤ, eqb_ℤ, pos_part, List, [], ◌∷◌, Bool, true, false, ltb,
  leb, ◌==◌, ◌&&◌, ◌||◌, if◌then◌else◌, Option, Text, add_ulong, length,
}
use nget.Cache.{FileBase, Part, NntpFile}

abbrev pub Regex : Type 0
Regex = Text → Option (List Text)

-- what the code reads of the rest of the program: the sizes of a file on its best server, the
-- configuration, and the expressions for subjects
pub record Surroundings : Type 0 where
  pub bytes : NntpFile → ℕ
  pub lines : NntpFile → ℕ
  pub autopar_optimistic : Bool
  pub parsubj_re : Regex
  pub par2subj_re : Regex
  pub par2pxxre : Regex

-- c_nntp_file: tests of a file
unfoldable pub has_references : List Text → Bool
has_references [] = false
has_references (r ∷ rs) = true

unfoldable pub is_re : Text → Bool
is_re (a ∷ b ∷ c ∷ d ∷ rest) =
    (a == 114 || a == 82) && ((b == 101 || b == 69) && (c == 58 && d == 32))
is_re s = false

unfoldable pub is_a_reply : NntpFile → Bool
unfolding has_references is_re
is_a_reply f = has_references f.references || is_re f.subject

unfoldable pub maybe_a_textreply : Surroundings → NntpFile → Bool
unfolding is_a_reply
maybe_a_textreply s f = leb_ℤ f.have (pos 1) && (is_a_reply f && ltb (s.lines f) 1000)

unfoldable pub maybe_a_zerofile : NntpFile → Bool
maybe_a_zerofile f = eqb_ℤ f.req (pos 0) && (leb_ℤ (pos 0) f.partoff && eqb_ℤ f.have (pos 1))

unfoldable pub maybe_a_textpost : Surroundings → NntpFile → Bool
unfolding maybe_a_zerofile maybe_a_textreply
maybe_a_textpost s f = maybe_a_zerofile f || maybe_a_textreply s f

unfoldable pub iscomplete : Surroundings → NntpFile → Bool
unfolding maybe_a_textreply
iscomplete s f = leb_ℤ f.req f.have || maybe_a_textreply s f

-- badate() asserts that there is a part
unfoldable pub first_date : List Part → ℕ
first_date [] = 0
first_date (p ∷ ps) = p.date

unfoldable pub badate : NntpFile → ℕ
unfolding first_date
badate f = first_date f.parts

-- server_file_key: the completeness is the fraction have / req, or 1
unfoldable pub completeness : NntpFile → ℕ × ℕ
completeness f = if leb_ℤ (pos 1) f.req then (pos_part f.have, pos_part f.req) else (1, 1)

unfoldable pub key_lt : NntpFile → NntpFile → Bool
unfolding completeness badate
key_lt f g =
    let (a, b) = completeness f in
    let (c, d) = completeness g in
    ltb (c * b) (a * d) || ((a * d == c * b) && ltb (badate f) (badate g))

-- serverpars.insert(server_file_list_value(f)): behind the files with keys that are not greater
unfoldable pub insert_server_file : NntpFile → List NntpFile → List NntpFile
unfolding key_lt
insert_server_file f [] = f ∷ []
insert_server_file f (g ∷ gs) =
    let rest = insert_server_file f gs in if key_lt f g then f ∷ g ∷ gs else g ∷ rest

-- c_nntp_file_retr
pub record FileRetr : Type 0 where
  pub path : Text
  pub temppath : Text
  pub file : NntpFile
  pub dupecheck : Bool

-- c_nntp_files_u
pub record NntpFilesU : Type 0 where
  pub bytes : ℕ
  pub lines : ℕ
  pub files : List FileRetr

unfoldable pub insert_retr : FileRetr → List FileRetr → List FileRetr
unfolding badate
insert_retr r [] = r ∷ []
insert_retr r (q ∷ qs) =
    let rest = insert_retr r qs in
    if ltb (badate r.file) (badate q.file) then r ∷ q ∷ qs else q ∷ rest

-- c_nntp_files_u::addfile
unfoldable pub addfile : Surroundings → NntpFile → Text → Text → Bool → NntpFilesU → NntpFilesU
unfolding insert_retr
addfile s f path temppath dupecheck fc = record {
  bytes = add_ulong fc.bytes (s.bytes f);
  lines = add_ulong fc.lines (s.lines f);
  files =
      insert_retr (record { path = path; temppath = temppath; file = f; dupecheck = dupecheck })
        fc.files;
}

-- ParSetInfo
pub record ParSetInfo : Type 0 where
  pub serverpars : List NntpFile
  pub serverpxxs : List NntpFile

-- LocalParFiles
pub record LocalParFiles : Type 0 where
  pub subjmatches : List (Text × Regex)
  pub basenames : List (Text × List Text)
  pub basefilenames : List (Text × List Text)
  pub badbasenames : List Text

-- ParXInfoBase
pub record ParXInfo : Type 0 where
  pub serverpars : List NntpFile
  pub serverpxxs : List NntpFile
  pub finished_parsets : List Text
  pub finished_okcount : ℕ
  pub parsets : List (Text × ParSetInfo)
  pub localpars : LocalParFiles
  pub path : Text
  pub temppath : Text

-- Par2Info
pub record Par2Info : Type 0 where
  pub base : ParXInfo
  pub serverextradata : List NntpFile
