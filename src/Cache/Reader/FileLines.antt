-- ===== src/Cache/Reader/FileLines.antt =====
-- The line of a file, and the lines of its references.
use nget.Prelude.{◌≤◌, ◌≡◌, refl, pos, List, [], ◌∷◌, ◌++◌, some, none, Text, arith, ulong_max}
use nget.Decimal.{print_ulong, print_int}
use nget.Buffy.Tokens.{IsField}
use nget.Cache.{NntpFile}
use nget.Cache.Parts.Search.{IsSorted}
use nget.Cache.Writer.{starts_dot, reference_line, file_line}
use nget.Cache.Reader.{references_mode, ReadLog, ReadState, reads_on, tokens_of, read_reference}
use nget.Cache.Reader.Lines.{tokens_of-joined_fields, print_ulong-IsField, print_int-IsField}
use nget.Cache.Reader.Articles.{partial}
use nget.Cache.Reader.Passes.{AllPartsOk}

abbrev pub AllReferencesOk : List Text → Type 0
AllReferencesOk [] = Unit {0}
AllReferencesOk (r ∷ rs) = IsField 10 r × AllReferencesOk rs

abbrev pub with_references : NntpFile → List Text → NntpFile
with_references f rs = record f { base = record f.base { references = rs } }

pub read_reference-line :
    (r : Text) (f : NntpFile) (s : ReadState)
    → read_reference (reference_line r) f s
      ≡ reads_on (record s { nf = some (with_references f (f.references ++ r ∷ [])) })
unfolding read_reference reference_line starts_dot
read_reference-line [] f s = refl
read_reference-line (c ∷ []) f s = ground arith
read_reference-line (c ∷ d ∷ cs) f s = ground arith

pub reference_line-IsField : (r : Text) → IsField 10 r → IsField 10 (reference_line r)
unfolding reference_line starts_dot
reference_line-IsField [] v = tt
reference_line-IsField (c ∷ cs) v = ground arith

-- the state in which the references `rs` are read
abbrev pub in_references : NntpFile → List Text → ReadLog → ReadState
in_references f rs log = record {
  mode = references_mode;
  nf = some (with_references (partial f [] (pos 0)) rs);
  np = none;
  log = log;
}

-- a file whose numbers fit the fields, whose texts hold no tab and no end of a line, and whose parts
-- are in order
pub record IsFileWritable (group : Text) (f : NntpFile) : Type 0 where
  pub flags : f.flags ≤ ulong_max
  pub update : f.update ≤ ulong_max
  pub subject : IsField 9 f.subject
  pub author : IsField 9 f.author
  pub references : AllReferencesOk f.references
  pub sorted : IsSorted f.parts
  pub parts : AllPartsOk group f.parts

pub file_tokens :
    (f : NntpFile)
    → IsField 9 f.subject
    → IsField 9 f.author
    → tokens_of 7 (file_line f)
      ≡ some (
          print_int f.req
          ∷ print_ulong f.flags
          ∷ f.subject
          ∷ f.author
          ∷ print_int f.partoff
          ∷ print_int f.tailoff
          ∷ print_ulong f.update
          ∷ [])
unfolding file_line
file_tokens f v w =
    tokens_of-joined_fields (print_int f.req)
      (print_ulong f.flags
        ∷ f.subject
        ∷ f.author
        ∷ print_int f.partoff
        ∷ print_int f.tailoff
        ∷ print_ulong f.update
        ∷ [])
      (
        print_int-IsField f.req,
        (
          print_ulong-IsField f.flags,
          (
            v,
            (
              w,
              (
                print_int-IsField f.partoff,
                (print_int-IsField f.tailoff, (print_ulong-IsField f.update, tt)),
              ),
            ),
          ),
        ),
      )
