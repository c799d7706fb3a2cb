-- ===== src/Cache/Reader/RoundTrip.antt =====
-- The lines of a file, read back.
use nget.Prelude.{
  ℕ, ◌≤◌, ◌≡◌, refl, ap, sym, ◌∙◌, ℤ, pos, negsuc, ◌<ℤ◌, suc, List, [], ◌∷◌, ◌++◌, Bool, none, Text,
  arith, ulong_max, append_assoc, append_nil,
}
use nget.Decimal.RoundTrip.{atoul-print_ulong, atoi-print_int}
use nget.Buffy.Tokens.{IsField}
use nget.Cache.{Part, NntpFile}
use nget.Cache.Parts.Search.{IsSorted, Rising}
use nget.Cache.Writer.{dot_line, part_lines, reference_line, reference_lines, file_line, file_lines}
use nget.Cache.Reader.{
  file_mode, ReadLog, reads_on, line_text, read_reference, read_file_line, mode_step, read_step,
  read_on, read_loop, read_file, drop_part,
}
use nget.Cache.Reader.Lines.{line_text-IsField}
use nget.Cache.Reader.Articles.{partial, behind_part, counted_line}
use nget.Cache.Reader.Passes.{have_behind, kept_parts, finish, part_pass, IsSettled}
use nget.Cache.Reader.Loop.{read_parts, StandsBehind, AllRead, Reads}
use nget.Cache.Reader.FileLines.{
  AllReferencesOk, with_references, in_references, IsFileWritable, read_reference-line,
  reference_line-IsField, file_tokens,
}

module _ (hasserver : ℕ → Bool) (group : Text) (now : ℕ) where
  abbrev counted : ReadLog → ReadLog
  counted log = counted_line hasserver group now log

  references_end :
      (f : NntpFile) (rs : List Text) (log : ReadLog)
      → read_step hasserver group now dot_line (in_references f rs log)
        ≡ reads_on
            (behind_part hasserver group now (with_references f rs) [] (pos 0) none (counted log))
  unfolding read_step mode_step read_reference line_text
  references_end f rs log = refl

  reference_pass :
      (f : NntpFile) (rs : List Text) (r : Text) (log : ReadLog)
      → IsField 10 r
      → read_step hasserver group now (reference_line r) (in_references f rs log)
        ≡ reads_on (in_references f (rs ++ r ∷ []) (counted log))
  unfolding read_step mode_step
  reference_pass f rs r log v =
      ap
        (λ t.
          read_reference t (with_references (partial f [] (pos 0)) rs)
            (in_references f rs (counted log)))
        (line_text-IsField (reference_line r) (reference_line-IsField r v))
      ∙ read_reference-line r (with_references (partial f [] (pos 0)) rs)
          (in_references f rs (counted log))

  read_references :
      (more : List Text) (f : NntpFile) (rs : List Text) (tail : List Text) (log : ReadLog)
      → AllReferencesOk more
      → (log' : ReadLog) × (read_loop hasserver group now
            (reference_lines more tail)
            (in_references f rs log)
          ≡ read_loop hasserver group now tail (
              behind_part hasserver group now
                (with_references f (rs ++ more))
                []
                (pos 0)
                none
                log'))
  unfolding read_loop read_on reference_lines
  read_references [] f rs tail log v = (
    counted log,
    ap (λ r. read_on hasserver group now r tail (λ s. read_loop hasserver group now tail s))
          (references_end f rs log)
        ∙ ap
            (λ xs. read_loop hasserver group now tail (
              behind_part hasserver group now (with_references f xs) [] (pos 0) none (counted log)))
            (sym (append_nil rs)),
  )
  read_references (r ∷ more) f rs tail log v =
      let (log', same) = read_references more f (rs ++ r ∷ []) tail (counted log) v.1 in
      (
        log',
        ap
              (λ x.
                read_on hasserver group now x (reference_lines more tail)
                  (λ s. read_loop hasserver group now (reference_lines more tail) s))
              (reference_pass f rs r log v.0)
            ∙ same
            ∙ ap
                (λ xs.
                  read_loop hasserver group now tail
                    (behind_part hasserver group now (with_references f xs) [] (pos 0) none log'))
                (append_assoc rs (r ∷ []) more),
      )

  file_pass :
      (f : NntpFile) (log : ReadLog)
      → f.flags ≤ ulong_max
      → f.update ≤ ulong_max
      → IsField 9 f.subject
      → IsField 9 f.author
      → read_step hasserver group now
          (file_line f)
          (record { mode = file_mode; nf = none; np = none; log = log })
        ≡ reads_on (in_references f [] (counted log))
  unfolding read_step mode_step read_file_line
  file_pass f log b u v w =
      rw
        (
          file_tokens f v w,
          atoi-print_int f.req,
          atoul-print_ulong f.flags b,
          atoi-print_int f.partoff,
          atoi-print_int f.tailoff,
          atoul-print_ulong f.update u,
        )
        refl

  below : (m : ℤ) → (n : ℤ) × (n <ℤ m)
  below (pos k) = (negsuc 0, ground arith)
  below (negsuc k) = (negsuc (suc k), ground arith)

  below_all : (ps : List Part) → IsSorted ps → (n : ℤ) × Rising n ps
  below_all [] v = (pos 0, tt)
  below_all (p ∷ ps) v = let (n, h) = below p.partnum in (n, (h, v))

  -- What read_file does with the lines that the writer makes of a file whose numbers fit their types,
  -- whose texts hold no separator, whose articles are of the group and whose parts are in order: the
  -- file comes back with exactly the articles of servers that are configured and without the parts
  -- that have none left, and the lines behind it are left; a file without any part left is skipped
  -- with a warning. The count `have` is that of all the parts written, the dropped ones included.
  pub read_file-file_lines :
      (f : NntpFile) (tail : List Text) (log : ReadLog)
      → IsFileWritable group f
      → (log' : ReadLog) × (read_file hasserver group now (file_lines f tail) log
          ≡ finish hasserver group now
              (kept_parts hasserver group now f.parts)
              (partial f
                (kept_parts hasserver group now f.parts)
                (have_behind f.req f.parts (pos 0)))
              log'
              tail)
  unfolding read_file read_loop read_on file_lines AllRead Reads StandsBehind IsSettled drop_part
  read_file-file_lines f tail log v =
      let (log1, references) =
        read_references f.references f [] (part_lines f.parts tail) (counted log) v.references in
      let (n, rising) = below_all f.parts v.sorted in
      let (log2, parts) =
        read_parts hasserver group now f f.parts tail v.parts n [] (pos 0) none (counted log1)
          (behind_part hasserver group now f [] (pos 0) none log1) tt tt rising
          (λ l. part_pass hasserver group now f [] (pos 0) none l log1 (λ g s. refl)) in
      (
        log2,
        ap
              (λ r.
                read_on hasserver group now r
                  (reference_lines f.references (part_lines f.parts tail))
                  (λ s.
                    read_loop hasserver group now
                      (reference_lines f.references (part_lines f.parts tail)) s))
              (file_pass f log v.flags v.update v.subject v.author)
            ∙ references
            ∙ parts,
      )
