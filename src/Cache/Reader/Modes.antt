-- ===== src/Cache/Reader/Modes.antt =====
-- The modes of read_file: each has the file and the part that it is about.
use nget.Prelude.{
  ℕ, List, [], ◌∷◌, Bool, true, false, ◌==◌, if◌then◌else◌, Option, some, none, Text,
}
use nget.Decimal.{atoul}
use nget.Cache.{ServerArticle, Part, NntpFile}
use nget.Cache.Writer.{starts_dot}
use nget.Cache.Reader.{
  Mode, file_mode, references_mode, part_mode, server_article_mode, ReadLog, ReadState, ReadStep,
  reads_on, returns_file, asserts, line_text, tokens_of, invalid_line, read_article, article_step,
  drop_part, drop_empty, end_file, read_part, part_step_of, part_step, read_file_line,
  read_reference, mode_step, read_step, push_article,
}

-- the file and the part that the mode is about are there
abbrev pub HasMode : Mode → Option NntpFile → Option Part → Type 0
HasMode file_mode nf np = Unit {0}
HasMode references_mode none np = ⊥
HasMode references_mode (some f) np = Unit {0}
HasMode part_mode none np = ⊥
HasMode part_mode (some f) np = Unit {0}
HasMode server_article_mode none np = ⊥
HasMode server_article_mode (some f) none = ⊥
HasMode server_article_mode (some f) (some p) = Unit {0}

-- no assertion fails, and the next pass has its mode
abbrev pub IsSound : ReadStep → Type 0
IsSound (reads_on s) = HasMode s.mode s.nf s.np
IsSound (returns_file f log) = Unit {0}
IsSound asserts = ⊥

IsSound-if : (b : Bool) (x y : ReadStep) → IsSound x → IsSound y → IsSound (if b then x else y)
IsSound-if true x y v w = v
IsSound-if false x y v w = w

module _ (hasserver : ℕ → Bool) (group : Text) (now : ℕ) where
  read_article-IsSound :
      (toks : Option (List Text)) (p : Part) (f : NntpFile) (log : ReadLog)
      → IsSound (
          read_article hasserver group toks p f
            (record { mode = server_article_mode; nf = some f; np = some p; log = log }))
  unfolding read_article push_article invalid_line
  read_article-IsSound (some (a ∷ b ∷ c ∷ d ∷ [])) p f log =
      IsSound-if (hasserver (atoul a)) _ _ tt tt
  read_article-IsSound none p f log = tt
  read_article-IsSound (some []) p f log = tt
  read_article-IsSound (some (a ∷ [])) p f log = tt
  read_article-IsSound (some (a ∷ b ∷ [])) p f log = tt
  read_article-IsSound (some (a ∷ b ∷ c ∷ [])) p f log = tt
  read_article-IsSound (some (a ∷ b ∷ c ∷ d ∷ e ∷ more)) p f log = tt

  read_part-IsSound :
      (toks : Option (List Text)) (f : NntpFile) (np : Option Part) (log : ReadLog)
      → IsSound (read_part toks f (record { mode = part_mode; nf = some f; np = np; log = log }))
  unfolding read_part invalid_line
  read_part-IsSound (some (a ∷ b ∷ c ∷ [])) f np log = tt
  read_part-IsSound none f np log = tt
  read_part-IsSound (some []) f np log = tt
  read_part-IsSound (some (a ∷ [])) f np log = tt
  read_part-IsSound (some (a ∷ b ∷ [])) f np log = tt
  read_part-IsSound (some (a ∷ b ∷ c ∷ d ∷ more)) f np log = tt

  end_file-IsSound : (ps : List Part) (f : NntpFile) (s : ReadState) → IsSound (end_file ps f s)
  unfolding end_file
  end_file-IsSound [] f s = tt
  end_file-IsSound (p ∷ ps) f s = tt

  part_step_of-IsSound :
      (l : Text) (f : NntpFile) (np : Option Part) (log : ReadLog)
      → IsSound
          (part_step_of l (some f) (record { mode = part_mode; nf = some f; np = np; log = log }))
  unfolding part_step_of
  part_step_of-IsSound l f np log =
      IsSound-if (starts_dot l) _ _ (end_file-IsSound f.parts f _)
        (read_part-IsSound (tokens_of 3 l) f np log)

  part_step-IsSound :
      (l : Text) (f : NntpFile) (np : Option Part) (log : ReadLog)
      → IsSound (part_step now l f (record { mode = part_mode; nf = some f; np = np; log = log }))
  unfolding part_step drop_part drop_empty
  part_step-IsSound l f none log = part_step_of-IsSound l f none log
  part_step-IsSound l f (some p) log = of_articles p.articles
    where
      after : List ServerArticle → ReadState
      after sas =
          drop_empty now sas p f (record { mode = part_mode; nf = some f; np = some p; log = log })

      of_articles : (sas : List ServerArticle) → IsSound (part_step_of l (after sas).nf (after sas))
      of_articles [] = part_step_of-IsSound l _ none _
      of_articles (a ∷ sas) = part_step_of-IsSound l f (some p) log

  read_file_line-IsSound :
      (toks : Option (List Text)) (nf : Option NntpFile) (np : Option Part) (log : ReadLog)
      → IsSound (read_file_line toks (record { mode = file_mode; nf = nf; np = np; log = log }))
  unfolding read_file_line invalid_line
  read_file_line-IsSound (some (a ∷ b ∷ c ∷ d ∷ e ∷ f ∷ g ∷ [])) nf np log = tt
  read_file_line-IsSound none nf np log = tt
  read_file_line-IsSound (some []) nf np log = tt
  read_file_line-IsSound (some (a ∷ [])) nf np log = tt
  read_file_line-IsSound (some (a ∷ b ∷ [])) nf np log = tt
  read_file_line-IsSound (some (a ∷ b ∷ c ∷ [])) nf np log = tt
  read_file_line-IsSound (some (a ∷ b ∷ c ∷ d ∷ [])) nf np log = tt
  read_file_line-IsSound (some (a ∷ b ∷ c ∷ d ∷ e ∷ [])) nf np log = tt
  read_file_line-IsSound (some (a ∷ b ∷ c ∷ d ∷ e ∷ f ∷ [])) nf np log = tt
  read_file_line-IsSound (some (a ∷ b ∷ c ∷ d ∷ e ∷ f ∷ g ∷ h ∷ more)) nf np log = tt

  read_reference-IsSound :
      (l : Text) (f : NntpFile) (np : Option Part) (log : ReadLog)
      → IsSound
          (read_reference l f (record { mode = references_mode; nf = some f; np = np; log = log }))
  unfolding read_reference
  read_reference-IsSound [] f np log = tt
  read_reference-IsSound (c ∷ []) f np log = IsSound-if (c == 46) _ _ tt tt
  read_reference-IsSound (c ∷ d ∷ cs) f np log = tt

  mode_step-IsSound :
      (m : Mode) (nf : Option NntpFile) (np : Option Part) (l : Text) (log : ReadLog)
      → HasMode m nf np
      → IsSound (
          mode_step hasserver group now m nf np l
            (record { mode = m; nf = nf; np = np; log = log }))
  unfolding mode_step article_step
  mode_step-IsSound file_mode nf np l log v = read_file_line-IsSound (tokens_of 7 l) nf np log
  mode_step-IsSound references_mode none np l log v = absurd v
  mode_step-IsSound references_mode (some f) np l log v =
      read_reference-IsSound (line_text l) f np log
  mode_step-IsSound part_mode none np l log v = absurd v
  mode_step-IsSound part_mode (some f) np l log v = part_step-IsSound l f np log
  mode_step-IsSound server_article_mode none np l log v = absurd v
  mode_step-IsSound server_article_mode (some f) none l log v = absurd v
  mode_step-IsSound server_article_mode (some f) (some p) l log v =
      IsSound-if (starts_dot l) _ _ tt (read_article-IsSound (tokens_of 4 l) p f log)

  pub read_step-IsSound :
      (l : Text) (s : ReadState)
      → HasMode s.mode s.nf s.np
      → IsSound (read_step hasserver group now l s)
  unfolding read_step
  read_step-IsSound l s v = mode_step-IsSound s.mode s.nf s.np l _ v
