-- ===== src/Cache/Subject/Tests.antt =====
-- Runs of subjects, and the theorem on them at a concrete one.
use nget.Prelude.{◌≡◌, refl, negsuc, pos, [], ◌∷◌, Text, arith}
use nget.Decimal.{print_ulong}
use nget.Cache.Subject.{number_subject}
use nget.Cache.Subject.Numbered.{number_in, number_subject-numbered}

-- "a(2/13).b"
abbrev some_subject : Text
some_subject = 97 ∷ 40 ∷ 50 ∷ 47 ∷ 49 ∷ 51 ∷ 41 ∷ 46 ∷ 98 ∷ []

number_subject-numbered_example :
    number_subject some_subject
    ≡ (number_in 2 13 (46 ∷ 98 ∷ []) (97 ∷ []), 97 ∷ 40 ∷ 42 ∷ 47 ∷ 49 ∷ 51 ∷ 41 ∷ 46 ∷ 98 ∷ [])
unfolding print_ulong
number_subject-numbered_example =
    number_subject-numbered 2 13 (46 ∷ 98 ∷ []) (97 ∷ []) (λ e. ground arith) (ground arith)
      (omega arith) (omega arith) (omega arith)

-- "a(1/4294967297)" has one part: the total is cut to an int
cut_subject :
    (number_subject
      (97 ∷ 40 ∷ 49 ∷ 47 ∷ 52 ∷ 50 ∷ 57 ∷ 52 ∷ 57 ∷ 54 ∷ 55 ∷ 50 ∷ 57 ∷ 55 ∷ 41 ∷ [])).0.req
    ≡ pos 1
unfolding number_subject
cut_subject = refl

-- "a/b" has no number, and keeps what parsepnum returned
plain_subject : (number_subject (97 ∷ 47 ∷ 98 ∷ 99 ∷ [])).0.req ≡ negsuc 0
unfolding number_subject
plain_subject = refl
