-- ===== src/Grouplist/File/Total.antt =====
-- What read_group returns.
use nget.Prelude.{
  ℕ, suc, ◌≤◌, ◌≡◌, refl, List, [], ◌∷◌, Bool, true, false, if◌then◌else◌, Text, arith, length,
}
use nget.Grouplist.{is_dead}
use nget.Grouplist.File.{
  GroupLog, GroupMode, at_group, in_group, GroupResult, group_read, no_more_groups,
  unexpected_group_eof, at_group_eof, count_group, read_group_from, starts_dot_line,
}

-- a group that is returned is not dead, and fewer lines are left
abbrev pub IsLiving : ℕ → GroupResult → Type 0
IsLiving n (group_read a log rest) = (is_dead a ≡ false) × (length rest ≤ n)
IsLiving n (no_more_groups log) = Unit {0}
IsLiving n (unexpected_group_eof log) = Unit {0}

IsLiving-suc : (n : ℕ) (r : GroupResult) → IsLiving n r → IsLiving (suc n) r
IsLiving-suc n (group_read a log rest) v = (v.0, omega arith)
IsLiving-suc n (no_more_groups log) v = tt
IsLiving-suc n (unexpected_group_eof log) v = tt

at_group_eof-IsLiving : (n : ℕ) (dead : Bool) (log : GroupLog) → IsLiving n (at_group_eof dead log)
unfolding at_group_eof
at_group_eof-IsLiving n false log = tt
at_group_eof-IsLiving n true log = tt

either_result :
    (n : ℕ) (b : Bool) (x y : GroupResult)
    → (b ≡ true → IsLiving n x)
    → (b ≡ false → IsLiving n y)
    → IsLiving n (if b then x else y)
either_result n true x y v w = v refl
either_result n false x y v w = w refl

module _ (hasserver : ℕ → Bool) where
  pub read_group_from-IsLiving :
      (ls : List Text) (m : GroupMode) (log : GroupLog)
      → IsLiving (length ls) (read_group_from hasserver ls m log)
  unfolding read_group_from
  read_group_from-IsLiving [] (at_group dead) log = at_group_eof-IsLiving 0 dead log
  read_group_from-IsLiving [] (in_group a) log =
      either_result 0 (is_dead a) _ _ (λ e. at_group_eof-IsLiving 0 true (count_group a log))
        (λ e. (e, omega arith))
  read_group_from-IsLiving (l ∷ ls) (at_group dead) log =
      IsLiving-suc (length ls) _ (read_group_from-IsLiving ls _ _)
  read_group_from-IsLiving (l ∷ ls) (in_group a) log =
      either_result (suc (length ls)) (starts_dot_line l) _ _
        (λ e.
          either_result (suc (length ls)) (is_dead a) _ _
            (λ h. IsLiving-suc (length ls) _ (read_group_from-IsLiving ls _ _))
            (λ h. (h, omega arith)))
        (λ e. IsLiving-suc (length ls) _ (read_group_from-IsLiving ls _ _))
