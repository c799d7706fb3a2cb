-- ===== src/Par/Wanted.antt =====
-- An optimistic get_pxxs fetches as many files as are wanted, or none.
use nget.Prelude.{
  ℕ, ◌≡◌, refl, List, [], ◌∷◌, true, false, inl, inr, ◌⊎◌, Bool-cases, ltb, ◌||◌, Option, some,
  none, Text, length, arith,
}
use nget.Cache.{NntpFile}
use nget.Par.{Regex, Surroundings, NntpFilesU, addfile, ParXInfo}
use nget.Par.Pxxs.{
  has_vol, insert_vol, equal_range, vol_of, note_avail, avail_in, available, unless_had, new_vol,
  keep_pxx, take_pxxs, get_pxxs,
}
use nget.Par.Volumes.{IsOnce, insert_new, take_pxxs-IsSoundGot}

-- havevols in the second loop has what is noted in the first
abbrev IsUnion : List ℕ → List ℕ → List ℕ → Type 0
IsUnion havevols before avail = (v : ℕ) → has_vol v havevols ≡ (has_vol v before || has_vol v avail)

-- what a file adds in the first loop and in the second
data SameStep (havevols before avail : List ℕ) (new : Option ℕ) (noted : List ℕ) : Type 0 where
  neither : new ≡ none → noted ≡ avail → SameStep havevols before avail new noted
  both :
      (v : ℕ)
      → new ≡ some v
      → has_vol v havevols ≡ false
      → noted ≡ v ∷ avail
      → SameStep havevols before avail new noted

same_step :
    (havevols before avail : List ℕ) (o : Option ℕ)
    → IsUnion havevols before avail
    → SameStep havevols before avail (unless_had havevols o none) (note_avail before o avail)
unfolding unless_had note_avail insert_vol
same_step havevols before avail none u = neither refl refl
same_step havevols before avail (some v) u = elim (Bool-cases (has_vol v havevols)) [
  | inl e ↦ neither (rw e refl) (ground (arith, u v, e))
  | inr e ↦ both v (rw e refl) e (ground (arith, u v, e))
]

same_file :
    (havevols before avail : List ℕ) (subject : Text) (r : Regex)
    → IsUnion havevols before avail
    → SameStep havevols before avail
        (new_vol havevols subject (r ∷ []))
        (avail_in before subject (r ∷ []) avail)
unfolding new_vol avail_in
same_file havevols before avail subject r u = same_step havevols before avail (vol_of (r subject)) u

IsUnion-more :
    (havevols before avail : List ℕ) (v : ℕ)
    → IsUnion havevols before avail
    → IsUnion (v ∷ havevols) before (v ∷ avail)
unfolding has_vol
IsUnion-more havevols before avail v u x = ground (arith, u x)

module _ (s : Surroundings) (path temppath : Text) (num : ℕ) (r : Regex) where
  take_pxxs-available :
      (fs : List NntpFile) (havevols before avail : List ℕ) (fc : NntpFilesU)
      → IsUnion havevols before avail
      → (take_pxxs s path temppath num (r ∷ []) fs (length avail) havevols fc).cur
        ≡ length (available num before (r ∷ []) fs avail)
  unfolding take_pxxs available
  take_pxxs-available [] havevols before avail fc u = refl
  take_pxxs-available (f ∷ fs) havevols before avail fc u =
      elim (Bool-cases (ltb (length avail) num)) [
        | inr e ↦ rw e refl
        | inl e ↦ rw e (elim (same_file havevols before avail f.subject r u) [
          | neither n a ↦ rw (keep_pxx, n, a) (take_pxxs-available fs havevols before avail fc u)
          | both v n new a ↦
              rw (n, a, insert_new v havevols new)
                (take_pxxs-available fs (v ∷ havevols) before (v ∷ avail)
                  (addfile s f path temppath false fc) (IsUnion-more havevols before avail v u))
        ])
      ]

module _ (s : Surroundings) (path temppath : Text) (num : ℕ) (r : Regex) where
  enough_cur :
      (fs : List NntpFile) (havevols : List ℕ) (fc : NntpFilesU)
      → IsOnce havevols
      → ltb (length (available num havevols (r ∷ []) fs [])) num ≡ false
      → (take_pxxs s path temppath num (r ∷ []) fs 0 havevols fc).cur ≡ num
  enough_cur fs havevols fc once e = ground (
    arith,
    e,
    take_pxxs-available s path temppath num r fs havevols havevols [] fc
        (λ v. unfold has_vol in ground arith),
    (take_pxxs-IsSoundGot s path temppath num (r ∷ []) fs 0 havevols fc once (omega arith)).1,
  )

-- Where the search is optimistic, one expression stands for the par set, and the volumes at hand are
-- listed once, get_pxxs gets as many files as are wanted, or none.
pub get_pxxs-all_or_none :
    (s : Surroundings) (num : ℕ) (havevols : List ℕ) (key : Text) (i : ParXInfo) (fc : NntpFilesU)
    (r : Regex)
    → s.autopar_optimistic ≡ true
    → equal_range key i.localpars.subjmatches ≡ r ∷ []
    → IsOnce havevols
    → ((get_pxxs s num havevols key i fc).cur ≡ 0) ⊎ ((get_pxxs s num havevols key i fc).cur ≡ num)
unfolding get_pxxs
get_pxxs-all_or_none s num havevols key i fc r optimistic one once =
    rw (optimistic, one)
      (elim (Bool-cases (ltb (length (available num havevols (r ∷ []) i.serverpxxs [])) num)) [
        | inl e ↦ rw e (inl refl)
        | inr e ↦ rw e (inr (enough_cur s i.path i.temppath num r i.serverpxxs havevols fc once e))
      ])
