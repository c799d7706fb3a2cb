-- ===== src/Par/Volumes.antt =====
-- get_pxxs fetches volumes that are not at hand, each once.
use nget.Prelude.{
  ℕ, suc, ◌+◌, ◌≤◌, ◌≡◌, refl, subst, List, [], ◌∷◌, false, inl, inr, Bool-cases, Option-cases, ltb,
  ◌&&◌, Option, some, none, Text, length, arith,
}
use nget.Cache.{NntpFile}
use nget.Par.{Regex, Surroundings, NntpFilesU, addfile, ParXInfo}
use nget.Par.Pxxs.{
  has_vol, insert_vol, equal_range, vol_of, available, unless_had, new_vol, GotPxxs, keep_pxx,
  take_pxxs, get_pxxs,
}
use nget.Par.Weight.{weigh_files, weigh_fc, weigh-addfile}

-- no number twice
unfoldable pub IsOnce : List ℕ → Type 0
unfolding has_vol
IsOnce [] = Unit
IsOnce (v ∷ vs) = (has_vol v vs ≡ false) × IsOnce vs

abbrev IsNew : List ℕ → Option ℕ → Type 0
IsNew havevols none = Unit
IsNew havevols (some v) = has_vol v havevols ≡ false

unless_had-IsNew :
    (havevols : List ℕ) (o rest : Option ℕ)
    → IsNew havevols rest
    → IsNew havevols (unless_had havevols o rest)
unfolding unless_had
unless_had-IsNew havevols none rest h = h
unless_had-IsNew havevols (some v) rest h = elim (Bool-cases (has_vol v havevols)) [
  | inl e ↦ rw e h
  | inr e ↦ rw e e
]

new_vol-IsNew :
    (havevols : List ℕ) (subject : Text) (rs : List Regex)
    → IsNew havevols (new_vol havevols subject rs)
unfolding new_vol
new_vol-IsNew havevols subject [] = tt
new_vol-IsNew havevols subject (r ∷ rs) =
    unless_had-IsNew havevols (vol_of (r subject)) (new_vol havevols subject rs)
      (new_vol-IsNew havevols subject rs)

pub insert_new : (v : ℕ) (vs : List ℕ) → has_vol v vs ≡ false → insert_vol v vs ≡ v ∷ vs
unfolding insert_vol
insert_new v vs h = rw h refl

shift_one : (m n i j : ℕ) → m + suc i ≡ suc n + j → m + i ≡ n + j
shift_one m n i j h = omega arith

-- what the second loop comes to from cur and havevols
abbrev pub IsSoundGot : ℕ → ℕ → List ℕ → GotPxxs → Type 0
IsSoundGot num cur havevols g =
    IsOnce g.havevols × (g.cur ≤ num) × (length g.havevols + cur ≡ length havevols + g.cur)

one_more :
    (num cur v : ℕ) (havevols : List ℕ) (g : GotPxxs)
    → IsSoundGot num (suc cur) (v ∷ havevols) g
    → IsSoundGot num cur havevols g
one_more num cur v havevols g (once, le, same) = (once, le, shift_one _ _ _ _ same)

module _ (s : Surroundings) (path temppath : Text) (num : ℕ) (matches : List Regex) where
  pub take_pxxs-IsSoundGot :
      (fs : List NntpFile) (cur : ℕ) (havevols : List ℕ) (fc : NntpFilesU)
      → IsOnce havevols
      → cur ≤ num
      → IsSoundGot num cur havevols (take_pxxs s path temppath num matches fs cur havevols fc)
  unfolding take_pxxs
  take_pxxs-IsSoundGot [] cur havevols fc once le = (once, le, refl)
  take_pxxs-IsSoundGot (f ∷ fs) cur havevols fc once le = elim (Bool-cases (ltb cur num)) [
    | inr e ↦ rw e ((once, le, refl))
    | inl e ↦ rw e (elim (Option-cases (new_vol havevols f.subject matches)) [
      | inl o ↦ rw (keep_pxx, o) (take_pxxs-IsSoundGot fs cur havevols fc once le)
      | inr (v, o) ↦
          rw (o, insert_new v havevols (new v o))
            (one_more num cur v havevols
              (take_pxxs s path temppath num matches fs (suc cur) (v ∷ havevols)
                (addfile s f path temppath false fc))
              (take_pxxs-IsSoundGot fs (suc cur) (v ∷ havevols) (addfile s f path temppath false fc)
                (unfold IsOnce in (new v o, once)) (ground (arith, e))))
    ])
  ]
    where
      new : (v : ℕ) → new_vol havevols f.subject matches ≡ some v → has_vol v havevols ≡ false
      new v o = subst (IsNew havevols) o (new_vol-IsNew havevols f.subject matches)

  weigh-take_pxxs :
      (w : NntpFile → ℕ) (fs : List NntpFile) (cur : ℕ) (havevols : List ℕ) (fc : NntpFilesU)
      → weigh_fc w (take_pxxs s path temppath num matches fs cur havevols fc).fc
          + weigh_files w (take_pxxs s path temppath num matches fs cur havevols fc).serverpxxs
        ≡ weigh_files w fs + weigh_fc w fc
  unfolding take_pxxs weigh_files
  weigh-take_pxxs w [] cur havevols fc = omega arith
  weigh-take_pxxs w (f ∷ fs) cur havevols fc = elim (Bool-cases (ltb cur num)) [
    | inr e ↦ rw e (omega arith)
    | inl e ↦ rw e (elim (Option-cases (new_vol havevols f.subject matches)) [
      | inl o ↦ rw (keep_pxx, o) (omega (arith, weigh-take_pxxs w fs cur havevols fc))
      | inr (v, o) ↦ rw o (
          omega (
            arith,
            weigh-take_pxxs w fs (suc cur) (insert_vol v havevols)
                (addfile s f path temppath false fc),
            weigh-addfile w s f path temppath false fc,
          ))
    ])
  ]

-- From volumes at hand that are listed once, get_pxxs gets at most as many files as are wanted, each
-- for a volume of its own: the volumes at hand become more by the number of files, and stay listed
-- once.
pub get_pxxs-IsSoundGot :
    (s : Surroundings) (num : ℕ) (havevols : List ℕ) (key : Text) (i : ParXInfo) (fc : NntpFilesU)
    → IsOnce havevols
    → IsSoundGot num 0 havevols (get_pxxs s num havevols key i fc)
unfolding get_pxxs
get_pxxs-IsSoundGot s num havevols key i fc once =
    elim (Bool-cases
      (s.autopar_optimistic && ltb (length (available num havevols matches i.serverpxxs [])) num)) [
        | inl e ↦ rw e ((once, omega arith, refl))
        | inr e ↦ rw e (
            take_pxxs-IsSoundGot s i.path i.temppath num matches i.serverpxxs 0 havevols fc once
              (omega arith))
      ]
  where
    matches : List Regex
    matches = equal_range key i.localpars.subjmatches

-- The files that get_pxxs takes off serverpxxs are the files that it adds to those to fetch.
pub weigh-get_pxxs :
    (w : NntpFile → ℕ) (s : Surroundings) (num : ℕ) (havevols : List ℕ) (key : Text) (i : ParXInfo)
    (fc : NntpFilesU)
    → weigh_fc w (get_pxxs s num havevols key i fc).fc
        + weigh_files w (get_pxxs s num havevols key i fc).serverpxxs
      ≡ weigh_files w i.serverpxxs + weigh_fc w fc
unfolding get_pxxs
weigh-get_pxxs w s num havevols key i fc =
    elim (Bool-cases
      (s.autopar_optimistic && ltb (length (available num havevols matches i.serverpxxs [])) num)) [
        | inl e ↦ rw e (omega arith)
        | inr e ↦
            rw e (weigh-take_pxxs s i.path i.temppath num matches w i.serverpxxs 0 havevols fc)
      ]
  where
    matches : List Regex
    matches = equal_range key i.localpars.subjmatches
