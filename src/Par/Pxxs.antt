-- ===== src/Par/Pxxs.antt =====
-- par.cc: Par1Info::get_pxxs. A set of volume numbers is a List without repetitions.
use nget.Prelude.{
  ℕ, suc, ◌-◌, ◌%◌, ◌^◌, ℤ, pos, negsuc, List, [], ◌∷◌, Bool, false, ltb, ◌==◌, ◌&&◌, ◌||◌,
  if◌then◌else◌, Option, some, none, Text, eq_text, get_or, length,
}
use nget.Cache.{NntpFile}
use nget.Decimal.{atoi}
use nget.Par.{Regex, Surroundings, NntpFilesU, addfile, ParXInfo}

-- an int in a set<uint32_t>
unfoldable pub to_uint32 : ℤ → ℕ
to_uint32 (pos n) = n % 2 ^ 32
to_uint32 (negsuc n) = 2 ^ 32 - 1 - n % 2 ^ 32

unfoldable pub has_vol : ℕ → List ℕ → Bool
has_vol v [] = false
has_vol v (u ∷ us) = (v == u) || has_vol v us

unfoldable pub insert_vol : ℕ → List ℕ → List ℕ
unfolding has_vol
insert_vol v vols = if has_vol v vols then vols else v ∷ vols

-- localpars.subjmatches.equal_range(key)
unfoldable pub equal_range : Text → List (Text × Regex) → List Regex
unfolding eq_text
equal_range key [] = []
equal_range key ((k, r) ∷ rs) = if eq_text key k then r ∷ equal_range key rs else equal_range key rs

-- the volume that an expression finds in a subject
unfoldable pub vol_of : Option (List Text) → Option ℕ
unfolding to_uint32 atoi
vol_of none = none
vol_of (some subs) = some (to_uint32 (atoi (get_or subs 1 [])))

-- the first loop: the volumes that are on the servers and not at hand
unfoldable pub note_avail : List ℕ → Option ℕ → List ℕ → List ℕ
unfolding has_vol insert_vol
note_avail havevols none avail = avail
note_avail havevols (some v) avail = if has_vol v havevols then avail else insert_vol v avail

unfoldable pub avail_in : List ℕ → Text → List Regex → List ℕ → List ℕ
unfolding note_avail vol_of
avail_in havevols subject [] avail = avail
avail_in havevols subject (r ∷ rs) avail =
    avail_in havevols subject rs (note_avail havevols (vol_of (r subject)) avail)

unfoldable pub available : ℕ → List ℕ → List Regex → List NntpFile → List ℕ → List ℕ
unfolding avail_in
available num havevols matches [] avail = avail
available num havevols matches (f ∷ fs) avail =
    let more = available num havevols matches fs (avail_in havevols f.subject matches avail) in
    if ltb (length avail) num then more else avail

-- the loop over the expressions of the second loop: the first volume that is not at hand
unfoldable pub unless_had : List ℕ → Option ℕ → Option ℕ → Option ℕ
unfolding has_vol
unless_had havevols none rest = rest
unless_had havevols (some v) rest = if has_vol v havevols then rest else some v

unfoldable pub new_vol : List ℕ → Text → List Regex → Option ℕ
unfolding unless_had vol_of
new_vol havevols subject [] = none
new_vol havevols subject (r ∷ rs) =
    unless_had havevols (vol_of (r subject)) (new_vol havevols subject rs)

-- what the second loop has: cur, havevols, serverpxxs behind sfi, and the files to fetch
pub record GotPxxs : Type 0 where
  pub cur : ℕ
  pub havevols : List ℕ
  pub serverpxxs : List NntpFile
  pub fc : NntpFilesU

unfoldable pub keep_pxx : NntpFile → GotPxxs → GotPxxs
keep_pxx f g = record g { serverpxxs = f ∷ g.serverpxxs }

unfoldable pub take_pxxs :
    Surroundings → Text → Text → ℕ → List Regex → List NntpFile → ℕ → List ℕ → NntpFilesU → GotPxxs
unfolding new_vol keep_pxx addfile insert_vol
take_pxxs s path temppath num matches [] cur havevols fc = record {
  cur = cur;
  havevols = havevols;
  serverpxxs = [];
  fc = fc;
}
take_pxxs s path temppath num matches (f ∷ fs) cur havevols fc =
    if ltb cur num
    then elim (new_vol havevols f.subject matches) [
      | some v ↦
          take_pxxs s path temppath num matches fs (suc cur) (insert_vol v havevols)
            (addfile s f path temppath false fc)
      | none ↦ keep_pxx f (take_pxxs s path temppath num matches fs cur havevols fc)
    ]
    else record { cur = cur; havevols = havevols; serverpxxs = f ∷ fs; fc = fc }

-- Par1Info::get_pxxs
unfoldable pub get_pxxs : Surroundings → ℕ → List ℕ → Text → ParXInfo → NntpFilesU → GotPxxs
unfolding equal_range available take_pxxs
get_pxxs s num havevols key i fc =
    let matches = equal_range key i.localpars.subjmatches in
    let got = take_pxxs s i.path i.temppath num matches i.serverpxxs 0 havevols fc in
    if s.autopar_optimistic && ltb (length (available num havevols matches i.serverpxxs [])) num
    then record { cur = 0; havevols = havevols; serverpxxs = i.serverpxxs; fc = fc }
    else got
