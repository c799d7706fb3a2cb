-- ===== src/Par/Info.antt =====
-- par.cc: where a file is noted, and the files that are fetched at the start.
use nget.Prelude.{
  ℕ, ◌+◌, List, [], ◌∷◌, Bool, true, false, not, leb, ◌==◌, ◌&&◌, ◌||◌, if◌then◌else◌, Option, some,
  none, Text, eq_text, lt_text, get_or,
}
use nget.Paths.{is_empty}
use nget.Cache.{NntpFile}
use nget.Par.{
  Regex, Surroundings, maybe_a_textpost, iscomplete, insert_server_file, NntpFilesU, ParSetInfo,
  ParXInfo, Par2Info,
}
use nget.Par.Sets.{addserverpar, addserverpxx, Fetch, fetch_all, get_initial_set}

-- parset(basename), and a change of what it points to; the map is in the order of the names
unfoldable pub with_parset :
    Text → (ParSetInfo → ParSetInfo) → List (Text × ParSetInfo) → List (Text × ParSetInfo)
unfolding eq_text lt_text
with_parset basename g [] = (basename, g (record { serverpars = []; serverpxxs = [] })) ∷ []
with_parset basename g ((name, p) ∷ ps) =
    if eq_text basename name
    then (name, g p) ∷ ps
    else if lt_text basename name
    then (basename, g (record { serverpars = []; serverpxxs = [] })) ∷ (name, p) ∷ ps
    else (name, p) ∷ with_parset basename g ps

-- the loop over localpars.subjmatches: the first that matches the subject
unfoldable pub first_match : Text → List (Text × Regex) → Option (List Text)
first_match subject [] = none
first_match subject ((key, regex) ∷ rs) = elim (regex subject) [
  | some subs ↦ some subs
  | none ↦ first_match subject rs
]

unfoldable pub first_char : Text → ℕ
first_char [] = 0
first_char (c ∷ cs) = c

unfoldable pub isalpha : ℕ → Bool
isalpha c = (leb 65 c && leb c 90) || (leb 97 c && leb c 122)

unfoldable pub drop_quote : Text → Text
drop_quote [] = []
drop_quote (c ∷ cs) = if c == 34 then cs else c ∷ cs

unfoldable pub add_par : NntpFile → ParXInfo → ParXInfo
unfolding insert_server_file
add_par f i = record i { serverpars = insert_server_file f i.serverpars }

unfoldable pub add_pxx : NntpFile → ParXInfo → ParXInfo
unfolding insert_server_file
add_pxx f i = record i { serverpxxs = insert_server_file f i.serverpxxs }

unfoldable pub add_to_parset : Bool → Text → NntpFile → ParXInfo → ParXInfo
unfolding with_parset drop_quote addserverpar addserverpxx
add_to_parset ispar basename f i = record i {
  parsets =
      with_parset (drop_quote basename) (λ p. if ispar then addserverpar f p else addserverpxx f p)
        i.parsets;
}

-- Par1Info::maybe_add_parfile; none where it returns false, and then nothing is changed
unfoldable pub add_new_par1 : NntpFile → Option (List Text) → ParXInfo → Option ParXInfo
unfolding add_to_parset isalpha first_char
add_new_par1 f none i = none
add_new_par1 f (some subs) i =
    some (add_to_parset (isalpha (first_char (get_or subs 2 []))) (get_or subs 1 []) f i)

unfoldable pub add_known_par1 :
    Surroundings → NntpFile → Option (List Text) → ParXInfo → Option ParXInfo
unfolding add_par add_pxx add_new_par1 isalpha first_char
add_known_par1 s f (some subs) i =
    some (if isalpha (first_char (get_or subs 1 [])) then add_par f i else add_pxx f i)
add_known_par1 s f none i = add_new_par1 f (s.parsubj_re f.subject) i

unfoldable pub maybe_add_parfile1 : Surroundings → NntpFile → Bool → ParXInfo → Option ParXInfo
unfolding maybe_a_textpost iscomplete first_match add_known_par1
maybe_add_parfile1 s f want_incomplete i =
    if maybe_a_textpost s f
    then none
    else if not want_incomplete && not (iscomplete s f)
    then none
    else add_known_par1 s f (first_match f.subject i.localpars.subjmatches) i

-- Par2Info::maybe_add_parfile
unfoldable pub add_packet_file : NntpFile → Text → Option (List Text) → Par2Info → Par2Info
unfolding add_to_parset
add_packet_file f basename (some subs) i = record i {
  base = add_to_parset false (get_or subs 1 []) f i.base;
}
add_packet_file f basename none i = record i { base = add_to_parset true basename f i.base }

unfoldable pub add_new_par2 :
    Surroundings → NntpFile → Bool → Option (List Text) → Par2Info → Option Par2Info
unfolding add_packet_file iscomplete insert_server_file
add_new_par2 s f want_incomplete (some subs) i =
    some (add_packet_file f (get_or subs 1 []) (s.par2pxxre (get_or subs 1 [])) i)
add_new_par2 s f want_incomplete none i =
    if not want_incomplete && not (iscomplete s f)
    then some (record i { serverextradata = insert_server_file f i.serverextradata })
    else none

unfoldable pub add_known_par2 :
    Surroundings → NntpFile → Bool → Option (List Text) → Par2Info → Option Par2Info
unfolding add_par add_pxx add_new_par2 is_empty
add_known_par2 s f want_incomplete (some subs) i =
    some (record i {
      base = if is_empty (get_or subs 1 []) then add_par f i.base else add_pxx f i.base;
    })
add_known_par2 s f want_incomplete none i =
    add_new_par2 s f want_incomplete (s.par2subj_re f.subject) i

unfoldable pub maybe_add_parfile2 : Surroundings → NntpFile → Bool → Par2Info → Option Par2Info
unfolding maybe_a_textpost first_match add_known_par2
maybe_add_parfile2 s f want_incomplete i =
    if maybe_a_textpost s f
    then none
    else add_known_par2 s f want_incomplete (first_match f.subject i.base.localpars.subjmatches) i

-- the loop over the parsets of ParXInfoBase::get_initial_pars
unfoldable pub fetch_sets :
    Surroundings → Text → Text → List (Text × ParSetInfo) → Fetch → Fetch × List (Text × ParSetInfo)
unfolding get_initial_set
fetch_sets s path temppath [] r = (r, [])
fetch_sets s path temppath ((name, p) ∷ ps) r =
    let (got, p') = get_initial_set s path temppath p r.fc in
    let (r', ps') =
      fetch_sets s path temppath ps (record { count = r.count + got.count; fc = got.fc }) in
    (r', (name, p') ∷ ps')

-- ParXInfoBase::get_initial_pars
unfoldable pub get_initial_pars : Surroundings → ParXInfo → NntpFilesU → Fetch × ParXInfo
unfolding fetch_all fetch_sets
get_initial_pars s i fc =
    let first = fetch_all s i.path i.temppath i.serverpars (record { count = 0; fc = fc }) in
    let (r, ps) = fetch_sets s i.path i.temppath i.parsets first in
    (r, record i { serverpars = []; parsets = ps })

-- ParInfo
pub record ParInfo : Type 0 where
  pub par1info : ParXInfo
  pub par2info : Par2Info

-- ParInfo::maybe_add_parfile: what it returns, and the object behind it
unfoldable pub or_par2 : ParInfo → Option ParXInfo → Option Par2Info → Bool × ParInfo
or_par2 i (some i1) added2 = (true, record i { par1info = i1 })
or_par2 i none (some i2) = (true, record i { par2info = i2 })
or_par2 i none none = (false, i)

unfoldable pub maybe_add_parfile : Surroundings → NntpFile → Bool → ParInfo → Bool × ParInfo
unfolding or_par2 maybe_add_parfile1 maybe_add_parfile2
maybe_add_parfile s f want_incomplete i =
    or_par2 i (maybe_add_parfile1 s f want_incomplete i.par1info)
      (maybe_add_parfile2 s f want_incomplete i.par2info)
