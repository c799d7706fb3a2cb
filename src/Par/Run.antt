-- ===== src/Par/Run.antt =====
-- par.cc: Par1Info::maybe_get_pxxs, which is called after each run of retrievals.
use nget.Prelude.{
  ℕ, zero, suc, ◌+◌, ℤ, pos, ◌-ℤ◌, pos_part, List, [], ◌∷◌, ◌++◌, Bool, true, false, ltb, ◌==◌,
  if◌then◌else◌, Option, some, none, Text, length,
}
use nget.Cache.{NntpFile}
use nget.Paths.{path_join, is_empty}
use nget.Par.{Surroundings, NntpFilesU, ParSetInfo, LocalParFiles, ParXInfo}
use nget.Par.Rounds.{has_text, over_sets}
use nget.Par.Sets.{release_unclaimed_pxxs}
use nget.Par.Info.{maybe_add_parfile1, get_initial_pars}
use nget.Par.Pxxs.{insert_vol, GotPxxs, get_pxxs}

-- what is found on the disk: localpars behind addfrompath_par1, the volume number of a par file
-- that is good, and the number of its files that are bad or missing
pub record Disk : Type 0 where
  pub localpars : LocalParFiles
  pub parfile_ok : Text → Option ℕ
  pub parfile_check : Text → ℤ

-- the object, the files to fetch, total_added, and how often a status was set
pub record Run : Type 0 where
  pub info : ParXInfo
  pub fc : NntpFilesU
  pub total_added : ℕ
  pub autopar_ok : ℕ
  pub autopar_error : ℕ

-- the loop over parsets that fills unclaimedfiles
unfoldable pub release_all :
    List (Text × ParSetInfo) → List NntpFile → List (Text × ParSetInfo) × List NntpFile
unfolding release_unclaimed_pxxs
release_all [] unclaimedfiles = ([], unclaimedfiles)
release_all ((name, p) ∷ ps) unclaimedfiles =
    let (p', more) = release_unclaimed_pxxs p unclaimedfiles in
    let (ps', all) = release_all ps more in ((name, p') ∷ ps', all)

-- the loop over unclaimedfiles; what maybe_add_parfile returns is only asserted
unfoldable pub or_same : ParXInfo → Option ParXInfo → ParXInfo
or_same i none = i
or_same i (some i') = i'

unfoldable pub add_unclaimed : Surroundings → List NntpFile → ParXInfo → ParXInfo
unfolding or_same maybe_add_parfile1
add_unclaimed s [] i = i
add_unclaimed s (f ∷ fs) i = add_unclaimed s fs (or_same i (maybe_add_parfile1 s f true i))

-- the loop over the files of a par set: goodpar and goodvols
unfoldable pub good_file : Text → Option ℕ → Text × List ℕ → Text × List ℕ
unfolding insert_vol
good_file fn none (goodpar, goodvols) = (goodpar, goodvols)
good_file fn (some vol) (goodpar, goodvols) =
    (fn, if ltb 0 vol then insert_vol vol goodvols else goodvols)

unfoldable pub good_files : Disk → Text → List Text → Text × List ℕ → Text × List ℕ
unfolding good_file path_join
good_files d path [] good = good
good_files d path (name ∷ names) good =
    good_files d path names
      (good_file (path_join path name) (d.parfile_ok (path_join path name)) good)

-- needed
unfoldable pub needed_of : Disk → Text → ℕ → ℕ
unfolding is_empty ◌-ℤ◌
needed_of d goodpar vols =
    if is_empty goodpar then 1 else pos_part (d.parfile_check goodpar -ℤ pos vols)

unfoldable pub finish_parset : Text → ParXInfo → ParXInfo
finish_parset key i = record i { finished_parsets = i.finished_parsets ++ key ∷ [] }

unfoldable pub finish_ok : Text → Run → Run
finish_ok key r = record r {
  info = record r.info {
    finished_parsets = r.info.finished_parsets ++ key ∷ [];
    finished_okcount = r.info.finished_okcount + 1;
  };
  autopar_ok = r.autopar_ok + 1;
}

-- what get_pxxs changes, and what is done with parset_added
unfoldable pub with_got : Text → GotPxxs → Run → Run
unfolding finish_parset
with_got key g r =
    let i = record r.info { serverpxxs = g.serverpxxs } in
    record {
      info = if g.cur == 0 then finish_parset key i else i;
      fc = g.fc;
      total_added = r.total_added + g.cur;
      autopar_ok = r.autopar_ok;
      autopar_error = if g.cur == 0 then r.autopar_error + 1 else r.autopar_error;
    }

unfoldable pub repair_set : Surroundings → Text → ℕ → List ℕ → Run → Run
unfolding finish_ok with_got get_pxxs
repair_set s key zero goodvols r = finish_ok key r
repair_set s key (suc n) goodvols r = with_got key (get_pxxs s (suc n) goodvols key r.info r.fc) r

-- a round of the loop over localpars.basefilenames
unfoldable pub check_set : Surroundings → Disk → Text → List Text → Run → Run
unfolding good_files needed_of repair_set
check_set s d key names r =
    let (goodpar, goodvols) = good_files d r.info.path names ([], []) in
    repair_set s key (needed_of d goodpar (length goodvols)) goodvols r

unfoldable pub next_run : Surroundings → Disk → Text → List Text → Run → Run
unfolding has_text check_set
next_run s d key names r =
    if has_text key r.info.finished_parsets then r else check_set s d key names r

unfoldable pub check_sets : Surroundings → Disk → List (Text × List Text) → Run → Run
unfolding over_sets next_run
check_sets s d sets r = over_sets (next_run s d) sets r

-- localpars.check_badbasenames(): the names of sets are taken out, the others are errors
unfoldable pub known_name : Text → List (Text × List Text) → Bool
unfolding has_text
known_name t [] = false
known_name t ((key, names) ∷ sets) = if has_text t names then true else known_name t sets

unfoldable pub bad_names : List Text → List (Text × List Text) → List Text
unfolding known_name
bad_names [] sets = []
bad_names (t ∷ ts) sets = if known_name t sets then bad_names ts sets else t ∷ bad_names ts sets

unfoldable pub check_badbasenames : Run → Run
unfolding bad_names
check_badbasenames r =
    let bad = bad_names r.info.localpars.badbasenames r.info.localpars.basenames in
    record r {
      info = record r.info { localpars = record r.info.localpars { badbasenames = bad } };
      autopar_error = r.autopar_error + length bad;
    }

-- the files of parsets that no local par file claims go through maybe_add_parfile again
unfoldable pub reclaim : Surroundings → ParXInfo → ParXInfo
unfolding release_all add_unclaimed
reclaim s i =
    let (ps, unclaimedfiles) = release_all i.parsets [] in
    add_unclaimed s unclaimedfiles (record i { parsets = ps })

-- Par1Info::maybe_get_pxxs
unfoldable pub start_run : Surroundings → Disk → ParXInfo → NntpFilesU → Run
unfolding reclaim get_initial_pars
start_run s d i fc =
    let (r, i') = get_initial_pars s (reclaim s (record i { localpars = d.localpars })) fc in
    record { info = i'; fc = r.fc; total_added = r.count; autopar_ok = 0; autopar_error = 0 }

unfoldable pub end_run : Run → Run
unfolding check_badbasenames
end_run r = if r.total_added == 0 then check_badbasenames r else r

unfoldable pub maybe_get_pxxs : Surroundings → Disk → ParXInfo → NntpFilesU → Run
unfolding start_run check_sets end_run
maybe_get_pxxs s d i fc = end_run (check_sets s d d.localpars.basefilenames (start_run s d i fc))
