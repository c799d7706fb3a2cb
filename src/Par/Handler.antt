-- ===== src/Par/Handler.antt =====
-- par.h and par.cc: ParInfo and ParHandler, which know the par sets by the path of their files. The
-- files of a new path are what `scan1` and `scan2` find there.
use nget.Prelude.{
  ℕ, ◌+◌, ◌≡◌, refl, List, [], ◌∷◌, Bool, true, false, if◌then◌else◌, Text, eq_text, lt_text, arith,
  Bool-cases, inl, inr,
}
use nget.Cache.{NntpFile}
use nget.Par.{Surroundings, FileRetr, NntpFilesU, LocalParFiles, ParXInfo}
use nget.Par.Info.{ParInfo, maybe_add_parfile, get_initial_pars}
use nget.Par.Run.{Disk, maybe_get_pxxs}
use nget.Par.Run2.{Disk2, maybe_get_pxxs2}
use nget.Par.Weight.{weigh_files, weigh_sets, weigh_info, weigh_info2}
use nget.Par.Adding.{weigh_par, weigh-maybe_add_parfile}

-- the disk, path by path
pub record Disks : Type 0 where
  pub disk1 : Text → Disk
  pub disk2 : Text → Disk2

unfoldable pub new_parxinfo : LocalParFiles → Text → Text → ParXInfo
new_parxinfo localpars path temppath = record {
  serverpars = [];
  serverpxxs = [];
  finished_parsets = [];
  finished_okcount = 0;
  parsets = [];
  localpars = localpars;
  path = path;
  temppath = temppath;
}

-- ParInfo(path, temppath)
unfoldable pub new_parinfo : Disks → Text → Text → ParInfo
unfolding new_parxinfo
new_parinfo d path temppath = record {
  par1info = new_parxinfo (d.disk1 path).localpars path temppath;
  par2info = record {
    base = new_parxinfo (d.disk2 path).localpars path temppath;
    serverextradata = [];
  };
}

-- ParInfo::get_initial_pars
unfoldable pub par_initial : Surroundings → ParInfo → NntpFilesU → NntpFilesU × ParInfo
unfolding get_initial_pars
par_initial s i fc =
    let (r1, i1) = get_initial_pars s i.par1info fc in
    let (r2, i2) = get_initial_pars s i.par2info.base r1.fc in
    (r2.fc, record { par1info = i1; par2info = record i.par2info { base = i2 } })

-- ParInfo::maybe_get_pxxs
unfoldable pub par_pxxs : Surroundings → Disks → Text → ParInfo → NntpFilesU → NntpFilesU × ParInfo
unfolding maybe_get_pxxs maybe_get_pxxs2
par_pxxs s d path i fc =
    let r1 = maybe_get_pxxs s (d.disk1 path) i.par1info fc in
    let r2 = maybe_get_pxxs2 s (d.disk2 path) i.par2info r1.fc in
    (r2.fc, record { par1info = r1.info; par2info = r2.info })

-- ParHandler::maybe_add_parfile; parinfos is in the order of the paths
unfoldable pub add_at :
    Surroundings
    → NntpFile
    → Bool
    → Text
    → ParInfo
    → List (Text × ParInfo)
    → Bool × List (Text × ParInfo)
unfolding maybe_add_parfile
add_at s f want_incomplete path i rest =
    let (b, i') = maybe_add_parfile s f want_incomplete i in (b, (path, i') ∷ rest)

unfoldable pub put_before :
    Text × ParInfo → Bool × List (Text × ParInfo) → Bool × List (Text × ParInfo)
put_before p (b, ps) = (b, p ∷ ps)

unfoldable pub handler_add :
    Surroundings
    → Disks
    → NntpFile
    → Text
    → Text
    → Bool
    → List (Text × ParInfo)
    → Bool × List (Text × ParInfo)
unfolding add_at put_before new_parinfo eq_text lt_text
handler_add s d f path temppath want_incomplete [] =
    add_at s f want_incomplete path (new_parinfo d path temppath) []
handler_add s d f path temppath want_incomplete ((p, i) ∷ ps) =
    if eq_text path p
    then add_at s f want_incomplete p i ps
    else if lt_text path p
    then add_at s f want_incomplete path (new_parinfo d path temppath) ((p, i) ∷ ps)
    else put_before (p, i) (handler_add s d f path temppath want_incomplete ps)

-- ParHandler::get_initial_pars: par sets of a path without files to fetch are looked at now
unfoldable pub fetches_to : Text → List FileRetr → Bool
unfolding eq_text
fetches_to path [] = false
fetches_to path (r ∷ rs) = if eq_text r.path path then true else fetches_to path rs

unfoldable pub initial_at :
    Surroundings → Disks → List FileRetr → Text → ParInfo → NntpFilesU → NntpFilesU × ParInfo
unfolding fetches_to par_initial par_pxxs
initial_at s d rs path i fc =
    if fetches_to path rs then par_initial s i fc else par_pxxs s d path i fc

unfoldable pub initial_all :
    Surroundings
    → Disks
    → List FileRetr
    → List (Text × ParInfo)
    → NntpFilesU
    → NntpFilesU × List (Text × ParInfo)
unfolding initial_at
initial_all s d rs [] fc = (fc, [])
initial_all s d rs ((path, i) ∷ ps) fc =
    let (fc', i') = initial_at s d rs path i fc in
    let (fc'', ps') = initial_all s d rs ps fc' in (fc'', (path, i') ∷ ps')

unfoldable pub handler_initial :
    Surroundings → Disks → List (Text × ParInfo) → NntpFilesU → NntpFilesU × List (Text × ParInfo)
unfolding initial_all
handler_initial s d ps fc = initial_all s d fc.files ps fc

module _ (w : NntpFile → ℕ) where
  unfoldable pub weigh_handler : List (Text × ParInfo) → ℕ
  unfolding weigh_par
  weigh_handler [] = 0
  weigh_handler ((path, i) ∷ ps) = weigh_par w i + weigh_handler ps

  -- what a result adds to the weight
  abbrev pub noted : NntpFile → Bool → ℕ
  noted f b = if b then w f else 0

  weigh-new_parinfo :
      (d : Disks) (path temppath : Text) → weigh_par w (new_parinfo d path temppath) ≡ 0
  unfolding weigh_par new_parinfo weigh_info weigh_info2 weigh_files weigh_sets
  weigh-new_parinfo d path temppath = refl

  weigh-add_at :
      (s : Surroundings) (f : NntpFile) (want_incomplete : Bool) (path : Text) (i : ParInfo)
      (ps : List (Text × ParInfo))
      → weigh_handler (add_at s f want_incomplete path i ps).1
        ≡ noted f (add_at s f want_incomplete path i ps).0 + (weigh_par w i + weigh_handler ps)
  unfolding add_at weigh_handler
  weigh-add_at s f want_incomplete path i ps =
      omega (arith, weigh-maybe_add_parfile w s f want_incomplete i)

  -- A file that is handed to the handler for a path is noted once among the par sets of all paths
  -- where the handler says that it took it, and not at all where it says that it did not.
  pub weigh-handler_add :
      (s : Surroundings) (d : Disks) (f : NntpFile) (path temppath : Text) (want_incomplete : Bool)
      (ps : List (Text × ParInfo))
      → weigh_handler (handler_add s d f path temppath want_incomplete ps).1
        ≡ noted f (handler_add s d f path temppath want_incomplete ps).0 + weigh_handler ps
  unfolding handler_add put_before weigh_handler
  weigh-handler_add s d f path temppath want_incomplete [] = omega (
    arith,
    weigh-add_at s f want_incomplete path (new_parinfo d path temppath) [],
    weigh-new_parinfo d path temppath,
  )
  weigh-handler_add s d f path temppath want_incomplete ((p, i) ∷ ps) =
      elim (Bool-cases (eq_text path p)) [
        | inl e ↦ rw e (weigh-add_at s f want_incomplete p i ps)
        | inr e ↦ rw e (elim (Bool-cases (lt_text path p)) [
          | inl l ↦ rw l (
              omega (
                arith,
                weigh-add_at s f want_incomplete path (new_parinfo d path temppath) ((p, i) ∷ ps),
                weigh-new_parinfo d path temppath,
              ))
          | inr l ↦ rw l (omega (arith, weigh-handler_add s d f path temppath want_incomplete ps))
        ])
      ]
