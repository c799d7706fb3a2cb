-- ===== src/Par/Progress.antt =====
-- What maybe_get_pxxs of a Par1Info adds to the files to fetch comes off its own lists.
use nget.Prelude.{
  ℕ, zero, suc, ◌+◌, ◌≤◌, ◌≡◌, refl, ◌∙◌, List, [], ◌∷◌, ◌++◌, true, inl, inr, Bool-cases, Option,
  some, none, Text, length, arith,
}
use nget.Cache.{NntpFile}
use nget.Par.{Surroundings, NntpFilesU, ParSetInfo, ParXInfo}
use nget.Par.Sets.{release_unclaimed_pxxs}
use nget.Par.Info.{maybe_add_parfile1}
use nget.Par.Pxxs.{GotPxxs, get_pxxs}
use nget.Par.Weight.{
  weigh_files, weigh_set, weigh_sets, weigh_info, weigh_fc, weigh-append, weigh-get_initial_pars,
}
use nget.Par.Adding.{Once1, maybe_add_parfile1-Once}
use nget.Par.Volumes.{weigh-get_pxxs}
use nget.Par.Rounds.{has_text, over_sets}
use nget.Par.Run.{
  Disk, Run, release_all, or_same, add_unclaimed, good_files, needed_of, finish_parset, finish_ok,
  with_got, repair_set, check_set, next_run, check_sets, check_badbasenames, reclaim, start_run,
  end_run, maybe_get_pxxs,
}
use nget.Par.Counting.{one, count-maybe_get_pxxs}

module _ (w : NntpFile → ℕ) (s : Surroundings) where
  weigh-release_all :
      (ps : List (Text × ParSetInfo)) (fs : List NntpFile)
      → weigh_sets w (release_all ps fs).0 + weigh_files w (release_all ps fs).1
        ≡ weigh_sets w ps + weigh_files w fs
  unfolding release_all weigh_sets weigh_set weigh_files release_unclaimed_pxxs
  weigh-release_all [] fs = refl
  weigh-release_all ((name, p) ∷ ps) fs =
      omega (arith, weigh-release_all ps (fs ++ p.serverpxxs), weigh-append w fs p.serverpxxs)

  weigh-or_same :
      (f : NntpFile) (i : ParXInfo) (o : Option ParXInfo)
      → Once1 w f i o
      → weigh_info w (or_same i o) ≤ w f + weigh_info w i
  unfolding or_same Once1
  weigh-or_same f i none h = omega arith
  weigh-or_same f i (some i') h = omega (arith, h)

  weigh-add_unclaimed :
      (fs : List NntpFile) (i : ParXInfo)
      → weigh_info w (add_unclaimed s fs i) ≤ weigh_files w fs + weigh_info w i
  unfolding add_unclaimed weigh_files
  weigh-add_unclaimed [] i = omega arith
  weigh-add_unclaimed (f ∷ fs) i = omega (
    arith,
    weigh-or_same f i (maybe_add_parfile1 s f true i) (maybe_add_parfile1-Once w s f true i),
    weigh-add_unclaimed fs (or_same i (maybe_add_parfile1 s f true i)),
  )

  weigh-reclaim : (i : ParXInfo) → weigh_info w (reclaim s i) ≤ weigh_info w i
  unfolding reclaim weigh_info weigh_files
  weigh-reclaim i = omega (
    arith,
    weigh-release_all i.parsets [],
    weigh-add_unclaimed (release_all i.parsets []).1
        (record i { parsets = (release_all i.parsets []).0 }),
  )

  abbrev run_weight : Run → ℕ
  run_weight r = weigh_info w r.info + weigh_fc w r.fc

  weigh-with_got :
      (key : Text) (g : GotPxxs) (r : Run)
      → weigh_fc w g.fc + weigh_files w g.serverpxxs
        ≡ weigh_files w r.info.serverpxxs + weigh_fc w r.fc
      → run_weight (with_got key g r) ≡ run_weight r
  unfolding with_got finish_parset weigh_info
  weigh-with_got key g r h = ground (arith, h)

  weigh-repair_set :
      (key : Text) (needed : ℕ) (goodvols : List ℕ) (r : Run)
      → run_weight (repair_set s key needed goodvols r) ≡ run_weight r
  unfolding repair_set finish_ok weigh_info
  weigh-repair_set key zero goodvols r = refl
  weigh-repair_set key (suc n) goodvols r =
      weigh-with_got key (get_pxxs s (suc n) goodvols key r.info r.fc) r
        (weigh-get_pxxs w s (suc n) goodvols key r.info r.fc)

  weigh-next_run :
      (d : Disk) (key : Text) (names : List Text) (r : Run)
      → run_weight (next_run s d key names r) ≡ run_weight r
  unfolding next_run check_set
  weigh-next_run d key names r = elim (Bool-cases (has_text key r.info.finished_parsets)) [
    | inl e ↦ rw e refl
    | inr e ↦ rw e (weigh-repair_set key (needed_of d good.0 (length good.1)) good.1 r)
  ]
    where
      good : Text × List ℕ
      good = good_files d r.info.path names ([], [])

  weigh-check_sets :
      (d : Disk) (sets : List (Text × List Text)) (r : Run)
      → run_weight (check_sets s d sets r) ≡ run_weight r
  unfolding check_sets over_sets
  weigh-check_sets d [] r = refl
  weigh-check_sets d ((key, names) ∷ sets) r =
      weigh-check_sets d sets (next_run s d key names r) ∙ weigh-next_run d key names r

  weigh-end_run : (r : Run) → run_weight (end_run r) ≡ run_weight r
  unfolding end_run check_badbasenames weigh_info
  weigh-end_run r = ground arith

  weigh-start_run :
      (d : Disk) (i : ParXInfo) (fc : NntpFilesU)
      → run_weight (start_run s d i fc) ≤ weigh_info w i + weigh_fc w fc
  unfolding start_run
  weigh-start_run d i fc = omega (
    arith,
    weigh-get_initial_pars w s (reclaim s (record i { localpars = d.localpars })) fc,
    weigh-reclaim (record i { localpars = d.localpars }),
    localpars_weightless,
  )
    where
      localpars_weightless : weigh_info w (record i { localpars = d.localpars }) ≡ weigh_info w i
      localpars_weightless = unfold weigh_info in refl

  weigh-maybe_get_pxxs :
      (d : Disk) (i : ParXInfo) (fc : NntpFilesU)
      → run_weight (maybe_get_pxxs s d i fc) ≤ weigh_info w i + weigh_fc w fc
  unfolding maybe_get_pxxs
  weigh-maybe_get_pxxs d i fc = omega (
    arith,
    weigh-end_run (check_sets s d d.localpars.basefilenames (start_run s d i fc)),
    weigh-check_sets d d.localpars.basefilenames (start_run s d i fc),
    weigh-start_run d i fc,
  )

-- A call of maybe_get_pxxs of a Par1Info that returns n has added n files to those to fetch, and
-- the files on its lists and these n together are no more than the files on its lists before.
pub maybe_get_pxxs-Shrinks :
    (s : Surroundings) (d : Disk) (i : ParXInfo) (fc : NntpFilesU)
    → (weigh_fc one (maybe_get_pxxs s d i fc).fc
        ≡ weigh_fc one fc + (maybe_get_pxxs s d i fc).total_added)
      × (weigh_info one (maybe_get_pxxs s d i fc).info + (maybe_get_pxxs s d i fc).total_added
          ≤ weigh_info one i)
maybe_get_pxxs-Shrinks s d i fc = (
  count-maybe_get_pxxs s d i fc,
  omega (arith, count-maybe_get_pxxs s d i fc, weigh-maybe_get_pxxs one s d i fc),
)
