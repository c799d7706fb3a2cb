-- ===== src/Par/Counting.antt =====
-- What maybe_get_pxxs of a Par1Info counts is what it adds to the files to fetch.
use nget.Prelude.{
  ℕ, zero, suc, ◌+◌, ◌≡◌, List, [], ◌∷◌, false, inl, inr, Bool-cases, Option-cases, ltb, Text,
  length, arith,
}
use nget.Cache.{NntpFile}
use nget.Par.{Regex, Surroundings, NntpFilesU, addfile, ParSetInfo, ParXInfo}
use nget.Par.Sets.{Fetch, fetch_all, smallest_of, initial_pxx, initial_set, get_initial_set}
use nget.Par.Info.{fetch_sets, get_initial_pars}
use nget.Par.Pxxs.{equal_range, new_vol, insert_vol, keep_pxx, take_pxxs, get_pxxs}
use nget.Par.Weight.{weigh_fc, weigh-addfile}
use nget.Par.Rounds.{has_text, over_sets}
use nget.Par.Run.{
  Disk, Run, good_files, needed_of, finish_ok, with_got, repair_set, check_set, next_run,
  check_sets, check_badbasenames, reclaim, start_run, end_run, maybe_get_pxxs,
}

-- the number of files to fetch
abbrev pub one : NntpFile → ℕ
one f = 1

module _ (s : Surroundings) where
  count-fetch_all :
      (path temppath : Text) (fs : List NntpFile) (r : Fetch)
      → (fetch_all s path temppath fs r).count + weigh_fc one r.fc
        ≡ weigh_fc one (fetch_all s path temppath fs r).fc + r.count
  unfolding fetch_all
  count-fetch_all path temppath [] r = omega arith
  count-fetch_all path temppath (f ∷ fs) r = omega (
    arith,
    count-fetch_all path temppath fs
        (record { count = r.count + 1; fc = addfile s f path temppath false r.fc }),
    weigh-addfile one s f path temppath false r.fc,
  )

  count-initial_set :
      (path temppath : Text) (pars pxxs : List NntpFile) (fc : NntpFilesU)
      → (initial_set s path temppath pars pxxs fc).0.count + weigh_fc one fc
        ≡ weigh_fc one (initial_set s path temppath pars pxxs fc).0.fc
  unfolding initial_set initial_pxx
  count-initial_set path temppath [] [] fc = omega arith
  count-initial_set path temppath [] (f ∷ fs) fc =
      omega (arith, weigh-addfile one s (smallest_of s f 0 1 fs).1 path temppath false fc)
  count-initial_set path temppath (f ∷ fs) pxxs fc =
      omega (arith, count-fetch_all path temppath (f ∷ fs) (record { count = 0; fc = fc }))

  count-fetch_sets :
      (path temppath : Text) (ps : List (Text × ParSetInfo)) (r : Fetch)
      → (fetch_sets s path temppath ps r).0.count + weigh_fc one r.fc
        ≡ weigh_fc one (fetch_sets s path temppath ps r).0.fc + r.count
  unfolding fetch_sets get_initial_set
  count-fetch_sets path temppath [] r = omega arith
  count-fetch_sets path temppath ((name, p) ∷ ps) r = omega (
    arith,
    count-initial_set path temppath p.serverpars p.serverpxxs r.fc,
    count-fetch_sets path temppath ps (record {
      count = r.count + (get_initial_set s path temppath p r.fc).0.count;
      fc = (get_initial_set s path temppath p r.fc).0.fc;
    }),
  )

  count-get_initial_pars :
      (i : ParXInfo) (fc : NntpFilesU)
      → (get_initial_pars s i fc).0.count + weigh_fc one fc
        ≡ weigh_fc one (get_initial_pars s i fc).0.fc
  unfolding get_initial_pars
  count-get_initial_pars i fc = omega (
    arith,
    count-fetch_all i.path i.temppath i.serverpars (record { count = 0; fc = fc }),
    count-fetch_sets i.path i.temppath i.parsets
        (fetch_all s i.path i.temppath i.serverpars (record { count = 0; fc = fc })),
  )

  count-take_pxxs :
      (path temppath : Text) (num : ℕ) (matches : List Regex) (fs : List NntpFile) (cur : ℕ)
      (havevols : List ℕ) (fc : NntpFilesU)
      → (take_pxxs s path temppath num matches fs cur havevols fc).cur + weigh_fc one fc
        ≡ weigh_fc one (take_pxxs s path temppath num matches fs cur havevols fc).fc + cur
  unfolding take_pxxs
  count-take_pxxs path temppath num matches [] cur havevols fc = omega arith
  count-take_pxxs path temppath num matches (f ∷ fs) cur havevols fc =
      elim (Bool-cases (ltb cur num)) [
        | inr e ↦ rw e (omega arith)
        | inl e ↦ rw e (elim (Option-cases (new_vol havevols f.subject matches)) [
          | inl o ↦ rw (keep_pxx, o) (count-take_pxxs path temppath num matches fs cur havevols fc)
          | inr (v, o) ↦ rw o (
              omega (
                arith,
                count-take_pxxs path temppath num matches fs (suc cur) (insert_vol v havevols)
                    (addfile s f path temppath false fc),
                weigh-addfile one s f path temppath false fc,
              ))
        ])
      ]

  count-get_pxxs :
      (num : ℕ) (havevols : List ℕ) (key : Text) (i : ParXInfo) (fc : NntpFilesU)
      → (get_pxxs s num havevols key i fc).cur + weigh_fc one fc
        ≡ weigh_fc one (get_pxxs s num havevols key i fc).fc
  unfolding get_pxxs
  count-get_pxxs num havevols key i fc = ground (
    arith,
    count-take_pxxs i.path i.temppath num (equal_range key i.localpars.subjmatches) i.serverpxxs 0
        havevols fc,
  )

  -- the files to fetch are those from before, and those that are counted
  abbrev IsCounted : ℕ → Run → Type 0
  IsCounted before r = weigh_fc one r.fc ≡ before + r.total_added

  repair_set-IsCounted :
      (key : Text) (needed : ℕ) (goodvols : List ℕ) (before : ℕ) (r : Run)
      → IsCounted before r
      → IsCounted before (repair_set s key needed goodvols r)
  unfolding repair_set finish_ok with_got
  repair_set-IsCounted key zero goodvols before r h = h
  repair_set-IsCounted key (suc n) goodvols before r h =
      omega (arith, h, count-get_pxxs (suc n) goodvols key r.info r.fc)

  next_run-IsCounted :
      (d : Disk) (key : Text) (names : List Text) (before : ℕ) (r : Run)
      → IsCounted before r
      → IsCounted before (next_run s d key names r)
  unfolding next_run check_set
  next_run-IsCounted d key names before r h =
      elim (Bool-cases (has_text key r.info.finished_parsets)) [
        | inl e ↦ rw e h
        | inr e ↦
            rw e (repair_set-IsCounted key (needed_of d good.0 (length good.1)) good.1 before r h)
      ]
    where
      good : Text × List ℕ
      good = good_files d r.info.path names ([], [])

  check_sets-IsCounted :
      (d : Disk) (sets : List (Text × List Text)) (before : ℕ) (r : Run)
      → IsCounted before r
      → IsCounted before (check_sets s d sets r)
  unfolding check_sets over_sets
  check_sets-IsCounted d [] before r h = h
  check_sets-IsCounted d ((key, names) ∷ sets) before r h =
      check_sets-IsCounted d sets before (next_run s d key names r)
        (next_run-IsCounted d key names before r h)

  start_run-IsCounted :
      (d : Disk) (i : ParXInfo) (fc : NntpFilesU) → IsCounted (weigh_fc one fc) (start_run s d i fc)
  unfolding start_run
  start_run-IsCounted d i fc =
      omega (arith, count-get_initial_pars (reclaim s (record i { localpars = d.localpars })) fc)

  end_run-IsCounted : (before : ℕ) (r : Run) → IsCounted before r → IsCounted before (end_run r)
  unfolding end_run check_badbasenames
  end_run-IsCounted before r h = ground (arith, h)

  pub count-maybe_get_pxxs :
      (d : Disk) (i : ParXInfo) (fc : NntpFilesU)
      → IsCounted (weigh_fc one fc) (maybe_get_pxxs s d i fc)
  unfolding maybe_get_pxxs
  count-maybe_get_pxxs d i fc =
      end_run-IsCounted (weigh_fc one fc)
        (check_sets s d d.localpars.basefilenames (start_run s d i fc))
        (check_sets-IsCounted d d.localpars.basefilenames (weigh_fc one fc) (start_run s d i fc)
          (start_run-IsCounted d i fc))
