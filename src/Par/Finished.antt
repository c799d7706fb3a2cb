-- ===== src/Par/Finished.antt =====
-- A call of maybe_get_pxxs that fetches nothing has finished with every par set.
use nget.Prelude.{
  ℕ, zero, suc, ◌≡◌, sym, subst, List, [], inl, inr, Bool-cases, Text, length, arith,
}
use nget.Par.{Surroundings, NntpFilesU, ParXInfo}
use nget.Par.Pxxs.{GotPxxs, get_pxxs}
use nget.Par.Rounds.{
  has_text, AllFinished, has_text-append, has_text-last, IsRound, later_refl, finishing-IsRound,
  over_sets-AllFinished,
}
use nget.Par.Run.{
  Disk, Run, good_files, needed_of, finish_parset, finish_ok, with_got, repair_set, check_set,
  next_run, check_sets, check_badbasenames, start_run, end_run, maybe_get_pxxs,
}

abbrev finished_of : Run → List Text
finished_of r = r.info.finished_parsets

-- the round that leads from a state to another
abbrev Rounds : Text → Run → Run → Type 0
Rounds key r r' = IsRound key (finished_of r) r.total_added (finished_of r') r'.total_added

with_got-IsRound : (key : Text) (g : GotPxxs) (r : Run) → Rounds key r (with_got key g r)
unfolding with_got finish_parset
with_got-IsRound key g r = record {
  later = record {
    adds = omega arith;
    keeps = λ t h. ground (arith, h, has_text-append t key r.info.finished_parsets);
  };
  progress = λ h. ground (arith, has_text-last key r.info.finished_parsets);
}

repair_set-IsRound :
    (s : Surroundings) (key : Text) (needed : ℕ) (goodvols : List ℕ) (r : Run)
    → Rounds key r (repair_set s key needed goodvols r)
unfolding repair_set finish_ok
repair_set-IsRound s key zero goodvols r = finishing-IsRound key (finished_of r) r.total_added
repair_set-IsRound s key (suc n) goodvols r =
    with_got-IsRound key (get_pxxs s (suc n) goodvols key r.info r.fc) r

next_run-IsRound :
    (s : Surroundings) (d : Disk) (key : Text) (names : List Text) (r : Run)
    → Rounds key r (next_run s d key names r)
unfolding next_run check_set
next_run-IsRound s d key names r = elim (Bool-cases (has_text key r.info.finished_parsets)) [
  | inl e ↦ rw e (record { later = later_refl (finished_of r) r.total_added; progress = λ h. e })
  | inr e ↦ rw e (
      repair_set-IsRound s key
        (needed_of d (good_files d r.info.path names ([], [])).0
          (length (good_files d r.info.path names ([], [])).1))
        (good_files d r.info.path names ([], [])).1 r)
]

total_added-end_run : (r : Run) → (end_run r).total_added ≡ r.total_added
unfolding end_run check_badbasenames
total_added-end_run r = ground arith

finished_parsets-end_run : (r : Run) → (end_run r).info.finished_parsets ≡ r.info.finished_parsets
unfolding end_run check_badbasenames
finished_parsets-end_run r = ground arith

-- Where maybe_get_pxxs of a Par1Info returns that it added no file, every par set that has a par
-- file on the disk is finished with: it was found to be in order, or given up.
pub maybe_get_pxxs-AllFinished :
    (s : Surroundings) (d : Disk) (i : ParXInfo) (fc : NntpFilesU)
    → (maybe_get_pxxs s d i fc).total_added ≡ 0
    → AllFinished d.localpars.basefilenames (maybe_get_pxxs s d i fc).info.finished_parsets
unfolding maybe_get_pxxs check_sets
maybe_get_pxxs-AllFinished s d i fc h =
    subst (AllFinished d.localpars.basefilenames) (sym (finished_parsets-end_run checked)) (
      over_sets-AllFinished finished_of (λ r. r.total_added) (next_run s d) (next_run-IsRound s d)
        d.localpars.basefilenames (start_run s d i fc)
        (omega (arith, h, total_added-end_run checked)))
  where
    checked : Run
    checked = check_sets s d d.localpars.basefilenames (start_run s d i fc)
