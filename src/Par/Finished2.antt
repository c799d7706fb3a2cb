-- ===== src/Par/Finished2.antt =====
-- A call of Par2Info's maybe_get_pxxs that adds nothing has finished with every par set.
use nget.Prelude.{
  ℕ, zero, suc, ◌-◌, ◌≡◌, sym, subst, refl, ◌∙◌, List, [], Bool, true, false, inl, inr, Bool-cases,
  ◌==◌, ltb, if◌then◌else◌, Text, arith, length,
}
use nget.Par.{Surroundings, NntpFilesU, Par2Info}
use nget.Par.Packets.{Found, GotPackets, choose_packets}
use nget.Par.Extra.{
  SourceFile, get_extradata, with_base, packets_found, choose_or_give_up, or_else_choose,
  get_recoverypackets,
}
use nget.Par.Run.{finish_parset}
use nget.Par.Rounds.{
  has_text, AllFinished, has_text-append, has_text-last, IsRound, later_refl, finishing-IsRound,
  over_sets-AllFinished,
}
use nget.Par.Run2.{
  Disk2, Run2, Needs, join_all, needs_of, finish_ok2, finish2, with_packets, repair_set2,
  check_set2, next_run2, check_sets2, check_badbasenames2, start_run2, end_run2, maybe_get_pxxs2,
}

abbrev finished_of : Par2Info → List Text
finished_of i = i.base.finished_parsets

-- the search for packets finishes with nothing
finished_of-choose_or_give_up :
    (s : Surroundings) (num : ℕ) (found : Found) (i : Par2Info) (fc : NntpFilesU)
    → finished_of (choose_or_give_up s num found i fc).1 ≡ finished_of i
unfolding choose_or_give_up with_base choose_packets
finished_of-choose_or_give_up s num found i fc = ground arith

finished_of-get_extradata :
    (s : Surroundings) (num : ℕ) (sfs : List SourceFile) (i : Par2Info) (fc : NntpFilesU)
    → finished_of (get_extradata s num sfs i fc).1 ≡ finished_of i
unfolding get_extradata
finished_of-get_extradata s num sfs i fc = ground arith

finished_of-or_else_choose :
    (s : Surroundings) (num : ℕ) (found : Found) (g : GotPackets × Par2Info)
    → finished_of (or_else_choose s num found g).1 ≡ finished_of g.1
unfolding or_else_choose
finished_of-or_else_choose s num found (g, i) = elim (Bool-cases (g.cur == 0)) [
  | inl e ↦ rw e (finished_of-choose_or_give_up s num found i g.fc)
  | inr e ↦ rw e refl
]

either_finished :
    (b : Bool) (x y : GotPackets × Par2Info) (i : Par2Info)
    → finished_of x.1 ≡ finished_of i
    → finished_of y.1 ≡ finished_of i
    → finished_of (if b then x else y).1 ≡ finished_of i
either_finished true x y i h g = h
either_finished false x y i h g = g

finished_of-get_recoverypackets :
    (s : Surroundings) (num : ℕ) (have : List ℕ) (key : Text) (sfs : List SourceFile) (i : Par2Info)
    (fc : NntpFilesU)
    → finished_of (get_recoverypackets s num have key sfs i fc).1 ≡ finished_of i
unfolding get_recoverypackets
finished_of-get_recoverypackets s num have key sfs i fc =
    either_finished (ltb short num)
      (or_else_choose s num found (get_extradata s (num - short) sfs i fc))
      (choose_or_give_up s num found i fc) i
      (finished_of-or_else_choose s num found (get_extradata s (num - short) sfs i fc)
        ∙ finished_of-get_extradata s (num - short) sfs i fc)
      (finished_of-choose_or_give_up s num found i fc)
  where
    found : Found
    found = packets_found have key i.base

    short : ℕ
    short = length found.availpackets

abbrev Rounds2 : Text → Run2 → Run2 → Type 0
Rounds2 key r r' =
    IsRound key (finished_of r.info) r.total_added (finished_of r'.info) r'.total_added

with_packets-IsRound :
    (key : Text) (g : GotPackets × Par2Info) (r : Run2)
    → finished_of g.1 ≡ finished_of r.info
    → Rounds2 key r (with_packets key g r)
unfolding with_packets finish2 finish_parset
with_packets-IsRound key (g, i) r same = record {
  later = record {
    adds = omega arith;
    keeps = λ t h. ground (arith, h, same, has_text-append t key (finished_of i));
  };
  progress = λ h. ground (arith, has_text-last key (finished_of i));
}

repair_set2-IsRound :
    (s : Surroundings) (key : Text) (needs : Needs) (needed : ℕ) (r : Run2)
    → Rounds2 key r (repair_set2 s key needs needed r)
unfolding repair_set2 finish_ok2
repair_set2-IsRound s key needs zero r = finishing-IsRound key (finished_of r.info) r.total_added
repair_set2-IsRound s key needs (suc n) r =
    with_packets-IsRound key
      (get_recoverypackets s (suc n) needs.goodpackets key needs.sourcefiles r.info r.fc) r
      (finished_of-get_recoverypackets s (suc n) needs.goodpackets key needs.sourcefiles r.info
        r.fc)

next_run2-IsRound :
    (s : Surroundings) (d : Disk2) (key : Text) (names : List Text) (r : Run2)
    → Rounds2 key r (next_run2 s d key names r)
unfolding next_run2 check_set2
next_run2-IsRound s d key names r = elim (Bool-cases (has_text key (finished_of r.info))) [
  | inl e ↦
      rw e (record { later = later_refl (finished_of r.info) r.total_added; progress = λ h. e })
  | inr e ↦ rw e (repair_set2-IsRound s key needs needs.needed_packets r)
]
  where
    fullpaths : List Text
    fullpaths = join_all r.info.base.path names

    needs : Needs
    needs = needs_of d fullpaths [] fullpaths

total_added-end_run2 : (r : Run2) → (end_run2 r).total_added ≡ r.total_added
unfolding end_run2 check_badbasenames2
total_added-end_run2 r = ground arith

finished_of-end_run2 : (r : Run2) → finished_of (end_run2 r).info ≡ finished_of r.info
unfolding end_run2 check_badbasenames2
finished_of-end_run2 r = ground arith

-- Where maybe_get_pxxs of a Par2Info returns that it added nothing, every par set that has a par
-- file on the disk is finished with: the repairer can repair it, or it was given up.
pub maybe_get_pxxs2-AllFinished :
    (s : Surroundings) (d : Disk2) (i : Par2Info) (fc : NntpFilesU)
    → (maybe_get_pxxs2 s d i fc).total_added ≡ 0
    → AllFinished d.localpars.basefilenames (maybe_get_pxxs2 s d i fc).info.base.finished_parsets
unfolding maybe_get_pxxs2 check_sets2
maybe_get_pxxs2-AllFinished s d i fc h =
    subst (AllFinished d.localpars.basefilenames) (sym (finished_of-end_run2 checked)) (
      over_sets-AllFinished (λ r. finished_of r.info) (λ r. r.total_added) (next_run2 s d)
        (next_run2-IsRound s d) d.localpars.basefilenames (start_run2 s d i fc)
        (omega (arith, h, total_added-end_run2 checked)))
  where
    checked : Run2
    checked = check_sets2 s d d.localpars.basefilenames (start_run2 s d i fc)
