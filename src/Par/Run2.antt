-- ===== src/Par/Run2.antt =====
-- par.cc: Par2Info::maybe_get_pxxs. The repairer is what its Process leaves for a par file; it says
-- that a repair is not possible only where it has fewer recovery packets than blocks are missing.
use nget.Prelude.{
  ℕ, zero, suc, ◌+◌, ◌-◌, List, [], ◌∷◌, ◌++◌, true, ◌==◌, if◌then◌else◌, Option, some, none, Text,
  length,
}
use nget.Cache.{NntpFile}
use nget.Paths.{path_join}
use nget.Par.{Surroundings, NntpFilesU, LocalParFiles, Par2Info}
use nget.Par.Rounds.{has_text, over_sets}
use nget.Par.Info.{maybe_add_parfile2, get_initial_pars}
use nget.Par.Packets.{GotPackets}
use nget.Par.Extra.{SourceFile, get_recoverypackets}
use nget.Par.Pxxs.{insert_vol}
use nget.Par.Run.{release_all, finish_parset, bad_names}

pub data RepairResult : Type 0 where
  success : RepairResult
  repair_possible : RepairResult
  repair_not_possible : RepairResult
  failed : RepairResult

-- what Par2Repairer has when Process is done
pub record Repairer : Type 0 where
  pub result : RepairResult
  pub recovery_packets : List ℕ
  pub missingblockcount : ℕ
  pub sourcefiles : List SourceFile

pub record Disk2 : Type 0 where
  pub localpars : LocalParFiles
  pub process : Text → List Text → Repairer

pub record Run2 : Type 0 where
  pub info : Par2Info
  pub fc : NntpFilesU
  pub total_added : ℕ
  pub autopar_ok : ℕ
  pub autopar_error : ℕ

unfoldable pub or_same2 : Par2Info → Option Par2Info → Par2Info
or_same2 i none = i
or_same2 i (some i') = i'

unfoldable pub add_unclaimed2 : Surroundings → List NntpFile → Par2Info → Par2Info
unfolding or_same2 maybe_add_parfile2
add_unclaimed2 s [] i = i
add_unclaimed2 s (f ∷ fs) i = add_unclaimed2 s fs (or_same2 i (maybe_add_parfile2 s f true i))

-- fullpaths
unfoldable pub join_all : Text → List Text → List Text
unfolding path_join
join_all path [] = []
join_all path (n ∷ ns) = path_join path n ∷ join_all path ns

unfoldable pub insert_packets : List ℕ → List ℕ → List ℕ
unfolding insert_vol
insert_packets [] goodpackets = goodpackets
insert_packets (p ∷ ps) goodpackets = insert_packets ps (insert_vol p goodpackets)

-- goodpackets, needed_packets, and the source files of the last repairer
pub record Needs : Type 0 where
  pub goodpackets : List ℕ
  pub needed_packets : ℕ
  pub sourcefiles : List SourceFile

-- the loop over fullpaths: the first par file that the repairer can work with
unfoldable pub needs_from : Repairer → Needs → Needs
unfolding insert_packets
needs_from p rest = elim p.result [
  | success ↦ record {
    goodpackets = insert_packets p.recovery_packets [];
    needed_packets = 0;
    sourcefiles = p.sourcefiles;
  }
  | repair_possible ↦ record {
    goodpackets = insert_packets p.recovery_packets [];
    needed_packets = 0;
    sourcefiles = p.sourcefiles;
  }
  | repair_not_possible ↦ record {
    goodpackets = insert_packets p.recovery_packets [];
    needed_packets = p.missingblockcount - length p.recovery_packets;
    sourcefiles = p.sourcefiles;
  }
  | failed ↦ rest
]

unfoldable pub needs_of : Disk2 → List Text → List SourceFile → List Text → Needs
unfolding needs_from
needs_of d all last [] = record { goodpackets = []; needed_packets = 1; sourcefiles = last }
needs_of d all last (fn ∷ fns) =
    let p = d.process fn all in needs_from p (needs_of d all p.sourcefiles fns)

unfoldable pub finish_ok2 : Text → Run2 → Run2
finish_ok2 key r = record r {
  info = record r.info {
    base = record r.info.base {
      finished_parsets = r.info.base.finished_parsets ++ key ∷ [];
      finished_okcount = r.info.base.finished_okcount + 1;
    };
  };
  autopar_ok = r.autopar_ok + 1;
}

unfoldable pub finish2 : Text → Par2Info → Par2Info
unfolding finish_parset
finish2 key i = record i { base = finish_parset key i.base }

unfoldable pub with_packets : Text → GotPackets × Par2Info → Run2 → Run2
unfolding finish2
with_packets key (g, i) r = record {
  info = if g.cur == 0 then finish2 key i else i;
  fc = g.fc;
  total_added = r.total_added + g.cur;
  autopar_ok = r.autopar_ok;
  autopar_error = if g.cur == 0 then r.autopar_error + 1 else r.autopar_error;
}

unfoldable pub repair_set2 : Surroundings → Text → Needs → ℕ → Run2 → Run2
unfolding finish_ok2 with_packets get_recoverypackets
repair_set2 s key needs zero r = finish_ok2 key r
repair_set2 s key needs (suc n) r =
    with_packets key
      (get_recoverypackets s (suc n) needs.goodpackets key needs.sourcefiles r.info r.fc) r

-- a round of the loop over localpars.basefilenames
unfoldable pub check_set2 : Surroundings → Disk2 → Text → List Text → Run2 → Run2
unfolding join_all needs_of repair_set2
check_set2 s d key names r =
    let fullpaths = join_all r.info.base.path names in
    let needs = needs_of d fullpaths [] fullpaths in repair_set2 s key needs needs.needed_packets r

unfoldable pub next_run2 : Surroundings → Disk2 → Text → List Text → Run2 → Run2
unfolding has_text check_set2
next_run2 s d key names r =
    if has_text key r.info.base.finished_parsets then r else check_set2 s d key names r

unfoldable pub check_sets2 : Surroundings → Disk2 → List (Text × List Text) → Run2 → Run2
unfolding over_sets next_run2
check_sets2 s d sets r = over_sets (next_run2 s d) sets r

unfoldable pub check_badbasenames2 : Run2 → Run2
unfolding bad_names
check_badbasenames2 r =
    let local = r.info.base.localpars in
    let bad = bad_names local.badbasenames local.basenames in
    record r {
      info = record r.info {
        base = record r.info.base { localpars = record local { badbasenames = bad } };
      };
      autopar_error = r.autopar_error + length bad;
    }

unfoldable pub reclaim2 : Surroundings → Par2Info → Par2Info
unfolding release_all add_unclaimed2
reclaim2 s i =
    let (ps, unclaimedfiles) = release_all i.base.parsets [] in
    add_unclaimed2 s unclaimedfiles (record i { base = record i.base { parsets = ps } })

-- Par2Info::maybe_get_pxxs
unfoldable pub start_run2 : Surroundings → Disk2 → Par2Info → NntpFilesU → Run2
unfolding reclaim2 get_initial_pars
start_run2 s d i fc =
    let i' = reclaim2 s (record i { base = record i.base { localpars = d.localpars } }) in
    let (r, b) = get_initial_pars s i'.base fc in
    record {
      info = record i' { base = b };
      fc = r.fc;
      total_added = r.count;
      autopar_ok = 0;
      autopar_error = 0;
    }

unfoldable pub end_run2 : Run2 → Run2
unfolding check_badbasenames2
end_run2 r = if r.total_added == 0 then check_badbasenames2 r else r

unfoldable pub maybe_get_pxxs2 : Surroundings → Disk2 → Par2Info → NntpFilesU → Run2
unfolding start_run2 check_sets2 end_run2
maybe_get_pxxs2 s d i fc =
    end_run2 (check_sets2 s d d.localpars.basefilenames (start_run2 s d i fc))
