-- ===== src/Par/Tests.antt =====
-- Runs of the choice of par files, and its theorems at concrete files.
use Prim.Native.Nat.{min}
use nget.Prelude.{
  ◌-ℤ◌, ℕ, ◌+◌, ◌≤◌, ◌≡◌, refl, pos, [], ◌∷◌, true, ◌⊎◌, some, codes, length, arith, List, get_or,
  ◌-◌, ap, Option, Text, none,
}
use nget.Knapsack.Optimum.{reversed_onto, chosen_value, chosen_size}
use nget.Knapsack.Chosen.{int_max, knapsack_minsize, sum_values}
use nget.Knapsack.Walk.{value_sum}
use nget.Par.{ParXInfo, Par2Info}
use nget.Par.Pxxs.{equal_range, get_pxxs, to_uint32}
use nget.Par.Volumes.{IsOnce, IsSoundGot, get_pxxs-IsSoundGot}
use nget.Par.Wanted.{get_pxxs-all_or_none}
use nget.Par.Packets.{choose_packets, endpacket_of}
use nget.Par.Extra.{packets_found}
use nget.Par.Chosen.{choose_packets-enough}
use nget.Par.Least.{AllCount, choose_packets-least}
use nget.Decimal.{atoi}
use nget.Cache.{NntpFile}
use nget.Par.Rounds.{AllFinished}
use nget.Par.Run.{Disk, maybe_get_pxxs}
use nget.Par.Run2.{RepairResult, Disk2, maybe_get_pxxs2}
use nget.Par.Finished.{maybe_get_pxxs-AllFinished}
use nget.Par.Finished2.{maybe_get_pxxs2-AllFinished}
use nget.Par.Weight.{weigh_fc, weigh_info}
use nget.Par.Counting.{one}
use nget.Par.Progress.{maybe_get_pxxs-Shrinks}
use nget.Par.Handler.{Disks, handler_add, weigh_handler, noted, weigh-handler_add}
use nget.Par.Samples.{
  file_named, info_with, local_with, nothing_to_fetch, packet_re, surroundings, two_volumes,
  volume_re,
}

-- volume 1 is at hand
second_volume :
    (get_pxxs surroundings 1 (1 ∷ []) (codes "k") two_volumes nothing_to_fetch).havevols
    ≡ 2 ∷ 1 ∷ []
unfolding get_pxxs
second_volume = refl

-- more than there are: none is fetched
too_many : (get_pxxs surroundings 2 (1 ∷ []) (codes "k") two_volumes nothing_to_fetch).cur ≡ 0
unfolding get_pxxs
too_many = refl

one_at_hand : IsOnce (1 ∷ [])
unfolding IsOnce
one_at_hand = (refl, tt)

get_pxxs-IsSoundGot_example :
    IsSoundGot 1 0
      (1 ∷ [])
      (get_pxxs surroundings 1 (1 ∷ []) (codes "k") two_volumes nothing_to_fetch)
get_pxxs-IsSoundGot_example =
    get_pxxs-IsSoundGot surroundings 1 (1 ∷ []) (codes "k") two_volumes nothing_to_fetch one_at_hand

one_expression : equal_range (codes "k") two_volumes.localpars.subjmatches ≡ volume_re ∷ []
unfolding equal_range
one_expression = refl

get_pxxs-all_or_none_example :
    ((get_pxxs surroundings 1 (1 ∷ []) (codes "k") two_volumes nothing_to_fetch).cur ≡ 0)
    ⊎ ((get_pxxs surroundings 1 (1 ∷ []) (codes "k") two_volumes nothing_to_fetch).cur ≡ 1)
get_pxxs-all_or_none_example =
    get_pxxs-all_or_none surroundings 1 (1 ∷ []) (codes "k") two_volumes nothing_to_fetch volume_re
      refl one_expression one_at_hand

-- packets 1 and 2, and 2 to 4
abbrev two_packet_files : ParXInfo
two_packet_files = info_with packet_re (file_named (codes "v12") ∷ file_named (codes "v23") ∷ [])

-- of 1 to 4 the second file has two more
two_choices : (packets_found [] (codes "k") two_packet_files).choices ≡ (2, 2) ∷ (2, 3) ∷ []
unfolding packets_found
two_choices = refl

few_choices : length (packets_found [] (codes "k") two_packet_files).choices ≤ int_max
few_choices = rw two_choices (omega arith)

choose_packets-enough_example :
    ((choose_packets surroundings 2
        (packets_found [] (codes "k") two_packet_files)
        two_packet_files
        nothing_to_fetch).0.cur
      ≡ value_sum
          (packets_found [] (codes "k") two_packet_files).choices
          (knapsack_minsize (packets_found [] (codes "k") two_packet_files).choices 2).result)
    × (min 2 (sum_values (packets_found [] (codes "k") two_packet_files).choices)
        ≤ (choose_packets surroundings 2
            (packets_found [] (codes "k") two_packet_files)
            two_packet_files
            nothing_to_fetch).0.cur)
choose_packets-enough_example =
    choose_packets-enough surroundings 2 [] (codes "k") two_packet_files nothing_to_fetch
      few_choices

-- the second file alone would do
second_reaches :
    2
    ≤ chosen_value
        (reversed_onto (packets_found [] (codes "k") two_packet_files).choices [])
        (true ∷ [])
unfolding chosen_value reversed_onto
second_reaches = rw two_choices (omega arith)

-- the packets that packet_re reads in the subject
abbrev count_in : Option (List Text) → ℕ
count_in none = 0
count_in (some subs) = endpacket_of subs - to_uint32 (atoi (get_or subs 2 []))

abbrev packets_named : NntpFile → ℕ
packets_named f = count_in (packet_re f.subject)

all_counted :
    AllCount packets_named (equal_range (codes "k") two_packet_files.localpars.subjmatches)
unfolding equal_range
all_counted = ((λ f subs e. ap count_in e), tt)

choose_packets-least_example :
    weigh_fc packets_named
      (choose_packets surroundings 2
        (packets_found [] (codes "k") two_packet_files)
        two_packet_files
        nothing_to_fetch).0.fc
    ≤ chosen_size
        (reversed_onto (packets_found [] (codes "k") two_packet_files).choices [])
        (true ∷ [])
      + weigh_fc packets_named nothing_to_fetch
choose_packets-least_example =
    choose_packets-least packets_named surroundings 2 [] (codes "k") two_packet_files
      nothing_to_fetch (true ∷ []) all_counted few_choices second_reaches

-- a good par file, and so many bad files
abbrev disk_with : ℕ → Disk
disk_with bad = record {
  localpars = local_with volume_re;
  parfile_ok = λ fn. some 0;
  parfile_check = λ fn. pos bad;
}

-- no bad file: nothing is fetched
nothing_bad :
    (maybe_get_pxxs surroundings (disk_with 0) two_volumes nothing_to_fetch).total_added ≡ 0
unfolding maybe_get_pxxs
nothing_bad = refl

-- a bad file: a volume is fetched
one_bad : (maybe_get_pxxs surroundings (disk_with 1) two_volumes nothing_to_fetch).total_added ≡ 1
unfolding maybe_get_pxxs
one_bad = refl

maybe_get_pxxs-AllFinished_example :
    AllFinished
      (disk_with 0).localpars.basefilenames
      (maybe_get_pxxs surroundings (disk_with 0) two_volumes nothing_to_fetch).info.finished_parsets
maybe_get_pxxs-AllFinished_example =
    maybe_get_pxxs-AllFinished surroundings (disk_with 0) two_volumes nothing_to_fetch nothing_bad

maybe_get_pxxs-Shrinks_example :
    (weigh_fc one (maybe_get_pxxs surroundings (disk_with 1) two_volumes nothing_to_fetch).fc
      ≡ weigh_fc one nothing_to_fetch
        + (maybe_get_pxxs surroundings (disk_with 1) two_volumes nothing_to_fetch).total_added)
    × (weigh_info one (maybe_get_pxxs surroundings (disk_with 1) two_volumes nothing_to_fetch).info
          + (maybe_get_pxxs surroundings (disk_with 1) two_volumes nothing_to_fetch).total_added
        ≤ weigh_info one two_volumes)
maybe_get_pxxs-Shrinks_example =
    maybe_get_pxxs-Shrinks surroundings (disk_with 1) two_volumes nothing_to_fetch

-- so many blocks are missing, and there is no recovery packet
abbrev disk2_with : RepairResult → ℕ → Disk2
disk2_with result missing = record {
  localpars = local_with packet_re;
  process = λ fn fns. record {
    result = result;
    recovery_packets = [];
    missingblockcount = missing;
    sourcefiles = [];
  };
}

abbrev two_packets_info : Par2Info
two_packets_info = record { base = two_packet_files; serverextradata = [] }

all_there :
    (maybe_get_pxxs2 surroundings
      (disk2_with RepairResult.success 0)
      two_packets_info
      nothing_to_fetch).total_added
    ≡ 0
unfolding maybe_get_pxxs2
all_there = refl

-- the second file is left: the first is enough
two_missing :
    (maybe_get_pxxs2 surroundings
      (disk2_with RepairResult.repair_not_possible 2)
      two_packets_info
      nothing_to_fetch).info.base.serverpxxs
    ≡ file_named (codes "v23") ∷ []
unfolding maybe_get_pxxs2 ◌-ℤ◌
two_missing = refl

maybe_get_pxxs2-AllFinished_example :
    AllFinished
      (disk2_with RepairResult.success 0).localpars.basefilenames
      (maybe_get_pxxs2 surroundings
        (disk2_with RepairResult.success 0)
        two_packets_info
        nothing_to_fetch).info.base.finished_parsets
maybe_get_pxxs2-AllFinished_example =
    maybe_get_pxxs2-AllFinished surroundings (disk2_with RepairResult.success 0) two_packets_info
      nothing_to_fetch all_there

abbrev two_disks : Disks
two_disks = record {
  disk1 = λ path. disk_with 1;
  disk2 = λ path. disk2_with RepairResult.success 0;
}

weigh-handler_add_example :
    weigh_handler one
      (handler_add surroundings two_disks
        (file_named (codes "p1"))
        (codes "d")
        (codes "t")
        true
        []).1
    ≡ noted one
        (file_named (codes "p1"))
        (handler_add surroundings two_disks
          (file_named (codes "p1"))
          (codes "d")
          (codes "t")
          true
          []).0
      + weigh_handler one []
weigh-handler_add_example =
    weigh-handler_add one surroundings two_disks (file_named (codes "p1")) (codes "d") (codes "t")
      true []
