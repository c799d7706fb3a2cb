-- ===== src/Par/Extra.antt =====
-- par.cc: Par2Info::get_extradata, and get_recoverypackets as a whole.
use Prim.Native.Nat.{max}
use nget.Prelude.{
  ℕ, ◌+◌, ◌-◌, ◌*◌, ◌/◌, List, [], ◌∷◌, Bool, true, false, ltb, leb, ◌==◌, ◌&&◌, if◌then◌else◌,
  Option, some, none, Text, length,
}
use nget.Cache.{NntpFile}
use nget.Par.{Surroundings, completeness, NntpFilesU, addfile, ParXInfo, Par2Info}
use nget.Par.Pxxs.{equal_range}
use nget.Par.Packets.{Found, find_packets, GotPackets, choose_packets}

-- of a source file of the repairer: its name's last part in lower case, its blocks, and whether no
-- complete file was found for it
pub record SourceFile : Type 0 where
  pub tail : Text
  pub block_count : ℕ
  pub missing : Bool

-- strtolower(subject).find(tail)
unfoldable pub tolower : ℕ → ℕ
tolower c = if leb 65 c && leb c 90 then c + 32 else c

unfoldable pub strtolower : Text → Text
unfolding tolower
strtolower [] = []
strtolower (c ∷ cs) = tolower c ∷ strtolower cs

unfoldable pub starts_with : Text → Text → Bool
starts_with s [] = true
starts_with [] (c ∷ cs) = false
starts_with (b ∷ bs) (c ∷ cs) = (b == c) && starts_with bs cs

unfoldable pub finds : Text → Text → Bool
unfolding starts_with
finds [] tail = starts_with [] tail
finds (c ∷ cs) tail = let rest = finds cs tail in if starts_with (c ∷ cs) tail then true else rest

-- the loop over the source files: the blocks that a file counts as, where one has its name
unfoldable pub blocks_of : NntpFile → ℕ → ℕ
unfolding completeness
blocks_of f count = let (have, req) = completeness f in max 1 (count * have / req)

unfoldable pub source_of : Text → NntpFile → List SourceFile → Option ℕ
unfolding finds blocks_of
source_of subject f [] = none
source_of subject f (sf ∷ sfs) =
    let rest = source_of subject f sfs in
    if sf.missing && finds subject sf.tail then some (blocks_of f sf.block_count) else rest

-- added, the files that are taken, and the others
pub record Extra : Type 0 where
  pub added : ℕ
  pub taken : List NntpFile
  pub left : List NntpFile

unfoldable pub leave_extra : NntpFile → Extra → Extra
leave_extra f e = record e { left = f ∷ e.left }

unfoldable pub take_extra : NntpFile → Extra → Extra
take_extra f e = record e { taken = f ∷ e.taken }

unfoldable pub find_extra : ℕ → List SourceFile → ℕ → List NntpFile → Extra
unfolding source_of strtolower leave_extra take_extra
find_extra num sourcefiles added [] = record { added = added; taken = []; left = [] }
find_extra num sourcefiles added (f ∷ fs) =
    if ltb added num
    then elim (source_of (strtolower f.subject) f sourcefiles) [
      | some blocks ↦ take_extra f (find_extra num sourcefiles (added + blocks) fs)
      | none ↦ leave_extra f (find_extra num sourcefiles added fs)
    ]
    else record { added = added; taken = []; left = f ∷ fs }

unfoldable pub add_all : Surroundings → ParXInfo → List NntpFile → NntpFilesU → NntpFilesU
unfolding addfile
add_all s i [] fc = fc
add_all s i (f ∷ fs) fc = add_all s i fs (addfile s f i.path i.temppath false fc)

-- Par2Info::get_extradata
unfoldable pub get_extradata :
    Surroundings → ℕ → List SourceFile → Par2Info → NntpFilesU → GotPackets × Par2Info
unfolding find_extra add_all
get_extradata s num sourcefiles i fc =
    let e = find_extra num sourcefiles 0 i.serverextradata in
    if s.autopar_optimistic && ltb e.added num then (record { cur = 0; fc = fc }, i) else (
      record { cur = e.added; fc = add_all s i.base e.taken fc },
      record i { serverextradata = e.left },
    )

unfoldable pub with_base : Par2Info → GotPackets × ParXInfo → GotPackets × Par2Info
with_base i (g, b) = (g, record i { base = b })

-- the search for packets of get_recoverypackets
unfoldable pub packets_found : List ℕ → Text → ParXInfo → Found
unfolding find_packets equal_range
packets_found havepackets key i =
    find_packets havepackets (equal_range key i.localpars.subjmatches) 0 i.serverpxxs
      (record { choices = []; items = []; availpackets = [] })

-- the end of get_recoverypackets, where get_extradata got nothing
unfoldable pub choose_or_give_up :
    Surroundings → ℕ → Found → Par2Info → NntpFilesU → GotPackets × Par2Info
unfolding choose_packets with_base
choose_or_give_up s num found i fc =
    if s.autopar_optimistic && ltb (length found.availpackets) num
    then (record { cur = 0; fc = fc }, i)
    else with_base i (choose_packets s num found i.base fc)

unfoldable pub or_else_choose :
    Surroundings → ℕ → Found → GotPackets × Par2Info → GotPackets × Par2Info
unfolding choose_or_give_up
or_else_choose s num found (g, i) =
    if g.cur == 0 then choose_or_give_up s num found i g.fc else (g, i)

-- Par2Info::get_recoverypackets
unfoldable pub get_recoverypackets :
    Surroundings
    → ℕ
    → List ℕ
    → Text
    → List SourceFile
    → Par2Info
    → NntpFilesU
    → GotPackets × Par2Info
unfolding packets_found get_extradata or_else_choose choose_or_give_up
get_recoverypackets s num havepackets key sourcefiles i fc =
    let found = packets_found havepackets key i.base in
    let short = length found.availpackets in
    if ltb short num
    then or_else_choose s num found (get_extradata s (num - short) sourcefiles i fc)
    else choose_or_give_up s num found i fc
