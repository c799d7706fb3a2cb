-- ===== src/Par/Packets.antt =====
-- par.cc: Par2Info::get_recoverypackets. A file in serverpxxs is its place there. Packet numbers
-- are uint32_t; the sums of values and sizes do not overflow.
use Prim.Native.Nat.{max}
use nget.Prelude.{
  ℕ, zero, suc, ◌+◌, ◌-◌, ◌*◌, ◌/◌, ◌%◌, ◌^◌, pos, pos_part, leb_ℤ, List, [], ◌∷◌, ◌++◌, false,
  ◌||◌, if◌then◌else◌, Option, some, none, Text, get_or, get_elem?,
}
use nget.Cache.{NntpFile}
use nget.Decimal.{atoi}
use nget.Knapsack.Chosen.{knapsack_minsize, value_of, contains}
use nget.Par.{Regex, Surroundings, NntpFilesU, addfile, ParXInfo}
use nget.Par.Pxxs.{to_uint32, has_vol}

-- the loop over the packets of a file: availpackets and value
unfoldable pub count_packets : List ℕ → ℕ → ℕ → List ℕ → ℕ → List ℕ × ℕ
unfolding has_vol
count_packets havepackets packet zero avail value = (avail, value)
count_packets havepackets packet (suc n) avail value =
    let seen = count_packets havepackets (suc packet) n avail value in
    let new = count_packets havepackets (suc packet) n (packet ∷ avail) (suc value) in
    if has_vol packet havepackets || has_vol packet avail then seen else new

-- less weight for incomplete files, but 1 at least
unfoldable pub weighted : NntpFile → ℕ → ℕ
weighted f value =
    if leb_ℤ (pos 1) f.req then max 1 (value * pos_part f.have / pos_part f.req) else value

-- values and sizes, items, and availpackets
pub record Found : Type 0 where
  pub choices : List (ℕ × ℕ)
  pub items : List ℕ
  pub availpackets : List ℕ

unfoldable pub push_choice : NntpFile → ℕ → ℕ → List ℕ → ℕ → Found → Found
unfolding weighted
push_choice f place size avail zero found = record found { availpackets = avail }
push_choice f place size avail (suc v) found = record {
  choices = found.choices ++ (weighted f (suc v), size) ∷ [];
  items = found.items ++ place ∷ [];
  availpackets = avail;
}

-- beginpacket to endpacket, which is behind the last one
unfoldable pub offer_packets : List ℕ → NntpFile → ℕ → ℕ → ℕ → Found → Found
unfolding count_packets push_choice
offer_packets havepackets f place beginpacket endpacket found =
    let (avail, value) =
      count_packets havepackets beginpacket (endpacket - beginpacket) found.availpackets 0 in
    push_choice f place (endpacket - beginpacket) avail value found

unfoldable pub endpacket_of : List Text → ℕ
unfolding to_uint32 atoi
endpacket_of subs =
    (to_uint32 (atoi (get_or subs 3 [])) + to_uint32 (atoi (get_or subs 2 []))) % 2 ^ 32

unfoldable pub offer_match : List ℕ → NntpFile → ℕ → Option (List Text) → Found → Found
unfolding offer_packets to_uint32 atoi endpacket_of
offer_match havepackets f place none found = found
offer_match havepackets f place (some subs) found =
    offer_packets havepackets f place (to_uint32 (atoi (get_or subs 2 []))) (endpacket_of subs)
      found

unfoldable pub offer_matches : List ℕ → NntpFile → ℕ → List Regex → Found → Found
unfolding offer_match
offer_matches havepackets f place [] found = found
offer_matches havepackets f place (r ∷ rs) found =
    offer_matches havepackets f place rs (offer_match havepackets f place (r f.subject) found)

unfoldable pub find_packets : List ℕ → List Regex → ℕ → List NntpFile → Found → Found
unfolding offer_matches
find_packets havepackets matches place [] found = found
find_packets havepackets matches place (f ∷ fs) found =
    find_packets havepackets matches (suc place) fs
      (offer_matches havepackets f place matches found)

-- the loop over the results
pub record GotPackets : Type 0 where
  pub cur : ℕ
  pub fc : NntpFilesU

unfoldable pub add_item : Surroundings → ParXInfo → Option NntpFile → NntpFilesU → NntpFilesU
unfolding addfile
add_item s i none fc = fc
add_item s i (some f) fc = addfile s f i.path i.temppath false fc

unfoldable pub fetch_results : Surroundings → ParXInfo → Found → List ℕ → GotPackets → GotPackets
unfolding value_of add_item
fetch_results s i found [] g = g
fetch_results s i found (ri ∷ ris) g = fetch_results s i found ris (record {
  cur = g.cur + value_of found.choices ri;
  fc = add_item s i (get_elem? i.serverpxxs (get_or found.items ri 0)) g.fc;
})

-- serverpxxs without the places of the results
unfoldable pub places_of : Found → List ℕ → List ℕ
places_of found [] = []
places_of found (ri ∷ ris) = get_or found.items ri 0 ∷ places_of found ris

unfoldable pub erase_places : List ℕ → ℕ → List NntpFile → List NntpFile
unfolding contains
erase_places places place [] = []
erase_places places place (f ∷ fs) =
    let rest = erase_places places (suc place) fs in
    if contains places place then rest else f ∷ rest

-- the part of the function behind the search: the choice, and what is fetched
unfoldable pub choose_packets :
    Surroundings → ℕ → Found → ParXInfo → NntpFilesU → GotPackets × ParXInfo
unfolding knapsack_minsize fetch_results places_of erase_places
choose_packets s num found i fc =
    let results = (knapsack_minsize found.choices num).result in
    (
      fetch_results s i found results (record { cur = 0; fc = fc }),
      record i { serverpxxs = erase_places (places_of found results) 0 i.serverpxxs },
    )
