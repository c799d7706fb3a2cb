-- ===== src/Par/Chosen.antt =====
-- What get_recoverypackets chooses, and what get_extradata takes.
use Prim.Native.Nat.{min}
use nget.Prelude.{
  ℕ, zero, suc, ◌+◌, ◌≤◌, ◌<◌, ◌≡◌, refl, ◌∙◌, List, [], ◌∷◌, ◌++◌, false, inl, inr, Bool-cases,
  Option-cases, ltb, ◌&&◌, Option, some, none, Text, length, arith,
}
use nget.Cache.{NntpFile}
use nget.Knapsack.Chosen.{int_max, knapsack_minsize, sum_values, swapped}
use nget.Knapsack.Walk.{value_sum, size_sum, AllSized}
use nget.Knapsack.Minsize.{knapsack_minsize-sums}
use nget.Par.{Regex, Surroundings, NntpFilesU, addfile, ParXInfo, Par2Info}
use nget.Par.Pxxs.{equal_range}
use nget.Par.Packets.{
  weighted, Found, push_choice, offer_packets, offer_match, offer_matches, find_packets, GotPackets,
  fetch_results, choose_packets,
}
use nget.Par.Extra.{
  SourceFile, source_of, strtolower, leave_extra, take_extra, find_extra, add_all, get_extradata,
  packets_found,
}
use nget.Par.Weight.{weigh_files, weigh_fc, weigh_info2, weigh-addfile}

-- every choice is worth something
abbrev AllValued : Found → Type 0
AllValued found = AllSized (swapped found.choices)

valued-append :
    (xs : List (ℕ × ℕ)) (value size : ℕ)
    → AllSized (swapped xs)
    → 0 < value
    → AllSized (swapped (xs ++ (value, size) ∷ []))
unfolding AllSized swapped
valued-append [] value size h positive = (positive, tt)
valued-append ((v, z) ∷ xs) value size (p, h) positive = (p, valued-append xs value size h positive)

weighted_positive : (f : NntpFile) (value : ℕ) → 0 < value → 0 < weighted f value
unfolding weighted
weighted_positive f value h = ground arith

push_choice-AllValued :
    (f : NntpFile) (place size : ℕ) (avail : List ℕ) (value : ℕ) (found : Found)
    → AllValued found
    → AllValued (push_choice f place size avail value found)
unfolding push_choice
push_choice-AllValued f place size avail zero found h = h
push_choice-AllValued f place size avail (suc v) found h =
    valued-append found.choices (weighted f (suc v)) size h
      (weighted_positive f (suc v) (omega arith))

offer_match-AllValued :
    (have : List ℕ) (f : NntpFile) (place : ℕ) (subs : Option (List Text)) (found : Found)
    → AllValued found
    → AllValued (offer_match have f place subs found)
unfolding offer_match offer_packets
offer_match-AllValued have f place none found h = h
offer_match-AllValued have f place (some subs) found h = push_choice-AllValued f place _ _ _ found h

offer_matches-AllValued :
    (have : List ℕ) (f : NntpFile) (place : ℕ) (rs : List Regex) (found : Found)
    → AllValued found
    → AllValued (offer_matches have f place rs found)
unfolding offer_matches
offer_matches-AllValued have f place [] found h = h
offer_matches-AllValued have f place (r ∷ rs) found h =
    offer_matches-AllValued have f place rs (offer_match have f place (r f.subject) found)
      (offer_match-AllValued have f place (r f.subject) found h)

find_packets-AllValued :
    (have : List ℕ) (rs : List Regex) (place : ℕ) (fs : List NntpFile) (found : Found)
    → AllValued found
    → AllValued (find_packets have rs place fs found)
unfolding find_packets
find_packets-AllValued have rs place [] found h = h
find_packets-AllValued have rs place (f ∷ fs) found h =
    find_packets-AllValued have rs (suc place) fs (offer_matches have f place rs found)
      (offer_matches-AllValued have f place rs found h)

pub packets_found-AllValued :
    (have : List ℕ) (key : Text) (i : ParXInfo) → AllValued (packets_found have key i)
unfolding packets_found
packets_found-AllValued have key i =
    find_packets-AllValued have (equal_range key i.localpars.subjmatches) 0 i.serverpxxs
      (record { choices = []; items = []; availpackets = [] })
      (unfold AllSized in (unfold swapped in tt))

cur-fetch_results :
    (s : Surroundings) (i : ParXInfo) (found : Found) (ris : List ℕ) (g : GotPackets)
    → (fetch_results s i found ris g).cur ≡ value_sum found.choices ris + g.cur
unfolding fetch_results value_sum
cur-fetch_results s i found [] g = omega arith
cur-fetch_results s i found (ri ∷ ris) g = cur-fetch_results s i found ris _ ∙ omega arith

-- Of the files with recovery packets that it is given, INT_MAX at most, choose_packets takes some
-- whose weighted packets reach the number that is wanted, or all there are where they are fewer, and
-- it returns how many these are.
pub choose_packets-enough :
    (s : Surroundings) (num : ℕ) (havepackets : List ℕ) (key : Text) (i : ParXInfo)
    (fc : NntpFilesU)
    → length (packets_found havepackets key i).choices ≤ int_max
    → ((choose_packets s num (packets_found havepackets key i) i fc).0.cur
        ≡ value_sum
            (packets_found havepackets key i).choices
            (knapsack_minsize (packets_found havepackets key i).choices num).result)
      × (min num (sum_values (packets_found havepackets key i).choices)
          ≤ (choose_packets s num (packets_found havepackets key i) i fc).0.cur)
unfolding choose_packets
choose_packets-enough s num havepackets key i fc short =
    (omega (arith, same), omega (arith, same, enough.1))
  where
    found : Found
    found = packets_found havepackets key i

    results : List ℕ
    results = (knapsack_minsize found.choices num).result

    enough :
        (size_sum found.choices results ≡ (knapsack_minsize found.choices num).size)
        × (min num (sum_values found.choices) ≤ value_sum found.choices results)
    enough =
        knapsack_minsize-sums found.choices num short (packets_found-AllValued havepackets key i)

    same : (choose_packets s num found i fc).0.cur ≡ value_sum found.choices results + 0
    same = cur-fetch_results s i found results (record { cur = 0; fc = fc })

-- get_extradata
weigh-add_all :
    (w : NntpFile → ℕ) (s : Surroundings) (i : ParXInfo) (fs : List NntpFile) (fc : NntpFilesU)
    → weigh_fc w (add_all s i fs fc) ≡ weigh_files w fs + weigh_fc w fc
unfolding add_all weigh_files
weigh-add_all w s i [] fc = omega arith
weigh-add_all w s i (f ∷ fs) fc = omega (
  arith,
  weigh-add_all w s i fs (addfile s f i.path i.temppath false fc),
  weigh-addfile w s f i.path i.temppath false fc,
)

weigh-find_extra :
    (w : NntpFile → ℕ) (num : ℕ) (sfs : List SourceFile) (added : ℕ) (fs : List NntpFile)
    → weigh_files w (find_extra num sfs added fs).taken
        + weigh_files w (find_extra num sfs added fs).left
      ≡ weigh_files w fs
unfolding find_extra weigh_files
weigh-find_extra w num sfs added [] = refl
weigh-find_extra w num sfs added (f ∷ fs) = elim (Bool-cases (ltb added num)) [
  | inr e ↦ rw e (omega arith)
  | inl e ↦ rw e (elim (Option-cases (source_of (strtolower f.subject) f sfs)) [
    | inl o ↦ rw (leave_extra, o) (omega (arith, weigh-find_extra w num sfs added fs))
    | inr (b, o) ↦ rw (take_extra, o) (omega (arith, weigh-find_extra w num sfs (added + b) fs))
  ])
]

-- The files that get_extradata takes off serverextradata are the files that it adds to those to
-- fetch.
pub weigh-get_extradata :
    (w : NntpFile → ℕ) (s : Surroundings) (num : ℕ) (sfs : List SourceFile) (i : Par2Info)
    (fc : NntpFilesU)
    → weigh_fc w (get_extradata s num sfs i fc).0.fc
        + weigh_info2 w (get_extradata s num sfs i fc).1
      ≡ weigh_info2 w i + weigh_fc w fc
unfolding get_extradata weigh_info2
weigh-get_extradata w s num sfs i fc =
    elim (Bool-cases
      (s.autopar_optimistic && ltb (find_extra num sfs 0 i.serverextradata).added num)) [
        | inl e ↦ rw e (omega arith)
        | inr e ↦ rw e (
            omega (
              arith,
              weigh-add_all w s i.base (find_extra num sfs 0 i.serverextradata).taken fc,
              weigh-find_extra w num sfs 0 i.serverextradata,
            ))
      ]
