-- ===== src/Par/Least.antt =====
-- Recovery packets are fetched with the fewest packets that reach what is wanted.
use nget.Prelude.{
  ℕ, zero, suc, ◌+◌, ◌-◌, ◌≤◌, ◌<◌, ◌≡◌, refl, ap, ◌∙◌, ℤ, pos, negsuc, ◌-ℤ◌, List, [], ◌∷◌, ◌++◌,
  Bool, false, Bool-cases, inl, inr, Option, some, none, Text, get_or, get_elem?, length, arith,
}
use nget.Cache.{NntpFile}
use nget.Decimal.{atoi}
use nget.Knapsack.Optimum.{reversed_onto, chosen_value, chosen_size}
use nget.Knapsack.Chosen.{
  int_max, size_of, contains, left_out, minsize_of, knapsack_minsize, sum_values,
}
use nget.Knapsack.Walk.{size_sum}
use nget.Knapsack.Minsize.{knapsack_minsize-sums, knapsack_minsize-least}
use nget.Par.{Regex, Surroundings, NntpFilesU, ParXInfo}
use nget.Par.Pxxs.{equal_range, to_uint32}
use nget.Par.Packets.{
  Found, push_choice, offer_packets, endpacket_of, offer_match, offer_matches, find_packets,
  GotPackets, add_item, fetch_results, choose_packets,
}
use nget.Par.Extra.{packets_found}
use nget.Par.Weight.{weigh_fc, weigh-addfile}
use nget.Par.Chosen.{packets_found-AllValued}

-- all below n
abbrev AllBelow : ℕ → List ℕ → Type 0
AllBelow n [] = Unit {0}
AllBelow n (i ∷ is) = (i < n) × AllBelow n is

left_out-AllBelow : (i n m : ℕ) (rs : List ℕ) → i + n ≤ m → AllBelow m (left_out i n rs)
unfolding left_out
left_out-AllBelow i zero m rs h = tt
left_out-AllBelow i (suc n) m rs h = elim (Bool-cases (contains rs i)) [
  | inl e ↦ rw e (left_out-AllBelow (suc i) n m rs (omega arith))
  | inr e ↦ rw e (omega arith, left_out-AllBelow (suc i) n m rs (omega arith))
]

minsize_of-AllBelow :
    (items : List (ℕ × ℕ)) (t : ℤ) → AllBelow (length items) (minsize_of items t).result
unfolding minsize_of
minsize_of-AllBelow items (pos t) =
    left_out-AllBelow 0 (length items) (length items) _ (omega arith)
minsize_of-AllBelow items (negsuc t) =
    left_out-AllBelow 0 (length items) (length items) _ (omega arith)

knapsack_minsize-AllBelow :
    (items : List (ℕ × ℕ)) (target : ℕ)
    → AllBelow (length items) (knapsack_minsize items target).result
unfolding knapsack_minsize
knapsack_minsize-AllBelow items target =
    minsize_of-AllBelow items (pos (sum_values items) -ℤ pos target)

module _ (w : NntpFile → ℕ) where
  -- w is the number of the packets that an expression finds in the subject of a file
  abbrev pub CountsPackets : Regex → Type 0
  CountsPackets r =
      (f : NntpFile) (subs : List Text)
      → r f.subject ≡ some subs
      → w f ≡ endpacket_of subs - to_uint32 (atoi (get_or subs 2 []))

  abbrev pub AllCount : List Regex → Type 0
  AllCount [] = Unit {0}
  AllCount (r ∷ rs) = CountsPackets r × AllCount rs

  abbrev weight_of : Option NntpFile → ℕ
  weight_of none = 0
  weight_of (some f) = w f

  module _ (all : List NntpFile) where
    -- the sizes are those of the files at the places
    abbrev IsSized : List (ℕ × ℕ) → List ℕ → Type 0
    IsSized [] [] = Unit {0}
    IsSized [] (p ∷ ps) = ⊥
    IsSized ((value, size) ∷ cs) [] = ⊥
    IsSized ((value, size) ∷ cs) (p ∷ ps) = (weight_of (get_elem? all p) ≡ size) × IsSized cs ps

    IsSized-append :
        (cs : List (ℕ × ℕ)) (ps : List ℕ) (value size p : ℕ)
        → IsSized cs ps
        → weight_of (get_elem? all p) ≡ size
        → IsSized (cs ++ (value, size) ∷ []) (ps ++ p ∷ [])
    IsSized-append [] [] value size p v e = (e, tt)
    IsSized-append [] (q ∷ qs) value size p v e = absurd v
    IsSized-append ((a, b) ∷ cs) [] value size p v e = absurd v
    IsSized-append ((a, b) ∷ cs) (q ∷ qs) value size p v e =
        (v.0, IsSized-append cs qs value size p v.1 e)

    push_choice-IsSized :
        (f : NntpFile) (place size : ℕ) (avail : List ℕ) (value : ℕ) (found : Found)
        → IsSized found.choices found.items
        → weight_of (get_elem? all place) ≡ size
        → IsSized
            (push_choice f place size avail value found).choices
            (push_choice f place size avail value found).items
    unfolding push_choice
    push_choice-IsSized f place size avail zero found v e = v
    push_choice-IsSized f place size avail (suc n) found v e =
        IsSized-append found.choices found.items _ size place v e

    offer_match-IsSized :
        (have : List ℕ) (f : NntpFile) (place : ℕ) (o : Option (List Text)) (found : Found)
        → IsSized found.choices found.items
        → get_elem? all place ≡ some f
        → ((subs : List Text)
            → o ≡ some subs
            → w f ≡ endpacket_of subs - to_uint32 (atoi (get_or subs 2 [])))
        → IsSized
            (offer_match have f place o found).choices
            (offer_match have f place o found).items
    unfolding offer_match offer_packets
    offer_match-IsSized have f place none found v at c = v
    offer_match-IsSized have f place (some subs) found v at c =
        push_choice-IsSized f place _ _ _ found v (ap weight_of at ∙ c subs refl)

    offer_matches-IsSized :
        (have : List ℕ) (f : NntpFile) (place : ℕ) (rs : List Regex) (found : Found)
        → AllCount rs
        → IsSized found.choices found.items
        → get_elem? all place ≡ some f
        → IsSized
            (offer_matches have f place rs found).choices
            (offer_matches have f place rs found).items
    unfolding offer_matches
    offer_matches-IsSized have f place [] found c v at = v
    offer_matches-IsSized have f place (r ∷ rs) found c v at =
        offer_matches-IsSized have f place rs (offer_match have f place (r f.subject) found) c.1
          (offer_match-IsSized have f place (r f.subject) found v at (c.0 f)) at

    find_packets-IsSized :
        (have : List ℕ) (rs : List Regex) (place : ℕ) (fs : List NntpFile) (found : Found)
        → AllCount rs
        → IsSized found.choices found.items
        → ((k : ℕ) → get_elem? all (place + k) ≡ get_elem? fs k)
        → IsSized
            (find_packets have rs place fs found).choices
            (find_packets have rs place fs found).items
    unfolding find_packets
    find_packets-IsSized have rs place [] found c v at = v
    find_packets-IsSized have rs place (f ∷ fs) found c v at =
        find_packets-IsSized have rs (suc place) fs (offer_matches have f place rs found) c
          (offer_matches-IsSized have f place rs found c v
            (ap (get_elem? all) (omega arith) ∙ at 0))
          (λ k. ap (get_elem? all) (omega arith) ∙ at (suc k))

    weight-item :
        (cs : List (ℕ × ℕ)) (ps : List ℕ) (i : ℕ)
        → IsSized cs ps
        → i < length cs
        → weight_of (get_elem? all (get_or ps i 0)) ≡ size_of cs i
    unfolding size_of
    weight-item [] ps i v h = absurd (omega arith)
    weight-item ((a, b) ∷ cs) [] i v h = absurd v
    weight-item ((a, b) ∷ cs) (p ∷ ps) zero v h = v.0
    weight-item ((a, b) ∷ cs) (p ∷ ps) (suc i) v h = weight-item cs ps i v.1 (omega arith)

  weigh-add_item :
      (s : Surroundings) (i : ParXInfo) (o : Option NntpFile) (fc : NntpFilesU)
      → weigh_fc w (add_item s i o fc) ≡ weight_of o + weigh_fc w fc
  unfolding add_item
  weigh-add_item s i none fc = omega arith
  weigh-add_item s i (some f) fc = weigh-addfile w s f i.path i.temppath false fc

  weigh-fetch_results :
      (s : Surroundings) (i : ParXInfo) (found : Found) (ris : List ℕ) (g : GotPackets)
      → IsSized i.serverpxxs found.choices found.items
      → AllBelow (length found.choices) ris
      → weigh_fc w (fetch_results s i found ris g).fc ≡ size_sum found.choices ris + weigh_fc w g.fc
  unfolding fetch_results size_sum
  weigh-fetch_results s i found [] g v h = omega arith
  weigh-fetch_results s i found (ri ∷ ris) g v h =
      weigh-fetch_results s i found ris _ v h.1
      ∙ omega (
        arith,
        weigh-add_item s i (get_elem? i.serverpxxs (get_or found.items ri 0)) g.fc,
        weight-item i.serverpxxs found.choices found.items ri v h.0,
      )

  packets_found-IsSized :
      (have : List ℕ) (key : Text) (i : ParXInfo)
      → AllCount (equal_range key i.localpars.subjmatches)
      → IsSized i.serverpxxs (packets_found have key i).choices (packets_found have key i).items
  unfolding packets_found
  packets_found-IsSized have key i c =
      find_packets-IsSized i.serverpxxs have _ 0 i.serverpxxs _ c tt
        (λ k. ap (get_elem? i.serverpxxs) (omega arith))

  -- Where w is the number of the packets that the expressions of the set find in the subject of a
  -- file, and there are INT_MAX files with packets at most, choose_packets adds no more packets to
  -- what is fetched than any choice of those files has whose weighted packets reach the number that
  -- is wanted.
  pub choose_packets-least :
      (s : Surroundings) (num : ℕ) (have : List ℕ) (key : Text) (i : ParXInfo) (fc : NntpFilesU)
      (bs : List Bool)
      → AllCount (equal_range key i.localpars.subjmatches)
      → length (packets_found have key i).choices ≤ int_max
      → num ≤ chosen_value (reversed_onto (packets_found have key i).choices []) bs
      → weigh_fc w (choose_packets s num (packets_found have key i) i fc).0.fc
        ≤ chosen_size (reversed_onto (packets_found have key i).choices []) bs + weigh_fc w fc
  unfolding choose_packets
  choose_packets-least s num have key i fc bs c short h =
      let choices = (packets_found have key i).choices in
      omega (
        arith,
        weigh-fetch_results s i (packets_found have key i) (knapsack_minsize choices num).result
            (record { cur = 0; fc = fc }) (packets_found-IsSized have key i c)
            (knapsack_minsize-AllBelow choices num),
        (knapsack_minsize-sums choices num short (packets_found-AllValued have key i)).0,
        knapsack_minsize-least choices num bs short (packets_found-AllValued have key i) h,
      )
