-- ===== src/Par/Adding.antt =====
-- maybe_add_parfile notes a file once, or not at all.
use nget.Prelude.{
  ℕ, ◌+◌, ◌≡◌, refl, List, [], ◌∷◌, Bool, true, false, not, inl, inr, Bool-cases, ◌&&◌,
  if◌then◌else◌, Option, some, none, Text, get_or, arith,
}
use nget.Paths.{is_empty}
use nget.Cache.{NntpFile}
use nget.Par.{
  Surroundings, maybe_a_textpost, iscomplete, insert_server_file, ParSetInfo, ParXInfo, Par2Info,
}
use nget.Par.Sets.{addserverpar, addserverpxx}
use nget.Par.Info.{
  with_parset, first_match, isalpha, first_char, drop_quote, add_par, add_pxx, add_to_parset,
  add_new_par1, add_known_par1, maybe_add_parfile1, add_packet_file, add_new_par2, add_known_par2,
  maybe_add_parfile2, ParInfo, or_par2, maybe_add_parfile,
}
use nget.Par.Weight.{
  weigh_files, weigh_set, weigh_sets, weigh_info, weigh_info2, weigh-insert_server_file,
}

module _ (w : NntpFile → ℕ) where
  weigh_none : weigh_set w (record { serverpars = []; serverpxxs = [] }) ≡ 0
  unfolding weigh_set weigh_files
  weigh_none = refl

  weigh-with_parset :
      (basename : Text) (g : ParSetInfo → ParSetInfo) (n : ℕ) (ps : List (Text × ParSetInfo))
      → ((p : ParSetInfo) → weigh_set w (g p) ≡ n + weigh_set w p)
      → weigh_sets w (with_parset basename g ps) ≡ n + weigh_sets w ps
  unfolding with_parset weigh_sets
  weigh-with_parset basename g n [] h =
      omega (arith, h (record { serverpars = []; serverpxxs = [] }), weigh_none)
  weigh-with_parset basename g n ((name, p) ∷ ps) h = ground (
    arith,
    h p,
    h (record { serverpars = []; serverpxxs = [] }),
    weigh_none,
    weigh-with_parset basename g n ps h,
  )

  weigh-add_par : (f : NntpFile) (i : ParXInfo) → weigh_info w (add_par f i) ≡ w f + weigh_info w i
  unfolding add_par weigh_info
  weigh-add_par f i = omega (arith, weigh-insert_server_file w f i.serverpars)

  weigh-add_pxx : (f : NntpFile) (i : ParXInfo) → weigh_info w (add_pxx f i) ≡ w f + weigh_info w i
  unfolding add_pxx weigh_info
  weigh-add_pxx f i = omega (arith, weigh-insert_server_file w f i.serverpxxs)

  weigh-addserver :
      (ispar : Bool) (f : NntpFile) (p : ParSetInfo)
      → weigh_set w (if ispar then addserverpar f p else addserverpxx f p) ≡ w f + weigh_set w p
  unfolding addserverpar addserverpxx weigh_set
  weigh-addserver true f p = omega (arith, weigh-insert_server_file w f p.serverpars)
  weigh-addserver false f p = omega (arith, weigh-insert_server_file w f p.serverpxxs)

  weigh-add_to_parset :
      (ispar : Bool) (basename : Text) (f : NntpFile) (i : ParXInfo)
      → weigh_info w (add_to_parset ispar basename f i) ≡ w f + weigh_info w i
  unfolding add_to_parset weigh_info
  weigh-add_to_parset ispar basename f i = omega (
    arith,
    weigh-with_parset (drop_quote basename)
        (λ p. if ispar then addserverpar f p else addserverpxx f p) (w f) i.parsets
        (weigh-addserver ispar f),
  )

  -- a result that notes the file notes it once
  unfoldable pub Once1 : NntpFile → ParXInfo → Option ParXInfo → Type 0
  Once1 f i none = Unit
  Once1 f i (some i') = weigh_info w i' ≡ w f + weigh_info w i

  unfoldable Once2 : NntpFile → Par2Info → Option Par2Info → Type 0
  Once2 f i none = Unit
  Once2 f i (some i') = weigh_info2 w i' ≡ w f + weigh_info2 w i

  add_new_par1-Once :
      (f : NntpFile) (subs : Option (List Text)) (i : ParXInfo) → Once1 f i (add_new_par1 f subs i)
  unfolding add_new_par1 Once1
  add_new_par1-Once f none i = tt
  add_new_par1-Once f (some subs) i =
      weigh-add_to_parset (isalpha (first_char (get_or subs 2 []))) (get_or subs 1 []) f i

  add_known_par1-Once :
      (s : Surroundings) (f : NntpFile) (subs : Option (List Text)) (i : ParXInfo)
      → Once1 f i (add_known_par1 s f subs i)
  unfolding add_known_par1 Once1
  add_known_par1-Once s f (some subs) i = ground (arith, weigh-add_par f i, weigh-add_pxx f i)
  add_known_par1-Once s f none i = add_new_par1-Once f (s.parsubj_re f.subject) i

  pub maybe_add_parfile1-Once :
      (s : Surroundings) (f : NntpFile) (want_incomplete : Bool) (i : ParXInfo)
      → Once1 f i (maybe_add_parfile1 s f want_incomplete i)
  unfolding maybe_add_parfile1 Once1
  maybe_add_parfile1-Once s f want_incomplete i = elim (Bool-cases (maybe_a_textpost s f)) [
    | inl e ↦ rw e tt
    | inr e ↦ elim (Bool-cases (not want_incomplete && not (iscomplete s f))) [
      | inl g ↦ rw (e, g) tt
      | inr g ↦
          rw (e, g) (add_known_par1-Once s f (first_match f.subject i.localpars.subjmatches) i)
    ]
  ]

  base_once :
      (f : NntpFile) (i : Par2Info) (b : ParXInfo)
      → weigh_info w b ≡ w f + weigh_info w i.base
      → weigh_info2 w (record i { base = b }) ≡ w f + weigh_info2 w i
  unfolding weigh_info2
  base_once f i b h = omega (arith, h)

  weigh-add_packet_file :
      (f : NntpFile) (basename : Text) (subs : Option (List Text)) (i : Par2Info)
      → weigh_info2 w (add_packet_file f basename subs i) ≡ w f + weigh_info2 w i
  unfolding add_packet_file
  weigh-add_packet_file f basename none i =
      base_once f i _ (weigh-add_to_parset true basename f i.base)
  weigh-add_packet_file f basename (some subs) i =
      base_once f i _ (weigh-add_to_parset false (get_or subs 1 []) f i.base)

  extra_once :
      (f : NntpFile) (i : Par2Info)
      → weigh_info2 w (record i { serverextradata = insert_server_file f i.serverextradata })
        ≡ w f + weigh_info2 w i
  unfolding weigh_info2
  extra_once f i = omega (arith, weigh-insert_server_file w f i.serverextradata)

  add_new_par2-Once :
      (s : Surroundings) (f : NntpFile) (want_incomplete : Bool) (subs : Option (List Text))
      (i : Par2Info)
      → Once2 f i (add_new_par2 s f want_incomplete subs i)
  unfolding add_new_par2 Once2
  add_new_par2-Once s f want_incomplete (some subs) i =
      weigh-add_packet_file f (get_or subs 1 []) (s.par2pxxre (get_or subs 1 [])) i
  add_new_par2-Once s f want_incomplete none i =
      elim (Bool-cases (not want_incomplete && not (iscomplete s f))) [
        | inl e ↦ rw e (extra_once f i)
        | inr e ↦ rw e tt
      ]

  add_known_par2-Once :
      (s : Surroundings) (f : NntpFile) (want_incomplete : Bool) (subs : Option (List Text))
      (i : Par2Info)
      → Once2 f i (add_known_par2 s f want_incomplete subs i)
  unfolding add_known_par2 Once2
  add_known_par2-Once s f want_incomplete (some subs) i =
      elim (Bool-cases (is_empty (get_or subs 1 []))) [
        | inl e ↦ rw e (base_once f i _ (weigh-add_par f i.base))
        | inr e ↦ rw e (base_once f i _ (weigh-add_pxx f i.base))
      ]
  add_known_par2-Once s f want_incomplete none i =
      add_new_par2-Once s f want_incomplete (s.par2subj_re f.subject) i

  maybe_add_parfile2-Once :
      (s : Surroundings) (f : NntpFile) (want_incomplete : Bool) (i : Par2Info)
      → Once2 f i (maybe_add_parfile2 s f want_incomplete i)
  unfolding maybe_add_parfile2 Once2
  maybe_add_parfile2-Once s f want_incomplete i = elim (Bool-cases (maybe_a_textpost s f)) [
    | inl e ↦ rw e tt
    | inr e ↦ rw e (
        add_known_par2-Once s f want_incomplete (first_match f.subject i.base.localpars.subjmatches)
          i)
  ]

  unfoldable pub weigh_par : ParInfo → ℕ
  weigh_par i = weigh_info w i.par1info + weigh_info2 w i.par2info

  weigh-or_par2 :
      (f : NntpFile) (i : ParInfo) (o1 : Option ParXInfo) (o2 : Option Par2Info)
      → Once1 f i.par1info o1
      → Once2 f i.par2info o2
      → weigh_par (or_par2 i o1 o2).1 ≡ (if (or_par2 i o1 o2).0 then w f else 0) + weigh_par i
  unfolding or_par2 Once1 Once2 weigh_par
  weigh-or_par2 f i (some i1) o2 h g = omega (arith, h)
  weigh-or_par2 f i none (some i2) h g = omega (arith, g)
  weigh-or_par2 f i none none h g = omega arith

-- Where ParInfo::maybe_add_parfile returns true, the file is noted in exactly one of the lists of
-- the two kinds of par sets and nothing else changes in them: whatever files weigh, the lists weigh
-- more by this file. Where it returns false, they weigh the same.
pub weigh-maybe_add_parfile :
    (w : NntpFile → ℕ) (s : Surroundings) (f : NntpFile) (want_incomplete : Bool) (i : ParInfo)
    → weigh_par w (maybe_add_parfile s f want_incomplete i).1
      ≡ (if (maybe_add_parfile s f want_incomplete i).0 then w f else 0) + weigh_par w i
unfolding maybe_add_parfile
weigh-maybe_add_parfile w s f want_incomplete i =
    weigh-or_par2 w f i (maybe_add_parfile1 s f want_incomplete i.par1info)
      (maybe_add_parfile2 s f want_incomplete i.par2info)
      (maybe_add_parfile1-Once w s f want_incomplete i.par1info)
      (maybe_add_parfile2-Once w s f want_incomplete i.par2info)
