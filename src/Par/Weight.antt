-- ===== src/Par/Weight.antt =====
-- No file is lost or fetched twice: the weight of the files that are noted, and of those to fetch.
use nget.Prelude.{
  ℕ, zero, suc, ◌+◌, ◌≡◌, refl, ap, ◌∙◌, List, [], ◌∷◌, ◌++◌, Bool, false, inl, inr, Bool-cases,
  ltb, Option, some, none, Text, get_elem?, arith,
}
use nget.Cache.{NntpFile}
use nget.Par.{
  Surroundings, insert_server_file, FileRetr, insert_retr, NntpFilesU, addfile, ParSetInfo,
  ParXInfo, Par2Info,
}
use nget.Par.Sets.{
  Fetch, fetch_all, smallest_of, erase_file, initial_pxx, initial_set, get_initial_set,
}
use nget.Par.Info.{fetch_sets, get_initial_pars}

module _ (w : NntpFile → ℕ) where
  -- what files weigh
  unfoldable pub weigh_files : List NntpFile → ℕ
  weigh_files [] = 0
  weigh_files (f ∷ fs) = w f + weigh_files fs

  unfoldable pub weigh_retrs : List FileRetr → ℕ
  weigh_retrs [] = 0
  weigh_retrs (r ∷ rs) = w r.file + weigh_retrs rs

  unfoldable pub weigh_set : ParSetInfo → ℕ
  unfolding weigh_files
  weigh_set p = weigh_files p.serverpars + weigh_files p.serverpxxs

  unfoldable pub weigh_sets : List (Text × ParSetInfo) → ℕ
  unfolding weigh_set
  weigh_sets [] = 0
  weigh_sets ((name, p) ∷ ps) = weigh_set p + weigh_sets ps

  unfoldable pub weigh_info : ParXInfo → ℕ
  unfolding weigh_files weigh_sets
  weigh_info i = weigh_files i.serverpars + weigh_files i.serverpxxs + weigh_sets i.parsets

  unfoldable pub weigh_info2 : Par2Info → ℕ
  unfolding weigh_info weigh_files
  weigh_info2 i = weigh_info i.base + weigh_files i.serverextradata

  unfoldable pub weigh_fc : NntpFilesU → ℕ
  unfolding weigh_retrs
  weigh_fc fc = weigh_retrs fc.files

  pub weigh-insert_server_file :
      (f : NntpFile) (fs : List NntpFile)
      → weigh_files (insert_server_file f fs) ≡ w f + weigh_files fs
  unfolding weigh_files insert_server_file
  weigh-insert_server_file f [] = refl
  weigh-insert_server_file f (g ∷ gs) = ground (arith, weigh-insert_server_file f gs)

  weigh-insert_retr :
      (r : FileRetr) (rs : List FileRetr)
      → weigh_retrs (insert_retr r rs) ≡ w r.file + weigh_retrs rs
  unfolding weigh_retrs insert_retr
  weigh-insert_retr r [] = refl
  weigh-insert_retr r (q ∷ qs) = ground (arith, weigh-insert_retr r qs)

  pub weigh-append :
      (fs gs : List NntpFile) → weigh_files (fs ++ gs) ≡ weigh_files fs + weigh_files gs
  unfolding weigh_files
  weigh-append [] gs = omega arith
  weigh-append (f ∷ fs) gs = omega (arith, weigh-append fs gs)

  module _ (s : Surroundings) where
    pub weigh-addfile :
        (f : NntpFile) (path temppath : Text) (dupecheck : Bool) (fc : NntpFilesU)
        → weigh_fc (addfile s f path temppath dupecheck fc) ≡ w f + weigh_fc fc
    unfolding weigh_fc addfile
    weigh-addfile f path temppath dupecheck fc = weigh-insert_retr _ fc.files

    pub weigh-fetch_all :
        (path temppath : Text) (fs : List NntpFile) (r : Fetch)
        → weigh_fc (fetch_all s path temppath fs r).fc ≡ weigh_files fs + weigh_fc r.fc
    unfolding weigh_files fetch_all
    weigh-fetch_all path temppath [] r = omega arith
    weigh-fetch_all path temppath (f ∷ fs) r =
        weigh-fetch_all path temppath fs
          (record { count = r.count + 1; fc = addfile s f path temppath false r.fc })
        ∙ omega (arith, weigh-addfile f path temppath false r.fc)

  abbrev weigh_option : Option NntpFile → ℕ
  weigh_option none = 0
  weigh_option (some f) = w f

  weigh-erase_file :
      (i : ℕ) (fs : List NntpFile) (f : NntpFile)
      → get_elem? fs i ≡ some f
      → weigh_files (erase_file i fs) + w f ≡ weigh_files fs
  unfolding weigh_files erase_file
  weigh-erase_file i [] f h = ground arith
  weigh-erase_file zero (g ∷ gs) f h = omega (arith, ap weigh_option h)
  weigh-erase_file (suc i) (g ∷ gs) f h = omega (arith, weigh-erase_file i gs f h)

-- the file that is found stands where it is said to stand
get_elem?-smallest_of :
    (s : Surroundings) (all : List NntpFile) (smallest : NntpFile) (a c : ℕ) (fs : List NntpFile)
    → get_elem? all a ≡ some smallest
    → ((k : ℕ) → get_elem? all (c + k) ≡ get_elem? fs k)
    → get_elem? all (smallest_of s smallest a c fs).0 ≡ some (smallest_of s smallest a c fs).1
unfolding smallest_of
get_elem?-smallest_of s all smallest a c [] here rest = here
get_elem?-smallest_of s all smallest a c (f ∷ fs) here rest =
    elim (Bool-cases (ltb (s.bytes f) (s.bytes smallest))) [
      | inl e ↦ rw e (get_elem?-smallest_of s all f c (suc c) fs first next)
      | inr e ↦ rw e (get_elem?-smallest_of s all smallest a (suc c) fs here next)
    ]
  where
    shifted : (k : ℕ) → suc c + k ≡ c + suc k
    shifted k = omega arith

    right_zero : c ≡ c + 0
    right_zero = omega arith

    first : get_elem? all c ≡ some f
    first = ap (get_elem? all) right_zero ∙ rest 0

    next : (k : ℕ) → get_elem? all (suc c + k) ≡ get_elem? fs k
    next k = ap (get_elem? all) (shifted k) ∙ rest (suc k)

smallest_there :
    (s : Surroundings) (f : NntpFile) (fs : List NntpFile)
    → get_elem? (f ∷ fs) (smallest_of s f 0 1 fs).0 ≡ some (smallest_of s f 0 1 fs).1
smallest_there s f fs =
    get_elem?-smallest_of s (f ∷ fs) f 0 1 fs refl (λ k. ap (get_elem? (f ∷ fs)) (one_more k))
  where
    one_more : (k : ℕ) → 1 + k ≡ suc k
    one_more k = omega arith

module _ (w : NntpFile → ℕ) (s : Surroundings) (path temppath : Text) where
  weigh-initial_pxx :
      (pxxs : List NntpFile) (fc : NntpFilesU)
      → weigh_fc w (initial_pxx s path temppath pxxs fc).0.fc
          + weigh_set w (initial_pxx s path temppath pxxs fc).1
        ≡ weigh_files w pxxs + weigh_fc w fc
  unfolding initial_pxx weigh_set weigh_files
  weigh-initial_pxx [] fc = omega arith
  weigh-initial_pxx (f ∷ fs) fc = omega (
    arith,
    weigh-addfile w s (smallest_of s f 0 1 fs).1 path temppath false fc,
    weigh-erase_file w _ (f ∷ fs) _ (smallest_there s f fs),
  )

  weigh-initial_set :
      (pars pxxs : List NntpFile) (fc : NntpFilesU)
      → weigh_fc w (initial_set s path temppath pars pxxs fc).0.fc
          + weigh_set w (initial_set s path temppath pars pxxs fc).1
        ≡ weigh_files w pars + weigh_files w pxxs + weigh_fc w fc
  unfolding initial_set weigh_set weigh_files
  weigh-initial_set [] pxxs fc = omega (arith, weigh-initial_pxx pxxs fc)
  weigh-initial_set (f ∷ fs) pxxs fc =
      omega (arith, weigh-fetch_all w s path temppath (f ∷ fs) (record { count = 0; fc = fc }))

  weigh-get_initial_set :
      (p : ParSetInfo) (fc : NntpFilesU)
      → weigh_fc w (get_initial_set s path temppath p fc).0.fc
          + weigh_set w (get_initial_set s path temppath p fc).1
        ≡ weigh_set w p + weigh_fc w fc
  unfolding get_initial_set weigh_set
  weigh-get_initial_set p fc = weigh-initial_set p.serverpars p.serverpxxs fc

  weigh-fetch_sets :
      (ps : List (Text × ParSetInfo)) (r : Fetch)
      → weigh_fc w (fetch_sets s path temppath ps r).0.fc
          + weigh_sets w (fetch_sets s path temppath ps r).1
        ≡ weigh_sets w ps + weigh_fc w r.fc
  unfolding fetch_sets weigh_sets
  weigh-fetch_sets [] r = omega arith
  weigh-fetch_sets ((name, p) ∷ ps) r = omega (
    arith,
    weigh-get_initial_set p r.fc,
    weigh-fetch_sets ps (record {
      count = r.count + (get_initial_set s path temppath p r.fc).0.count;
      fc = (get_initial_set s path temppath p r.fc).0.fc;
    }),
  )

-- The files that get_initial_pars takes off its lists are the files that it adds to those to
-- fetch: whatever files weigh, the lists and the files to fetch together weigh the same before and
-- after.
pub weigh-get_initial_pars :
    (w : NntpFile → ℕ) (s : Surroundings) (i : ParXInfo) (fc : NntpFilesU)
    → weigh_fc w (get_initial_pars s i fc).0.fc + weigh_info w (get_initial_pars s i fc).1
      ≡ weigh_info w i + weigh_fc w fc
unfolding get_initial_pars weigh_info weigh_files
weigh-get_initial_pars w s i fc = omega (
  arith,
  weigh-fetch_all w s i.path i.temppath i.serverpars (record { count = 0; fc = fc }),
  weigh-fetch_sets w s i.path i.temppath i.parsets
      (fetch_all s i.path i.temppath i.serverpars (record { count = 0; fc = fc })),
)
