-- ===== src/Par/Rounds.antt =====
-- The loops of par.cc over localpars.basefilenames: a round for each par set.
use nget.Prelude.{
  ℕ, ◌≤◌, ◌≡◌, refl, List, [], ◌∷◌, ◌++◌, Bool, true, false, if◌then◌else◌, Text, eq_text,
  eq_text_refl, arith,
}

-- a set of texts
unfoldable pub has_text : Text → List Text → Bool
unfolding eq_text
has_text t [] = false
has_text t (u ∷ us) = if eq_text t u then true else has_text t us

unfoldable pub over_sets {ℓ} :
    {R : Type ℓ} → (Text → List Text → R → R) → List (Text × List Text) → R → R
over_sets next [] r = r
over_sets next ((key, names) ∷ sets) r = over_sets next sets (next key names r)

-- every set's hash is among the finished ones
unfoldable pub AllFinished : List (Text × List Text) → List Text → Type 0
AllFinished [] finished = Unit
AllFinished ((key, names) ∷ sets) finished =
    (has_text key finished ≡ true) × AllFinished sets finished

pub has_text-append :
    (t u : Text) (ts : List Text) → has_text t ts ≡ true → has_text t (ts ++ u ∷ []) ≡ true
unfolding has_text
has_text-append t u [] h = absurd (ground arith)
has_text-append t u (v ∷ vs) h = ground (arith, has_text-append t u vs)

pub has_text-last : (t : Text) (ts : List Text) → has_text t (ts ++ t ∷ []) ≡ true
unfolding has_text
has_text-last t [] = rw (eq_text_refl t) refl
has_text-last t (v ∷ vs) = ground (arith, has_text-last t vs)

-- a later state of a loop: nothing that is finished or added is taken back
pub record IsLater (finished : List Text) (added : ℕ) (finished' : List Text) (added' : ℕ)
    : Type 0 where
  pub adds : added ≤ added'
  pub keeps : (t : Text) → has_text t finished ≡ true → has_text t finished' ≡ true

-- a round for a par set: it is finished with, or files are added
pub record IsRound (key : Text) (finished : List Text) (added : ℕ) (finished' : List Text)
    (added' : ℕ) : Type 0 where
  pub later : IsLater finished added finished' added'
  pub progress : added' ≤ added → has_text key finished' ≡ true

pub later_refl : (finished : List Text) (added : ℕ) → IsLater finished added finished added
later_refl finished added = record { adds = omega arith; keeps = λ t h. h }

later_trans :
    (f f' f'' : List Text) (a a' a'' : ℕ)
    → IsLater f a f' a'
    → IsLater f' a' f'' a''
    → IsLater f a f'' a''
later_trans f f' f'' a a' a'' first second = record {
  adds = omega (arith, first.adds, second.adds);
  keeps = λ t h. second.keeps t (first.keeps t h);
}

-- a round that finishes with the set, and one that does where nothing is added
pub finishing-IsRound :
    (key : Text) (finished : List Text) (added : ℕ)
    → IsRound key finished added (finished ++ key ∷ []) added
finishing-IsRound key finished added = record {
  later = record { adds = omega arith; keeps = λ t. has_text-append t key finished };
  progress = λ h. has_text-last key finished;
}

module _ {ℓ} {R : Type ℓ} (finished : R → List Text) (added : R → ℕ)
    (next : Text → List Text → R → R)
    (round : (key : Text) (names : List Text) (r : R)
      → IsRound key
          (finished r)
          (added r)
          (finished (next key names r))
          (added (next key names r))) where
  over_sets-IsLater :
      (sets : List (Text × List Text)) (r : R)
      → IsLater
          (finished r)
          (added r)
          (finished (over_sets next sets r))
          (added (over_sets next sets r))
  unfolding over_sets
  over_sets-IsLater [] r = later_refl (finished r) (added r)
  over_sets-IsLater ((key, names) ∷ sets) r =
      later_trans (finished r) (finished (next key names r))
        (finished (over_sets next sets (next key names r))) (added r) (added (next key names r))
        (added (over_sets next sets (next key names r))) (round key names r).later
        (over_sets-IsLater sets (next key names r))

  pub over_sets-AllFinished :
      (sets : List (Text × List Text)) (r : R)
      → added (over_sets next sets r) ≤ added r
      → AllFinished sets (finished (over_sets next sets r))
  unfolding over_sets AllFinished
  over_sets-AllFinished [] r h = tt
  over_sets-AllFinished ((key, names) ∷ sets) r h = (
    rest.keeps key ((round key names r).progress (omega (arith, h, rest.adds))),
    over_sets-AllFinished sets (next key names r)
        (omega (arith, h, (round key names r).later.adds)),
  )
    where
      rest :
          IsLater
            (finished (next key names r))
            (added (next key names r))
            (finished (over_sets next sets (next key names r)))
            (added (over_sets next sets (next key names r)))
      rest = over_sets-IsLater sets (next key names r)
