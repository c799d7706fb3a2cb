-- ===== src/Grouplist/Sets.antt =====
-- What a set of server ids has.
use nget.Prelude.{ℕ, ◌+◌, ◌-◌, ◌≡◌, refl, List, [], ◌∷◌, true, ◌==◌, ltb, if◌then◌else◌, arith}
use nget.Grouplist.{has_id, insert_id, erase_id, no_ids}

-- how often an id is there
unfoldable pub occurs : ℕ → List ℕ → ℕ
occurs k [] = 0
occurs k (m ∷ ms) = if m == k then 1 + occurs k ms else occurs k ms

pub has_id-occurs : (k : ℕ) (ms : List ℕ) → has_id k ms ≡ ltb 0 (occurs k ms)
unfolding has_id occurs
has_id-occurs k [] = ground arith
has_id-occurs k (m ∷ ms) = ground (arith, has_id-occurs k ms)

pub occurs-erase_id :
    (k n : ℕ) (ms : List ℕ)
    → occurs k (erase_id n ms) ≡ (if k == n then occurs k ms - 1 else occurs k ms)
unfolding erase_id occurs
occurs-erase_id k n [] = ground arith
occurs-erase_id k n (m ∷ ms) = ground (arith, occurs-erase_id k n ms)

pub occurs-insert_id :
    (k n : ℕ) (ms : List ℕ)
    → occurs n ms ≡ 0
    → occurs k (insert_id n ms) ≡ (if k == n then 1 + occurs k ms else occurs k ms)
unfolding insert_id occurs
occurs-insert_id k n [] h = ground arith
occurs-insert_id k n (m ∷ ms) h = ground (arith, occurs-insert_id k n ms)

pub no_ids-occurs : (k : ℕ) (ms : List ℕ) → no_ids ms ≡ true → occurs k ms ≡ 0
unfolding no_ids occurs
no_ids-occurs k [] e = refl
no_ids-occurs k (m ∷ ms) e = absurd (ground arith)
