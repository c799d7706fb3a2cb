-- ===== src/Prelude/Results.antt =====
-- What code that throws gives back.
pub data Outcome {ℓ} (E : Type 0) (A : Type ℓ) : Type ℓ where
  ok : A → Outcome E A
  thrown : E → Outcome E A

unfoldable pub and_then {ℓ} :
    {E : Type 0} {A B : Type ℓ} → Outcome E A → (A → Outcome E B) → Outcome E B
and_then (ok x) f = f x
and_then (thrown e) f = thrown e
