-- ===== src/Common/Results.antt =====
-- The outcome of fallible code: a value, or an error of the component.
pub data Result {ℓ} (E A : Type ℓ) : Type ℓ where
  ok : A → Result E A
  err : E → Result E A
