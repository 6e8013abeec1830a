-- ===== src/Base/Results.antt =====
-- The pair (value, error) that a Go function returns, of which the caller reads one.

pub data Result {ℓ κ} (E : Type κ) (A : Type ℓ) : Type (ℓ ⊔ κ) where
  ok : A → Result E A
  err : E → Result E A
