-- ===== src/Prelude/Outcome.antt =====
-- `Result<T, E>` of the source.

pub data Result {ℓ κ} (A : Type ℓ) (E : Type κ) : Type (ℓ ⊔ κ) where
  ok : A → Result A E
  err : E → Result A E
