-- ===== src/Prelude/Results.antt =====
-- Go's `(value, error)` pairs, and runs that may panic.

pub data Result {ℓ κ} (E : Type ℓ) (A : Type κ) : Type (ℓ ⊔ κ) where
  ok : A → Result E A
  err : E → Result E A

-- `crash` is a run-time panic of Go, such as an index out of range; where a loop is bounded by
-- fuel it also stands for the fuel running out.
pub data Run {ℓ} (A : Type ℓ) : Type ℓ where
  done : A → Run A
  crash : Run A

infixl 5 ◌>>=◌
abbrev pub ◌>>=◌ {ℓ κ} : {A : Type ℓ} {B : Type κ} → Run A → (A → Run B) → Run B
done a >>= f = f a
crash >>= f = crash
