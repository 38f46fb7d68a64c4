-- ===== src/Base/Asserts.antt =====
-- The result of code that may run into a failing `assert`.

-- A call returns, or it does not get to its end in a state that C defines: an `assert` stops the
-- system, a write goes past the end of an array, or NULL is read through.
pub data Outcome {ℓ} (A : Type ℓ) : Type ℓ where
  done : A → Outcome A
  halted : Outcome A

infixl 5 ◌>>=◌
abbrev pub ◌>>=◌ {ℓ κ} : {A : Type ℓ} {B : Type κ} → Outcome A → (A → Outcome B) → Outcome B
done a >>= f = f a
halted >>= f = halted
