-- ===== src/Base/Bits/Digits.antt =====
-- The native operators are recursions on binary digits with fuel. Here is what each does to the
-- lowest digit, with the fuel gone.
use Prim.Native.Nat.{
  ℕ, zero, suc, ◌+◌, ◌*◌, ◌/◌, ◌%◌, ◌≤◌, min, max, bit_and, bit_or, bit_xor, digits, differ,
  bit_and-bitwise, bit_or-bitwise, bit_xor-bitwise,
}
use mathlib.Core.Path.{◌≡◌, refl}
use native.Mathlib.Omega.{arith}

-- Once `a` has no more digits, further fuel changes nothing.
module _ (rest : ℕ → ℕ) (f : ℕ → ℕ → ℕ) where
  enough : (m n a b : ℕ) → a ≤ m → a ≤ n → digits rest f m a b ≡ digits rest f n a b
  enough zero zero a b p q = refl
  enough zero (suc n) zero b p q = refl
  enough (suc m) zero zero b p q = refl
  enough zero (suc n) (suc a) b p q = absurd (omega arith)
  enough (suc m) zero (suc a) b p q = absurd (omega arith)
  enough (suc m) (suc n) zero b p q = refl
  enough (suc m) (suc n) (suc a) b p q =
      omega (arith, enough m n (suc a / 2) (b / 2) (omega arith) (omega arith))

pub and_lowest : (x y : ℕ) → bit_and x y ≡ bit_and (x / 2) (y / 2) * 2 + min (x % 2) (y % 2)
and_lowest zero y = omega (arith, bit_and-bitwise zero y, bit_and-bitwise zero (y / 2))
and_lowest (suc x) y = omega (
  arith,
  bit_and-bitwise (suc x) y,
  bit_and-bitwise (suc x / 2) (y / 2),
  enough (λ b. 0) min x (suc x / 2) (suc x / 2) (y / 2) (omega arith) (omega arith),
)

pub or_lowest : (x y : ℕ) → bit_or x y ≡ bit_or (x / 2) (y / 2) * 2 + max (x % 2) (y % 2)
or_lowest zero y = omega (arith, bit_or-bitwise zero y, bit_or-bitwise zero (y / 2))
or_lowest (suc x) y = omega (
  arith,
  bit_or-bitwise (suc x) y,
  bit_or-bitwise (suc x / 2) (y / 2),
  enough (λ b. b) max x (suc x / 2) (suc x / 2) (y / 2) (omega arith) (omega arith),
)

-- `^` of two digits.
xor_digit : (a b : ℕ) → a ≤ 1 → b ≤ 1 → differ a b ≡ (a + b) % 2
xor_digit zero b p q = omega arith
xor_digit (suc zero) zero p q = omega arith
xor_digit (suc zero) (suc zero) p q = omega arith
xor_digit (suc zero) (suc (suc b)) p q = absurd (omega arith)
xor_digit (suc (suc a)) b p q = absurd (omega arith)

pub xor_lowest : (x y : ℕ) → bit_xor x y ≡ bit_xor (x / 2) (y / 2) * 2 + (x % 2 + y % 2) % 2
xor_lowest zero y = omega (arith, bit_xor-bitwise zero y, bit_xor-bitwise zero (y / 2))
xor_lowest (suc x) y = omega (
  arith,
  bit_xor-bitwise (suc x) y,
  bit_xor-bitwise (suc x / 2) (y / 2),
  enough (λ b. b) differ x (suc x / 2) (suc x / 2) (y / 2) (omega arith) (omega arith),
  xor_digit (suc x % 2) (y % 2) (omega arith) (omega arith),
)
