-- ===== src/Base/Bits.antt =====
-- The bit operators `&`, `|`, `^` at variables. A number is known by its binary digits, and each
-- operator acts digit by digit; the masks and fields that the kernel uses follow from that.
mod Digits
use mathlib.Core.Path.{◌≡◌, refl, ap, ap₂, ◌∙◌, sym}
use mathlib.Core.Logic.{◌≢◌}
use mathlib.Core.Bool.{Bool, true, false}
use Prim.Native.Nat.{
  ℕ, zero, suc, ◌+◌, ◌-◌, ◌*◌, ◌/◌, ◌%◌, ◌^◌, ◌≤◌, ◌<◌, min, max, bit_and, bit_or, bit_xor,
}
use native.Mathlib.Omega.{arith}
use native.Mathlib.Nat.{pow-suc, one-le-pow, mul_comm, div-add-mod, div-div-eq-div-mul}
use cordell_os.Base.Tests.{◌==◌, if◌then◌else◌}
use Digits.{and_lowest, or_lowest, xor_lowest}

-- Digit `k` of `x`.
abbrev pub bit : ℕ → ℕ → ℕ
bit zero x = x % 2
bit (suc k) x = bit k (x / 2)

pub bit-lt : (k x : ℕ) → bit k x < 2
bit-lt zero x = omega arith
bit-lt (suc k) x = bit-lt k (x / 2)

pub bit-bit_or : (k x y : ℕ) → bit k (bit_or x y) ≡ max (bit k x) (bit k y)
bit-bit_or zero x y = omega (arith, or_lowest x y)
bit-bit_or (suc k) x y =
    let e : bit_or x y / 2 ≡ bit_or (x / 2) (y / 2) = omega (arith, or_lowest x y) in
    rw e (bit-bit_or k (x / 2) (y / 2))

pub bit-bit_and : (k x y : ℕ) → bit k (bit_and x y) ≡ min (bit k x) (bit k y)
bit-bit_and zero x y = omega (arith, and_lowest x y)
bit-bit_and (suc k) x y =
    let e : bit_and x y / 2 ≡ bit_and (x / 2) (y / 2) = omega (arith, and_lowest x y) in
    rw e (bit-bit_and k (x / 2) (y / 2))

pub bit-bit_xor : (k x y : ℕ) → bit k (bit_xor x y) ≡ (bit k x + bit k y) % 2
bit-bit_xor zero x y = omega (arith, xor_lowest x y)
bit-bit_xor (suc k) x y =
    let e : bit_xor x y / 2 ≡ bit_xor (x / 2) (y / 2) = omega (arith, xor_lowest x y) in
    rw e (bit-bit_xor k (x / 2) (y / 2))

pub bit-zero : (k : ℕ) → bit k 0 ≡ 0
bit-zero zero = refl
bit-zero (suc k) = bit-zero k

-- The digits of a power of two.
pub bit-pow : (j k : ℕ) → bit j (2 ^ k) ≡ (if j == k then 1 else 0)
bit-pow zero zero = refl
bit-pow zero (suc k) = grind (arith, pow-suc 2 k)
bit-pow (suc j) zero = ground (arith, bit-zero j)
bit-pow (suc j) (suc k) =
    let e : 2 ^ suc k / 2 ≡ 2 ^ k = omega (arith, pow-suc 2 k) in rw e (ground (arith, bit-pow j k))

-- A number below `2 ^ w` is zero from digit `w` on.
pub bit_above : (w k x : ℕ) → x < 2 ^ w → w ≤ k → bit k x ≡ 0
bit_above zero k x h p = let e : x ≡ 0 = omega arith in rw e (bit-zero k)
bit_above (suc w) zero x h p = absurd (omega arith)
bit_above (suc w) (suc k) x h p = bit_above w k (x / 2) (omega (arith, pow-suc 2 w)) (omega arith)

-- Numbers of one width with the same digits are equal.
pub bit_ext : (w x y : ℕ) → x < 2 ^ w → y < 2 ^ w → ((k : ℕ) → k < w → bit k x ≡ bit k y) → x ≡ y
bit_ext zero x y hx hy h = omega arith
bit_ext (suc w) x y hx hy h = omega (
  arith,
  h 0 (omega arith),
  bit_ext w (x / 2) (y / 2) (omega (arith, pow-suc 2 w)) (omega (arith, pow-suc 2 w))
      (λ k p. h (suc k) (omega arith)),
)

-- `~x` flips each digit of the width.
pub bit-complement : (w k x : ℕ) → k < w → x < 2 ^ w → bit k (2 ^ w - 1 - x) ≡ 1 - bit k x
bit-complement zero k x p h = absurd (omega arith)
bit-complement (suc w) zero x p h = omega (arith, pow-suc 2 w)
bit-complement (suc w) (suc k) x p h =
    let e : (2 ^ suc w - 1 - x) / 2 ≡ 2 ^ w - 1 - x / 2 = omega (arith, pow-suc 2 w) in
    rw e (bit-complement w k (x / 2) (omega arith) (omega (arith, pow-suc 2 w)))

and_zero_fuel : (n x : ℕ) → x ≤ n → bit_and x 0 ≡ 0
and_zero_fuel n zero h = refl
and_zero_fuel zero (suc x) h = absurd (omega arith)
and_zero_fuel (suc n) (suc x) h =
    omega (arith, and_lowest (suc x) 0, and_zero_fuel n (suc x / 2) (omega arith))

pub bit_and-zero : (x : ℕ) → bit_and x 0 ≡ 0
bit_and-zero x = and_zero_fuel x x (omega arith)

or_zero_fuel : (n x : ℕ) → x ≤ n → bit_or x 0 ≡ x
or_zero_fuel n zero h = refl
or_zero_fuel zero (suc x) h = absurd (omega arith)
or_zero_fuel (suc n) (suc x) h =
    omega (arith, or_lowest (suc x) 0, or_zero_fuel n (suc x / 2) (omega arith))

pub bit_or-zero : (x : ℕ) → bit_or x 0 ≡ x
bit_or-zero x = or_zero_fuel x x (omega arith)

-- Halving under a modulus or a divisor that doubles.
mod-double : (m x : ℕ) → 0 < m → x % (m * 2) ≡ x / 2 % m * 2 + x % 2
mod-double m x h = grind (arith, div-add-mod (x / 2) m)

div-double : (m x : ℕ) → 0 < m → x / (m * 2) ≡ x / 2 / m
div-double m x h = ap (λ t. x / t) (mul_comm m 2) ∙ sym (div-div-eq-div-mul x 2 m)

-- A mask of the low `w` digits is a remainder.
pub bit_and_mask : (w x : ℕ) → bit_and x (2 ^ w - 1) ≡ x % 2 ^ w
bit_and_mask zero x = omega (arith, bit_and-zero x)
bit_and_mask (suc w) x = ground (
  arith,
  and_lowest x (2 ^ suc w - 1),
  pow-suc 2 w,
  one-le-pow w 2,
  mod-double (2 ^ w) x,
  bit_and_mask w (x / 2),
)

-- A field above and a field below do not mix.
pub bit_or_fields : (w q r : ℕ) → r < 2 ^ w → bit_or (q * 2 ^ w) r ≡ q * 2 ^ w + r
bit_or_fields zero q r h = ground (arith, bit_or-zero q)
bit_or_fields (suc w) q r h = ground (
  arith,
  or_lowest (q * 2 ^ suc w) r,
  ap (λ (t : ℕ). q * t) (pow-suc 2 w),
  pow-suc 2 w,
  bit_or_fields w q (r / 2),
)

-- A mask of one digit reads that digit.
pub bit_and-pow : (k x : ℕ) → bit_and x (2 ^ k) ≡ bit k x * 2 ^ k
bit_and-pow zero x = omega (arith, and_lowest x 1, bit_and-zero (x / 2))
bit_and-pow (suc k) x = ground (
  arith,
  and_lowest x (2 ^ suc k),
  pow-suc 2 k,
  ap (λ (t : ℕ). bit k (x / 2) * t) (pow-suc 2 k),
  bit_and-pow k (x / 2),
)

-- A mask without its low `w` digits.
pub bit_and_high : (w x m : ℕ) → bit_and x (m * 2 ^ w) ≡ bit_and (x / 2 ^ w) m * 2 ^ w
bit_and_high zero x m = ground arith
bit_and_high (suc w) x m = ground (
  arith,
  and_lowest x (m * 2 ^ suc w),
  pow-suc 2 w,
  ap (λ (t : ℕ). m * t) (pow-suc 2 w),
  ap (λ (t : ℕ). bit_and (x / 2 ^ suc w) m * t) (pow-suc 2 w),
  div-double (2 ^ w) x,
  one-le-pow w 2,
  bit_and_high w (x / 2) m,
)

-- The low `w` digits of a field of ones are ones.
pub bit-ones : (w k q : ℕ) → k < w → bit k (q * 2 ^ w + (2 ^ w - 1)) ≡ 1
bit-ones zero k q h = absurd (omega arith)
bit-ones (suc w) zero q h =
    omega (arith, pow-suc 2 w, one-le-pow w 2, ap (λ (t : ℕ). q * t) (pow-suc 2 w))
bit-ones (suc w) (suc k) q h =
    let e : (q * 2 ^ suc w + (2 ^ suc w - 1)) / 2 ≡ q * 2 ^ w + (2 ^ w - 1) =
      omega (arith, pow-suc 2 w, one-le-pow w 2, ap (λ (t : ℕ). q * t) (pow-suc 2 w)) in
    rw e (bit-ones w k q (omega arith))

-- Halving takes the operator along.
pub or_high : (w x y : ℕ) → bit_or x y / 2 ^ w ≡ bit_or (x / 2 ^ w) (y / 2 ^ w)
or_high zero x y = ground arith
or_high (suc w) x y =
    let half : bit_or x y / 2 ≡ bit_or (x / 2) (y / 2) = omega (arith, or_lowest x y) in
    let step : (z : ℕ) → z / 2 ^ suc w ≡ z / 2 / 2 ^ w =
      λ z. ap (λ t. z / t) (pow-suc 2 w) ∙ div-double (2 ^ w) z (omega (arith, one-le-pow w 2)) in
    step (bit_or x y)
    ∙ ap (λ t. t / 2 ^ w) half
    ∙ or_high w (x / 2) (y / 2)
    ∙ ap₂ (λ a b. bit_or a b) (sym (step x)) (sym (step y))

-- A mask of a field above and of all digits below.
pub bit_and_fields :
    (w x m : ℕ) → bit_and x (m * 2 ^ w + (2 ^ w - 1)) ≡ bit_and (x / 2 ^ w) m * 2 ^ w + x % 2 ^ w
bit_and_fields zero x m = ground arith
bit_and_fields (suc w) x m = ground (
  arith,
  and_lowest x (m * 2 ^ suc w + (2 ^ suc w - 1)),
  pow-suc 2 w,
  ap (λ (t : ℕ). m * t) (pow-suc 2 w),
  ap (λ (t : ℕ). bit_and (x / 2 ^ suc w) m * t) (pow-suc 2 w),
  div-double (2 ^ w) x,
  mod-double (2 ^ w) x,
  one-le-pow w 2,
  bit_and_fields w (x / 2) m,
)

or_zero_below : (n x : ℕ) → x ≤ n → bit_or 0 x ≡ x
or_zero_below n zero h = refl
or_zero_below zero (suc x) h = absurd (omega arith)
or_zero_below (suc n) (suc x) h =
    omega (arith, or_lowest 0 (suc x), or_zero_below n (suc x / 2) (omega arith))

-- `bit_or_fields` with the lower field first.
pub bit_or_fields_below : (w q r : ℕ) → r < 2 ^ w → bit_or r (q * 2 ^ w) ≡ q * 2 ^ w + r
bit_or_fields_below zero q r h =
    let none_below : r ≡ 0 = omega arith in
    let one_times : q * 2 ^ 0 ≡ q = omega arith in
    rw (none_below, one_times) (or_zero_below q q (omega arith) ∙ omega arith)
bit_or_fields_below (suc w) q r h = ground (
  arith,
  or_lowest r (q * 2 ^ suc w),
  ap (λ (t : ℕ). q * t) (pow-suc 2 w),
  pow-suc 2 w,
  bit_or_fields_below w q (r / 2),
)
