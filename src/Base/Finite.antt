-- ===== src/Base/Finite.antt =====
-- Facts about the numbers below a bound, by trying each of them.
use Prim.Native.Nat.{ℕ, zero, suc, ◌<◌}
use mathlib.Core.Path.{◌≡◌}
use mathlib.Core.Logic.{inl, inr}
use mathlib.Core.Bool.{Bool, true, ◌&&◌}
use native.Mathlib.Omega.{arith}
use cordell_os.Base.Tests.{◌==◌, Bool-cases}

-- A test at every number below a bound.
abbrev pub all_below : ℕ → (ℕ → Bool) → Bool
all_below zero test = true
all_below (suc n) test = test n && all_below n test

pub all_below_lem :
    (n : ℕ) (test : ℕ → Bool) (k : ℕ) → all_below n test ≡ true → k < n → test k ≡ true
all_below_lem zero test k h lt = absurd (omega arith)
all_below_lem (suc n) test k h lt = elim (Bool-cases (k == n)) [
  | inl e ↦ let same : k ≡ n = ground arith in rw same (ground arith)
  | inr e ↦ all_below_lem n test k (ground arith) (ground arith)
]
