-- ===== src/Base/Int.antt =====
-- Signed results over the native numbers.
use Prim.Native.Nat.{ℕ, ◌-◌}
use cordell_os.Base.Tests.{leb, if◌then◌else◌}

pub data ℤ : Type 0 where
  pos : ℕ → ℤ
  negsuc : ℕ → ℤ

-- `a - b` for two numbers that have no sign.
abbrev pub minus : ℕ → ℕ → ℤ
minus a b = if leb b a then pos (a - b) else negsuc (b - a - 1)

-- `-n`
abbrev pub negated : ℕ → ℤ
negated n = minus 0 n
