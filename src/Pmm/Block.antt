-- ===== src/Pmm/Block.antt =====
-- One block: what `_set_block` and `_unset_block` do to `_test_block`, at every block.
use native.Mathlib.Nat.{pow-le-pow_right, one-le-pow}
use cordell_os.Base.{
  ℕ, zero, suc, ◌*◌, ◌/◌, ◌%◌, ◌^◌, ◌<◌, ◌≡◌, refl, true, false, not, arith, length, length-set,
  get_or-set_self, get_or-set_ne, set, bit_or, bit_and, ◌==◌, if◌then◌else◌, not32,
}
use cordell_os.Base.Bits.{
  bit, bit-lt, bit-bit_or, bit-bit_and, bit-pow, bit-complement, bit_and-pow,
}
use cordell_os.Pmm.{PmmMap, word_of, mask_of, set_block, unset_block, test_block}

-- The map has a word for block `b`.
abbrev pub InMap : PmmMap → ℕ → Type 0
InMap m b = b < length m.memory_map * 32

mask-eq-pow : (b : ℕ) → mask_of b ≡ 2 ^ (b % 32)
mask-eq-pow b = omega arith

mask-lt : (b : ℕ) → 2 ^ (b % 32) < 2 ^ 32
mask-lt b =
    omega (arith, pow-le-pow_right {n = 2} (omega arith) {i = b % 32} {j = 31} (omega arith))

pub test_block-bit : (m : PmmMap) (b : ℕ) → test_block m b ≡ (bit (b % 32) (word_of m b) == 1)
unfolding test_block
test_block-bit m b =
    rw (mask-eq-pow b, bit_and-pow (b % 32) (word_of m b))
      (digit (bit (b % 32) (word_of m b)) (bit-lt (b % 32) (word_of m b)))
  where
    digit : (d : ℕ) → d < 2 → not (d * 2 ^ (b % 32) == 0) ≡ (d == 1)
    digit zero h = ground arith
    digit (suc zero) h = ground (arith, one-le-pow (b % 32) 2)
    digit (suc (suc d)) h = absurd (omega arith)

-- The word of `j` after the word of `b` is written.
word-set :
    (m : PmmMap) (b j v : ℕ)
    → InMap m b
    → word_of (record m { memory_map = set m.memory_map (b / 32) v }) j
      ≡ (if j / 32 == b / 32 then v else word_of m j)
word-set m b j v h = ground (
  arith,
  get_or-set_self m.memory_map (b / 32) v 0 (omega arith),
  get_or-set_ne m.memory_map (b / 32) (j / 32) v 0,
)

pub test_block-set_block :
    (m : PmmMap) (b j : ℕ)
    → InMap m b
    → test_block (set_block m b) j ≡ (if j == b then true else test_block m j)
unfolding set_block
test_block-set_block m b j h = ground (
  arith,
  test_block-bit (set_block m b) j,
  test_block-bit m j,
  word-set m b j (bit_or (word_of m b) (mask_of b)) h,
  bit-bit_or (j % 32) (word_of m b) (2 ^ (b % 32)),
  bit-pow (j % 32) (b % 32),
  bit-lt (j % 32) (word_of m b),
  mask-eq-pow b,
)

pub test_block-unset_block :
    (m : PmmMap) (b j : ℕ)
    → InMap m b
    → test_block (unset_block m b) j ≡ (if j == b then false else test_block m j)
unfolding unset_block
test_block-unset_block m b j h = ground (
  arith,
  test_block-bit (unset_block m b) j,
  test_block-bit m j,
  word-set m b j (bit_and (word_of m b) (not32 (mask_of b))) h,
  bit-bit_and (j % 32) (word_of m b) (not32 (2 ^ (b % 32))),
  bit-complement 32 (j % 32) (2 ^ (b % 32)) (omega arith) (mask-lt b),
  bit-pow (j % 32) (b % 32),
  bit-lt (j % 32) (word_of m b),
  mask-eq-pow b,
)

module _ (m : PmmMap) (b : ℕ) where
  pub length-set_block : length (set_block m b).memory_map ≡ length m.memory_map
  unfolding set_block
  length-set_block = length-set m.memory_map (b / 32) (bit_or (word_of m b) (mask_of b))

  pub length-unset_block : length (unset_block m b).memory_map ≡ length m.memory_map
  unfolding unset_block
  length-unset_block = length-set m.memory_map (b / 32) (bit_and (word_of m b) (not32 (mask_of b)))

  pub max-set_block : (set_block m b).max_blocks ≡ m.max_blocks
  unfolding set_block
  max-set_block = refl

  pub max-unset_block : (unset_block m b).max_blocks ≡ m.max_blocks
  unfolding unset_block
  max-unset_block = refl
