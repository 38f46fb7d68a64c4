-- ===== src/Pmm/Range.antt =====
-- Runs of blocks: what the marking loops do to every block.
use cordell_os.Base.{
  ℕ, zero, suc, ◌+◌, ◌*◌, ◌≤◌, ◌≡◌, refl, Bool, true, false, ◌&&◌, arith, length, ltb, leb,
  if◌then◌else◌,
}
use cordell_os.Pmm.{PmmMap, set_block, unset_block, test_block, set_blocks, unset_blocks}
use cordell_os.Pmm.Block.{
  test_block-set_block, test_block-unset_block, length-set_block, length-unset_block, max-set_block,
  max-unset_block,
}

-- `j` is one of the `n` blocks from `b` on.
abbrev pub within : ℕ → ℕ → ℕ → Bool
within b n j = leb b j && ltb j (b + n)

-- The words and the bound of two maps agree in size.
pub record SameSize (m k : PmmMap) : Type 0 where
  pub words : length k.memory_map ≡ length m.memory_map
  pub blocks : k.max_blocks ≡ m.max_blocks

pub set_blocks-SameSize : (n : ℕ) (m : PmmMap) (b : ℕ) → SameSize m (set_blocks n m b)
unfolding set_blocks
set_blocks-SameSize zero m b = record { words = refl; blocks = refl }
set_blocks-SameSize (suc n) m b =
    ground (
      arith,
      set_blocks-SameSize n (set_block m b) (b + 1),
      length-set_block m b,
      max-set_block m b,
    )

pub unset_blocks-SameSize : (n : ℕ) (m : PmmMap) (b : ℕ) → SameSize m (unset_blocks n m b)
unfolding unset_blocks
unset_blocks-SameSize zero m b = record { words = refl; blocks = refl }
unset_blocks-SameSize (suc n) m b = ground (
  arith,
  unset_blocks-SameSize n (unset_block m b) (b + 1),
  length-unset_block m b,
  max-unset_block m b,
)

pub test_block-set_blocks :
    (n : ℕ) (m : PmmMap) (b j : ℕ)
    → b + n ≤ length m.memory_map * 32
    → test_block (set_blocks n m b) j ≡ (if within b n j then true else test_block m j)
unfolding set_blocks
test_block-set_blocks zero m b j h = ground arith
test_block-set_blocks (suc n) m b j h = ground (
  arith,
  test_block-set_blocks n (set_block m b) (b + 1) j,
  length-set_block m b,
  test_block-set_block m b j,
)

pub test_block-unset_blocks :
    (n : ℕ) (m : PmmMap) (b j : ℕ)
    → b + n ≤ length m.memory_map * 32
    → test_block (unset_blocks n m b) j ≡ (if within b n j then false else test_block m j)
unfolding unset_blocks
test_block-unset_blocks zero m b j h = ground arith
test_block-unset_blocks (suc n) m b j h = ground (
  arith,
  test_block-unset_blocks n (unset_block m b) (b + 1) j,
  length-unset_block m b,
  test_block-unset_block m b j,
)
