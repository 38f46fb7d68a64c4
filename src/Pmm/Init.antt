-- ===== src/Pmm/Init.antt =====
-- `PMM_init` and the blocks of the map that it makes.
use cordell_os.Base.{
  ℕ, zero, suc, ◌+◌, ◌-◌, ◌*◌, ◌/◌, ◌%◌, ◌^◌, ◌<◌, ◌≤◌, ◌≡◌, refl, true, arith, List, [], ◌∷◌,
  length, ltb, leb, Bool-cases, inl, inr, get_or,
}
use cordell_os.Base.Bits.{bit, bit-ones}
use cordell_os.Pmm.{PmmMap, test_block, init, memset_ones, block_size, blocks_per_byte}
use cordell_os.Pmm.Block.{test_block-bit}
use cordell_os.Pmm.Valid.{IsValid, count_used}

length-memset_ones : (ws : List ℕ) (num : ℕ) → length (memset_ones ws num) ≡ length ws
unfolding memset_ones
length-memset_ones [] num = refl
length-memset_ones (w ∷ ws) num = ground (arith, length-memset_ones ws (num - 4))

-- The first `8 * num` bits are set.
bit-memset_ones :
    (ws : List ℕ) (num j : ℕ)
    → j < 8 * num
    → j < 32 * length ws
    → bit (j % 32) (get_or (memset_ones ws num) (j / 32) 0) ≡ 1
unfolding memset_ones
bit-memset_ones [] num j h k = absurd (omega arith)
bit-memset_ones (w ∷ ws) num j h k = elim (Bool-cases (leb 4 num)) [
  | inl whole ↦ elim (Bool-cases (ltb j 32)) [
    | inl here ↦
        let e : j / 32 ≡ 0 = ground arith in rw (whole, e) (bit-ones 32 (j % 32) 0 (omega arith))
    | inr later ↦
        let e : j / 32 ≡ suc ((j - 32) / 32) = ground arith in
        let r : j % 32 ≡ (j - 32) % 32 = ground arith in
        rw (whole, e, r) (bit-memset_ones ws (num - 4) (j - 32) (ground arith) (ground arith))
  ]
  | inr part ↦
      let e : j / 32 ≡ 0 = ground arith in
      rw (part, e) (bit-ones (8 * num) (j % 32) (w / 2 ^ (8 * num)) (ground arith))
]

count_used-all :
    (m : PmmMap) (n : ℕ) → ((j : ℕ) → j < n → test_block m j ≡ true) → count_used m n ≡ n
unfolding count_used
count_used-all m zero used = refl
count_used-all m (suc n) used =
    ground (arith, used n, count_used-all m n (λ j p. used j (omega arith)))

module _ (memory : List ℕ) (size : ℕ) (room : size / block_size ≤ length memory * 32) where
  all_used : (j : ℕ) → j < size / block_size → test_block (init memory size) j ≡ true
  unfolding init
  all_used j p = ground (
    arith,
    test_block-bit (init memory size) j,
    bit-memset_ones memory ((size / block_size + blocks_per_byte - 1) / blocks_per_byte) j
        (omega arith) (omega arith),
  )

  -- Where the memory at the map's address has a word for each block and the size has 32 bits,
  -- `PMM_init` gives a valid map of `size / 4096` blocks, all of them used.
  pub init_lem :
      size < 2 ^ 32
      → IsValid (init memory size)
        × ((init memory size).max_blocks ≡ size / block_size)
        × ((j : ℕ) → j < size / block_size → test_block (init memory size) j ≡ true)
  unfolding init
  init_lem small = (
    record {
      small = omega arith;
      covered = omega (
        arith,
        length-memset_ones memory ((size / block_size + blocks_per_byte - 1) / blocks_per_byte),
      );
      counted = omega (arith, count_used-all (init memory size) (size / block_size) all_used);
    },
    refl,
    all_used,
  )
