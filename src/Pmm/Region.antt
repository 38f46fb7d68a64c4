-- ===== src/Pmm/Region.antt =====
-- `PMM_initialize_memory_region` and `PMM_deinitialize_memory_region` against the blocks of a
-- region.
use cordell_os.Base.{
  ℕ, zero, suc, ◌+◌, ◌-◌, ◌*◌, ◌/◌, ◌^◌, ◌<◌, ◌≤◌, ◌≡◌, refl, ◌∙◌, Bool, true, false, ◌&&◌, arith,
  ltb, ◌==◌, if◌then◌else◌, Bool-cases, inl, inr, u32, sub32,
}
use cordell_os.Pmm.{
  PmmMap, set_block, unset_block, test_block, free_one, use_one, free_range, use_range,
  initialize_memory_region, deinitialize_memory_region, block_size, end_block,
}
use cordell_os.Pmm.Block.{
  test_block-set_block, test_block-unset_block, length-set_block, length-unset_block, max-set_block,
  max-unset_block,
}
use cordell_os.Pmm.Range.{within, SameSize}
use cordell_os.Pmm.Valid.{IsValid, test_block-used_blocks, mark-IsValid, clear-IsValid}

-- `t` is a valid map like `m`, but with the `n` blocks from `b` on all `state`.
pub record Painted (state : Bool) (m : PmmMap) (b n : ℕ) (t : PmmMap) : Type 0 where
  pub valid : IsValid t
  pub same_size : SameSize m t
  pub blocks : (j : ℕ) → test_block t j ≡ (if within b n j then state else test_block m j)

module _ {m : PmmMap} (b : ℕ) (v : IsValid m) (h : b < m.max_blocks) where
  kept : (state : Bool) → test_block m b ≡ state → Painted state m b 1 m
  kept state already = record {
    valid = v;
    same_size = record { words = refl; blocks = refl };
    blocks = λ j. ground arith;
  }

  clears :
      (j : ℕ)
      → test_block (record (unset_block m b) { used_blocks = sub32 m.used_blocks 1 }) j
        ≡ (if within b 1 j then false else test_block m j)
  clears j = ground (
    arith,
    test_block-used_blocks (unset_block m b) (sub32 m.used_blocks 1) j,
    test_block-unset_block m b j,
  )

  marks :
      (j : ℕ)
      → test_block (record (set_block m b) { used_blocks = u32 (m.used_blocks + 1) }) j
        ≡ (if within b 1 j then true else test_block m j)
  marks j = ground (
    arith,
    test_block-used_blocks (set_block m b) (u32 (m.used_blocks + 1)) j,
    test_block-set_block m b j,
  )

  free_one-Painted : Painted false m b 1 (free_one m b)
  unfolding free_one
  free_one-Painted =
      let size : SameSize m (unset_block m b) = record {
        words = length-unset_block m b;
        blocks = max-unset_block m b;
      } in
      elim (Bool-cases (test_block m b)) [
        | inr free ↦ rw free (kept false free)
        | inl used ↦ rw used (record {
          valid =
              clear-IsValid b 1 v (omega arith) (omega arith) (λ j p q. ground arith) clears refl;
          same_size = omega arith;
          blocks = clears;
        })
      ]

  use_one-Painted : Painted true m b 1 (use_one m b)
  unfolding use_one
  use_one-Painted =
      let size : SameSize m (set_block m b) = record {
        words = length-set_block m b;
        blocks = max-set_block m b;
      } in
      elim (Bool-cases (test_block m b)) [
        | inl used ↦ rw used (kept true used)
        | inr free ↦ rw free (record {
          valid = mark-IsValid b 1 v (omega arith) (omega arith) (λ j p q. ground arith) marks refl;
          same_size = omega arith;
          blocks = marks;
        })
      ]

-- One block and then the `n` after it.
Painted-suc :
    {state : Bool} {m t u : PmmMap} (b n : ℕ)
    → Painted state m b 1 t
    → Painted state t (b + 1) n u
    → Painted state m b (suc n) u
Painted-suc b n first rest = record {
  valid = rest.valid;
  same_size = record {
    words = rest.same_size.words ∙ first.same_size.words;
    blocks = rest.same_size.blocks ∙ first.same_size.blocks;
  };
  blocks = λ j. ground (arith, first.blocks j, rest.blocks j);
}

nothing-Painted : {m : PmmMap} (state : Bool) (b : ℕ) → IsValid m → Painted state m b 0 m
nothing-Painted state b v = record {
  valid = v;
  same_size = record { words = refl; blocks = refl };
  blocks = λ j. ground arith;
}

free_range-Painted :
    (n : ℕ) {m : PmmMap} (b : ℕ)
    → IsValid m
    → (0 < n → b + n ≤ m.max_blocks)
    → Painted false m b n (free_range n m b)
unfolding free_range
free_range-Painted zero b v h = nothing-Painted false b v
free_range-Painted (suc n) b v h =
    let fits = h (omega arith) in
    let first = free_one-Painted b v (omega arith) in
    Painted-suc b n first
      (free_range-Painted n (b + 1) first.valid (λ _. omega (arith, first.same_size.blocks)))

use_range-Painted :
    (n : ℕ) {m : PmmMap} (b : ℕ)
    → IsValid m
    → (0 < n → b + n ≤ m.max_blocks)
    → Painted true m b n (use_range n m b)
unfolding use_range
use_range-Painted zero b v h = nothing-Painted true b v
use_range-Painted (suc n) b v h =
    let fits = h (omega arith) in
    let first = use_one-Painted b v (omega arith) in
    Painted-suc b n first
      (use_range-Painted n (b + 1) first.valid (λ _. omega (arith, first.same_size.blocks)))

-- Some byte of `[base, base + size)` lies in block `j`, and the map has that block.
abbrev pub touches : PmmMap → ℕ → ℕ → ℕ → Bool
touches m base size j =
    ltb 0 size
    && (ltb (j * block_size) (base + size)
        && (ltb base ((j + 1) * block_size) && ltb j m.max_blocks))

module _ {m : PmmMap} (base size : ℕ) (v : IsValid m) (word_base : base < 2 ^ 32)
    (word_size : size < 2 ^ 32) where
  in_region :
      0 < size
      → (j : ℕ)
      → within (base / block_size) (end_block m base size - base / block_size) j
        ≡ touches m base size j
  in_region pos j = ground arith

  in_bounds :
      0 < end_block m base size - base / block_size
      → base / block_size + (end_block m base size - base / block_size) ≤ m.max_blocks
  in_bounds some = ground arith

  -- On a valid map, for a base and a size of 32 bits, freeing a region leaves a valid map, in which
  -- a block is free exactly if it was or if it is in the map and a byte of the region lies in it.
  pub initialize_memory_region_lem :
      IsValid (initialize_memory_region m base size)
      × ((j : ℕ)
          → test_block (initialize_memory_region m base size) j
            ≡ (if touches m base size j then false else test_block m j))
  unfolding initialize_memory_region
  initialize_memory_region_lem = elim (Bool-cases (size == 0)) [
    | inl empty ↦ rw empty (v, λ j. ground arith)
    | inr bytes ↦
        let p =
          free_range-Painted (end_block m base size - base / block_size) (base / block_size) v
            (λ some. in_bounds some) in
        rw bytes (p.valid, λ j. ground (arith, p.blocks j, in_region (ground arith) j))
  ]

  -- On a valid map, for a base and a size of 32 bits, taking a region leaves a valid map, in which
  -- a block is used exactly if it was or if it is in the map and a byte of the region lies in it.
  pub deinitialize_memory_region_lem :
      IsValid (deinitialize_memory_region m base size)
      × ((j : ℕ)
          → test_block (deinitialize_memory_region m base size) j
            ≡ (if touches m base size j then true else test_block m j))
  unfolding deinitialize_memory_region
  deinitialize_memory_region_lem = elim (Bool-cases (size == 0)) [
    | inl empty ↦ rw empty (v, λ j. ground arith)
    | inr bytes ↦
        let p =
          use_range-Painted (end_block m base size - base / block_size) (base / block_size) v
            (λ some. in_bounds some) in
        rw bytes (p.valid, λ j. ground (arith, p.blocks j, in_region (ground arith) j))
  ]
