-- ===== src/Pmm/Allocate.antt =====
-- `PMM_allocate_blocks` and `PMM_free_blocks` on a valid map.
use cordell_os.Base.{
  ℕ, zero, suc, ◌+◌, ◌-◌, ◌*◌, ◌/◌, ◌^◌, ◌<◌, ◌≤◌, ◌≡◌, refl, ◌∙◌, true, false, ◌⊎◌, min, none,
  some, arith, ltb, ◌==◌, if◌then◌else◌, Bool-cases, Option-cases, inl, inr, u32, sub32,
}
use cordell_os.Pmm.{
  PmmMap, test_block, set_blocks, unset_blocks, take_blocks, find_first_free_blocks,
  allocate_blocks, free_blocks, block_size,
}
use cordell_os.Pmm.Range.{
  within, SameSize, set_blocks-SameSize, unset_blocks-SameSize, test_block-set_blocks,
  test_block-unset_blocks,
}
use cordell_os.Pmm.Search.{
  AllFree, SomeUsed, find_first_free_blocks_sound, find_first_free_blocks_complete,
}
use cordell_os.Pmm.Valid.{
  IsValid, count_used, count_used-le, test_block-used_blocks, mark-IsValid, clear-IsValid,
}

-- The address `a` is that of `num` blocks that were free and are now taken in `t`.
pub record Allocated (m : PmmMap) (num a : ℕ) (t : PmmMap) : Type 0 where
  pub start : ℕ
  pub address : a ≡ start * block_size
  pub not_null : 1 ≤ start
  pub fits : start + num ≤ m.max_blocks
  pub were_free : AllFree m start num
  pub valid : IsValid t
  pub same_size : SameSize m t
  pub blocks : (j : ℕ) → test_block t j ≡ (if within start num j then true else test_block m j)
  pub counted : t.used_blocks ≡ m.used_blocks + num

-- A run of blocks is free, or has a block in use.
run_cases : (m : PmmMap) (s n : ℕ) → AllFree m s n ⊎ SomeUsed m s n
run_cases m s zero = inl (λ j p q. absurd (omega arith))
run_cases m s (suc n) = elim (run_cases m s n) [
  | inr (j, low, high, used) ↦ inr (j, low, omega arith, used)
  | inl free ↦ elim (Bool-cases (test_block m (s + n))) [
    | inl used ↦ inr (s + n, omega arith, omega arith, used)
    | inr last ↦ inl (λ j p q. ground (arith, free j))
  ]
]

-- A free run leaves room in the count.
count_used-free :
    (m : PmmMap) (s n k : ℕ) → AllFree m s n → count_used m k + (min k (s + n) - min k s) ≤ k
unfolding count_used
count_used-free m s n zero free = omega arith
count_used-free m s n (suc k) free = ground (arith, count_used-free m s n k free, free k)

module _ {m : PmmMap} (v : IsValid m) (num : ℕ) where
  taken :
      (s : ℕ)
      → 0 < num
      → s + num ≤ m.max_blocks
      → 1 ≤ s
      → AllFree m s num
      → Allocated m num (u32 (s * block_size)) (take_blocks m num s)
  unfolding take_blocks
  taken s wanted fits pos free =
      let size = set_blocks-SameSize num m s in
      let used = u32 (m.used_blocks + num) in
      let same = λ (j : ℕ).
        test_block-used_blocks (set_blocks num m s) used j
        ∙ test_block-set_blocks num m s j (omega arith) in
      record {
        start = s;
        address = omega arith;
        not_null = pos;
        fits = fits;
        were_free = free;
        valid = mark-IsValid s num v (omega arith) fits free same refl;
        same_size = omega arith;
        blocks = same;
        counted = omega (arith, count_used-le m m.max_blocks);
      }

  -- On a valid map a successful allocation returns the address of `num` blocks inside the map that
  -- were all free, never block 0; afterwards the map is valid, those blocks are in use, every other
  -- block is as before and `used_blocks` has grown by `num`.
  pub allocate_blocks_sound :
      (a : ℕ) (t : PmmMap) → allocate_blocks m num ≡ (some a, t) → Allocated m num a t
  unfolding allocate_blocks
  allocate_blocks_sound a t e = elim (Bool-cases (num == 0)) [
    | inl zero_wanted ↦ absurd (ground arith)
    | inr wanted ↦ elim (Option-cases (find_first_free_blocks m num)) [
      | inl not_found ↦ absurd (ground arith)
      | inr (s, found) ↦
          let (same_a, same_t) = parts s found in
          let little : num < 2 ^ 31 = ground (arith, count_used-le m m.max_blocks) in
          let (pos, fits, free) = find_first_free_blocks_sound m num (omega arith) little s found in
          rw (← same_a, ← same_t) (taken s (ground arith) fits pos free)
    ]
  ]
    where
      parts :
          (s : ℕ)
          → find_first_free_blocks m num ≡ some s
          → (u32 (s * block_size) ≡ a) × (take_blocks m num s ≡ t)
      parts s found = ground arith

  -- On a valid map an allocation of at least one block that fails changes nothing, and there is no
  -- run of `num` free blocks past block 0.
  pub allocate_blocks_complete :
      (t : PmmMap)
      → 0 < num
      → allocate_blocks m num ≡ (none, t)
      → (t ≡ m) × ((s : ℕ) → 1 ≤ s → s + num ≤ m.max_blocks → SomeUsed m s num)
  unfolding allocate_blocks
  allocate_blocks_complete t wanted e =
      elim (Bool-cases (ltb (sub32 m.max_blocks m.used_blocks) num)) [
        | inl full ↦ (
          ground arith,
          λ s p q. elim (run_cases m s num) [
            | inr used ↦ used
            | inl free ↦ absurd (
                ground
                  (arith, count_used-free m s num m.max_blocks free, count_used-le m m.max_blocks))
          ],
        )
        | inr room ↦ elim (Option-cases (find_first_free_blocks m num)) [
          | inr (s, found) ↦ absurd (ground arith)
          | inl not_found ↦
              let little : num < 2 ^ 31 = ground (arith, count_used-le m m.max_blocks) in
              (
                ground arith,
                λ s p q.
                    find_first_free_blocks_complete m num (omega arith) little s wanted not_found p
                      q,
              )
        ]
      ]

-- `t` with the allocated blocks given back.
abbrev returned : PmmMap → ℕ → ℕ → PmmMap
returned t num s = record (unset_blocks num t s) { used_blocks = sub32 t.used_blocks num }

module _ {m t : PmmMap} {num a : ℕ} (v : IsValid m) (got : Allocated m num a t) where
  unmarked :
      (j : ℕ)
      → test_block (returned t num got.start) j
        ≡ (if within got.start num j then false else test_block t j)
  unmarked j =
      test_block-used_blocks (unset_blocks num t got.start) (sub32 t.used_blocks num) j
      ∙ test_block-unset_blocks num t got.start j (omega (arith, got.valid.covered))

  returned_lem :
      IsValid (returned t num got.start)
      × ((j : ℕ) → test_block (returned t num got.start) j ≡ test_block m j)
      × (sub32 t.used_blocks num ≡ m.used_blocks)
  returned_lem =
      let size = unset_blocks-SameSize num t got.start in
      (
        clear-IsValid got.start num got.valid (omega arith) (omega arith)
            (λ j p q. ground (arith, got.blocks j)) unmarked refl,
        λ j. ground (arith, unmarked j, got.blocks j, got.were_free j),
        omega (arith, count_used-le m m.max_blocks),
      )

-- On a valid map, giving back what an allocation returned undoes it: the map is valid, every block
-- is as before the allocation, and so is `used_blocks`.
pub free_blocks-allocate_blocks :
    {m : PmmMap} (v : IsValid m) (num a : ℕ) (t : PmmMap)
    → allocate_blocks m num ≡ (some a, t)
    → IsValid (free_blocks t a num)
      × ((j : ℕ) → test_block (free_blocks t a num) j ≡ test_block m j)
      × ((free_blocks t a num).used_blocks ≡ m.used_blocks)
unfolding free_blocks
free_blocks-allocate_blocks {m} v num a t e =
    let got = allocate_blocks_sound v num a t e in
    let at_start : a / block_size ≡ got.start = omega (arith, got.address) in
    rw at_start (returned_lem v got)
