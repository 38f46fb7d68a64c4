-- ===== src/Pmm/Tests.antt =====
-- src/kernel/memory/pmm.c on a map of 32 blocks, of which 2 to 7 are free.
use cordell_os.Base.{
  ℕ, ◌+◌, ◌<◌, ◌≤◌, ◌≡◌, refl, true, false, none, some, [], ◌∷◌, arith, if◌then◌else◌,
}
use cordell_os.Pmm.{
  PmmMap, set_block, unset_block, test_block, count_free, find_from, find_first_free_blocks,
  memset_ones, init, free_one, use_one, free_range, use_range, initialize_memory_region,
  deinitialize_memory_region, set_blocks, unset_blocks, take_blocks, allocate_blocks, free_blocks,
}
use cordell_os.Pmm.Search.{AllFree, SomeUsed, find_first_free_blocks_sound}
use cordell_os.Pmm.Valid.{IsValid, count_used}
use cordell_os.Pmm.Region.{touches, initialize_memory_region_lem, deinitialize_memory_region_lem}
use cordell_os.Pmm.Allocate.{
  Allocated, allocate_blocks_sound, allocate_blocks_complete, free_blocks-allocate_blocks,
}
use cordell_os.Pmm.Init.{init_lem}

abbrev map : PmmMap
map = record { memory_map = 0xffff_ff03 ∷ []; max_blocks = 32; used_blocks = 26 }

-- The map after the allocation of two blocks.
abbrev map_after : PmmMap
map_after = record { memory_map = 0xffff_ff0f ∷ []; max_blocks = 32; used_blocks = 28 }

-- All that a run below computes with.
run : Unit {0}
unfolding allocate_blocks free_blocks init initialize_memory_region deinitialize_memory_region
    find_first_free_blocks find_from count_free test_block set_block unset_block set_blocks
    unset_blocks take_blocks free_one use_one free_range use_range memset_ones count_used
run = tt

map-IsValid : IsValid map
unfolding run
map-IsValid = record { small = omega arith; covered = omega arith; counted = refl }

allocate_two : allocate_blocks map 2 ≡ (some 8192, map_after)
unfolding run
allocate_two = refl

allocate_seven :
    allocate_blocks map 6
    ≡ (some 8192, record map { memory_map = 0xffff_ffff ∷ []; used_blocks = 32 })
unfolding run
allocate_seven = refl

allocate_fails : allocate_blocks map_after 5 ≡ (none, map_after)
unfolding run
allocate_fails = refl

map_after-IsValid : IsValid map_after
unfolding run
map_after-IsValid = record { small = omega arith; covered = omega arith; counted = refl }

-- A second `PMM_free_blocks` of the same block makes the count wrong.
free_twice : (free_blocks (free_blocks map_after 8192 2) 8192 2).used_blocks ≡ 24
unfolding run
free_twice = refl

init_runs :
    init (0 ∷ 0xabcd_0000 ∷ []) 163840
    ≡ record { memory_map = 0xffff_ffff ∷ 0xabcd_00ff ∷ []; max_blocks = 40; used_blocks = 40 }
unfolding run
init_runs = refl

-- The region [8000, 8200) touches blocks 1 and 2.
region_runs : (initialize_memory_region map 8000 200).memory_map ≡ 0xffff_ff01 ∷ []
unfolding run
region_runs = refl

find_first_free_blocks_sound_example : (1 ≤ 2) × (2 + 2 ≤ 32) × AllFree map 2 2
find_first_free_blocks_sound_example =
    find_first_free_blocks_sound map 2 (omega arith) (omega arith) 2 found
  where
    found : find_first_free_blocks map 2 ≡ some 2
    found = unfold run in refl

allocate_blocks_sound_example : Allocated map 2 8192 map_after
allocate_blocks_sound_example = allocate_blocks_sound map-IsValid 2 8192 map_after allocate_two

allocate_blocks_complete_example :
    (map_after ≡ map_after) × ((s : ℕ) → 1 ≤ s → s + 5 ≤ 32 → SomeUsed map_after s 5)
allocate_blocks_complete_example =
    allocate_blocks_complete map_after-IsValid 5 map_after (omega arith) allocate_fails

free_blocks-allocate_blocks_example :
    IsValid (free_blocks map_after 8192 2)
    × ((j : ℕ) → test_block (free_blocks map_after 8192 2) j ≡ test_block map j)
    × ((free_blocks map_after 8192 2).used_blocks ≡ 26)
free_blocks-allocate_blocks_example =
    free_blocks-allocate_blocks map-IsValid 2 8192 map_after allocate_two

initialize_memory_region_example :
    IsValid (initialize_memory_region map 8000 200)
    × ((j : ℕ)
        → test_block (initialize_memory_region map 8000 200) j
          ≡ (if touches map 8000 200 j then false else test_block map j))
initialize_memory_region_example =
    initialize_memory_region_lem 8000 200 map-IsValid (omega arith) (omega arith)

deinitialize_memory_region_example :
    IsValid (deinitialize_memory_region map 8000 200)
    × ((j : ℕ)
        → test_block (deinitialize_memory_region map 8000 200) j
          ≡ (if touches map 8000 200 j then true else test_block map j))
deinitialize_memory_region_example =
    deinitialize_memory_region_lem 8000 200 map-IsValid (omega arith) (omega arith)

init_example :
    IsValid (init (0 ∷ 0xabcd_0000 ∷ []) 163840)
    × ((init (0 ∷ 0xabcd_0000 ∷ []) 163840).max_blocks ≡ 40)
    × ((j : ℕ) → j < 40 → test_block (init (0 ∷ 0xabcd_0000 ∷ []) 163840) j ≡ true)
init_example = init_lem (0 ∷ 0xabcd_0000 ∷ []) 163840 (omega arith) (omega arith)
