-- ===== src/Pmm.antt =====
-- The physical memory manager, src/kernel/memory/pmm.c: a bitmap of 4 KiB blocks. A function that
-- updates the global `PMM_map` takes it and returns the new one. A NULL result and a result of -1
-- are `none`.
pub mod Block
pub mod Range
pub mod Search
pub mod Valid
pub mod Region
pub mod Allocate
pub mod Init
mod Tests
use cordell_os.Base.{
  ℕ, zero, suc, ◌+◌, ◌-◌, ◌*◌, ◌/◌, ◌%◌, ◌^◌, Bool, true, false, not, ◌&&◌, Option, none, some,
  List, [], ◌∷◌, bit_and, bit_or, ltb, leb, ◌==◌, if◌then◌else◌, get_or, set, u32, sub32, not32,
  ◌<<◌,
}

abbrev pub block_size : ℕ
block_size = 4096

abbrev pub blocks_per_byte : ℕ
blocks_per_byte = 8

-- `pmma_map_t`. `memory_map` is the run of 32-bit words at the map's address.
pub record PmmMap : Type 0 where
  pub memory_map : List ℕ
  pub max_blocks : ℕ
  pub used_blocks : ℕ

-- `memory_map[bit / 32]`
abbrev pub word_of : PmmMap → ℕ → ℕ
word_of m b = get_or m.memory_map (b / 32) 0

-- `1 << (bit % 32)`
abbrev pub mask_of : ℕ → ℕ
mask_of b = 1 << (b % 32)

unfoldable pub set_block : PmmMap → ℕ → PmmMap
set_block m b = record m {
  memory_map = set m.memory_map (b / 32) (bit_or (word_of m b) (mask_of b));
}

unfoldable pub unset_block : PmmMap → ℕ → PmmMap
unset_block m b = record m {
  memory_map = set m.memory_map (b / 32) (bit_and (word_of m b) (not32 (mask_of b)));
}

unfoldable pub test_block : PmmMap → ℕ → Bool
test_block m b = not (bit_and (word_of m b) (mask_of b) == 0)

-- The inner `while` of `_find_first_free_blocks`: `left` is `num_blocks - free_blocks`.
unfoldable pub count_free : PmmMap → ℕ → ℕ → ℕ → ℕ
count_free m b zero free = free
count_free m b (suc left) free =
    let rest = count_free m b left (free + 1) in
    if test_block m (u32 (b + free)) then free else rest

-- The outer `for`. The fuel bounds the rounds; when it runs out the answer is -1, and
-- `Search.find_first_free_blocks_complete` shows that `max_blocks` rounds are enough.
unfoldable pub find_from : PmmMap → ℕ → ℕ → ℕ → Option ℕ
find_from m num zero b = none
find_from m num (suc fuel) b =
    let free = count_free m b num 0 in
    let rest = find_from m num fuel (u32 (b + free + 1)) in
    if leb (u32 (b + num)) m.max_blocks then (if free == num then some b else rest) else none

unfoldable pub find_first_free_blocks : PmmMap → ℕ → Option ℕ
unfolding find_from
find_first_free_blocks m num = if num == 0 then none else find_from m num m.max_blocks 1

-- `memset(map, 0xFFFFFFFF, num)` on words, low byte first.
pub memset_ones : List ℕ → ℕ → List ℕ
memset_ones [] num = []
memset_ones (w ∷ ws) num =
    if leb 4 num
    then (2 ^ 32 - 1) ∷ memset_ones ws (num - 4)
    else (w / 2 ^ (8 * num) * 2 ^ (8 * num) + (2 ^ (8 * num) - 1)) ∷ ws

-- `memory` is what stands at `start_address` before the call.
pub init : List ℕ → ℕ → PmmMap
unfolding memset_ones
init memory size =
    let max = size / block_size in
    record {
      memory_map = memset_ones memory ((max + blocks_per_byte - 1) / blocks_per_byte);
      max_blocks = max;
      used_blocks = max;
    }

-- The bodies of the loops of the two region functions, and the loops over the `left` blocks from
-- `block` on.
pub free_one : PmmMap → ℕ → PmmMap
free_one m block =
    if test_block m block
    then record (unset_block m block) { used_blocks = sub32 m.used_blocks 1 }
    else m

pub use_one : PmmMap → ℕ → PmmMap
use_one m block =
    if test_block m block
    then m
    else record (set_block m block) { used_blocks = u32 (m.used_blocks + 1) }

pub free_range : ℕ → PmmMap → ℕ → PmmMap
free_range zero m block = m
free_range (suc left) m block = free_range left (free_one m block) (block + 1)

pub use_range : ℕ → PmmMap → ℕ → PmmMap
use_range zero m block = m
use_range (suc left) m block = use_range left (use_one m block) (block + 1)

-- The first block past the region, computed in 64 bits and cut at `max_blocks`.
abbrev pub end_block : PmmMap → ℕ → ℕ → ℕ
end_block m base size =
    let end64 = (base + size + block_size - 1) / block_size in
    if ltb m.max_blocks end64 then m.max_blocks else u32 end64

pub initialize_memory_region : PmmMap → ℕ → ℕ → PmmMap
unfolding free_range free_one
initialize_memory_region m base size =
    if size == 0
    then m
    else free_range (end_block m base size - base / block_size) m (base / block_size)

pub deinitialize_memory_region : PmmMap → ℕ → ℕ → PmmMap
unfolding use_range use_one
deinitialize_memory_region m base size =
    if size == 0
    then m
    else use_range (end_block m base size - base / block_size) m (base / block_size)

-- The marking loops of `PMM_allocate_blocks` and `PMM_free_blocks`.
unfoldable pub set_blocks : ℕ → PmmMap → ℕ → PmmMap
set_blocks zero m b = m
set_blocks (suc left) m b = set_blocks left (set_block m b) (b + 1)

unfoldable pub unset_blocks : ℕ → PmmMap → ℕ → PmmMap
unset_blocks zero m b = m
unset_blocks (suc left) m b = unset_blocks left (unset_block m b) (b + 1)

-- The block found, marked and counted; its byte address.
unfoldable pub take_blocks : PmmMap → ℕ → ℕ → PmmMap
take_blocks m num start = record (set_blocks num m start) {
  used_blocks = u32 (m.used_blocks + num);
}

unfoldable pub allocate_blocks : PmmMap → ℕ → Option ℕ × PmmMap
allocate_blocks m num =
    if num == 0
    then (none, m)
    else if ltb (sub32 m.max_blocks m.used_blocks) num
    then (none, m)
    else (elim (find_first_free_blocks m num) [
      | none ↦ (none, m)
      | some start ↦ (some (u32 (start * block_size)), take_blocks m num start)
    ])

unfoldable pub free_blocks : PmmMap → ℕ → ℕ → PmmMap
free_blocks m address num = record (unset_blocks num m (address / block_size)) {
  used_blocks = sub32 m.used_blocks num;
}
