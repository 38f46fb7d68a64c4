-- ===== src/Pmm/Valid.antt =====
-- The invariant of `PMM_map`: `used_blocks` counts the used blocks of the bitmap.
use cordell_os.Base.{
  ℕ, zero, suc, ◌+◌, ◌-◌, ◌*◌, ◌^◌, ◌<◌, ◌≤◌, ◌≡◌, refl, true, false, arith, min, length,
  if◌then◌else◌, u32, sub32,
}
use cordell_os.Pmm.{PmmMap, test_block}
use cordell_os.Pmm.Range.{within, SameSize}
use cordell_os.Pmm.Search.{AllFree}

-- The used blocks below `n`.
unfoldable pub count_used : PmmMap → ℕ → ℕ
count_used m zero = 0
count_used m (suc n) = count_used m n + (if test_block m n then 1 else 0)

pub count_used-le : (m : PmmMap) (n : ℕ) → count_used m n ≤ n
unfolding count_used
count_used-le m zero = omega arith
count_used-le m (suc n) = ground (arith, count_used-le m n)

-- `max_blocks` is `size / 4096` of a 32-bit size, and the map has a word for each block.
pub record IsValid (m : PmmMap) : Type 0 where
  pub small : m.max_blocks ≤ 2 ^ 20
  pub covered : m.max_blocks ≤ length m.memory_map * 32
  pub counted : m.used_blocks ≡ count_used m m.max_blocks

-- Marking a free run adds its blocks to the count, as far as they lie below `k`.
pub count_used-mark :
    (m t : PmmMap) (b n k : ℕ)
    → ((j : ℕ) → test_block t j ≡ (if within b n j then true else test_block m j))
    → AllFree m b n
    → count_used t k ≡ count_used m k + (min k (b + n) - min k b)
unfolding count_used
count_used-mark m t b n zero same free = omega arith
count_used-mark m t b n (suc k) same free =
    ground (arith, count_used-mark m t b n k same free, same k, free k)

-- Clearing a used run takes its blocks off the count.
pub count_used-clear :
    (m t : PmmMap) (b n k : ℕ)
    → ((j : ℕ) → test_block t j ≡ (if within b n j then false else test_block m j))
    → ((j : ℕ) → b ≤ j → j < b + n → test_block m j ≡ true)
    → count_used t k + (min k (b + n) - min k b) ≡ count_used m k
unfolding count_used
count_used-clear m t b n zero same used = omega arith
count_used-clear m t b n (suc k) same used =
    ground (arith, count_used-clear m t b n k same used, same k, used k)

-- `_test_block` reads the bitmap alone.
pub test_block-used_blocks :
    (m : PmmMap) (u j : ℕ) → test_block (record m { used_blocks = u }) j ≡ test_block m j
unfolding test_block
test_block-used_blocks m u j = refl

pub mark-IsValid :
    {m t : PmmMap} (b n : ℕ)
    → IsValid m
    → SameSize m t
    → b + n ≤ m.max_blocks
    → AllFree m b n
    → ((j : ℕ) → test_block t j ≡ (if within b n j then true else test_block m j))
    → t.used_blocks ≡ u32 (m.used_blocks + n)
    → IsValid t
mark-IsValid {m} {t} b n v size fits free same used = record {
  small = omega arith;
  covered = omega arith;
  counted = ground (
    arith,
    count_used-mark m t b n m.max_blocks same free,
    count_used-le m m.max_blocks,
    count_used-le t m.max_blocks,
  );
}

pub clear-IsValid :
    {m t : PmmMap} (b n : ℕ)
    → IsValid m
    → SameSize m t
    → b + n ≤ m.max_blocks
    → ((j : ℕ) → b ≤ j → j < b + n → test_block m j ≡ true)
    → ((j : ℕ) → test_block t j ≡ (if within b n j then false else test_block m j))
    → t.used_blocks ≡ sub32 m.used_blocks n
    → IsValid t
clear-IsValid {m} {t} b n v size fits all_used same used = record {
  small = omega arith;
  covered = omega arith;
  counted = ground (
    arith,
    count_used-clear m t b n m.max_blocks same all_used,
    count_used-le m m.max_blocks,
    count_used-le t m.max_blocks,
  );
}
