-- ===== src/Memory/Tests.antt =====
-- src/libs/std/memory.c on memory in which each address holds its lowest byte.
use cordell_os.Base.{
  ℕ, ◌+◌, ◌-◌, ◌%◌, ◌≡◌, refl, inr, arith, ◌&&◌, leb, ltb, if◌then◌else◌, true, false,
}
use cordell_os.Memory.{
  copy_words, copy_bytes, memcpy, copy_back, memmove, fill_words, fill_bytes, word_of_byte, memset,
  memcmp,
}
use cordell_os.Memory.Copy.{memcpy_lem, memmove_lem}
use cordell_os.Memory.Fill.{memset_lem}

abbrev memory : ℕ → ℕ
memory a = a % 256

-- All that a run below computes with.
run : Unit {0}
unfolding copy_words copy_bytes memcpy copy_back memmove fill_words fill_bytes word_of_byte memset
    memcmp
run = tt

overlap_runs : memmove memory 102 100 5 106 ≡ 104
unfolding run
overlap_runs = refl

-- `memcpy` on the same two runs reads bytes that it has written.
overlap_fails : memcpy memory 102 100 5 106 ≡ 102
unfolding run
overlap_fails = refl

compare_runs : memcmp 4 memory 0 256 ≡ false
unfolding run
compare_runs = refl

compare_differs : memcmp 4 memory 0 255 ≡ true
unfolding run
compare_differs = refl

memcpy_example :
    memcpy memory 200 100 7 203
    ≡ (if leb 200 203 && ltb 203 (200 + 7) then memory (100 + (203 - 200)) else memory 203)
memcpy_example = memcpy_lem memory 200 100 7 203 (inr (omega arith))

memmove_example :
    memmove memory 102 100 5 106
    ≡ (if leb 102 106 && ltb 106 (102 + 5) then memory (100 + (106 - 102)) else memory 106)
memmove_example = memmove_lem memory 102 100 5 106

memset_example :
    memset memory 100 65 7 106 ≡ (if leb 100 106 && ltb 106 (100 + 7) then 65 else memory 106)
memset_example = memset_lem memory 100 65 7 106 (omega arith)
