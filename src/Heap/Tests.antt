-- ===== src/Heap/Tests.antt =====
-- src/kernel/memory/allocator.c on a heap of one page at 4096 with a block of 100 bytes in use and
-- the rest free.
use cordell_os.Base.{◌+◌, ◌≡◌, refl, true, false, some, [], ◌∷◌, arith, done}
use cordell_os.Heap.{
  Block, Heap, header, merge_free_blocks, block_split, is_fit, search_block, count_pages, grow,
  settle, grow_by, grow_block, take_block, kmalloc_from, kmalloc_ready, kmalloc_list, kmalloc,
  free_block, clear, kfree_first, kfree_second, kfree,
}
use cordell_os.Heap.Tiling.{used}
use cordell_os.Heap.Take.{last_free}
use cordell_os.Heap.Allocate.{IsHeap, Allocated}
use cordell_os.Heap.Malloc.{kmalloc_lem}
use cordell_os.Heap.Release.{Released, kfree_lem}

abbrev taken_block : Block
taken_block = record { addr = 4096; size = 100; free = false; v_addr = 8192; pcount = 0 }

abbrev rest_block : Block
rest_block = record { addr = 4216; size = 3956; free = true; v_addr = 8192; pcount = 1 }

abbrev heap : Heap
heap = record {
  blocks = taken_block ∷ rest_block ∷ [];
  virt_address = 4096;
  phys_address = 8192;
  total_pages = 1;
  map_page = λ pmm phys virt. pmm;
  pmm = record { memory_map = 0xffff_ff03 ∷ []; max_blocks = 32; used_blocks = 26 };
  memory = λ a. 7;
}

run : Unit {0}
unfolding kmalloc kmalloc_list kmalloc_ready kmalloc_from take_block search_block is_fit block_split
    merge_free_blocks grow_block grow_by settle grow count_pages kfree kfree_first kfree_second
    free_block clear used last_free
run = tt

heap-IsHeap : IsHeap heap
heap-IsHeap = record { tiled = (refl, (refl, refl)); small = omega arith }

-- The last block is split.
kmalloc_splits :
    kmalloc (λ a. 0) heap 1000
    ≡ done (
      some 4236,
      record heap {
        blocks =
            taken_block
            ∷ record { addr = 4216; size = 1000; free = false; v_addr = 8192; pcount = 0 }
            ∷ record { addr = 5236; size = 2936; free = true; v_addr = 8192; pcount = 0 }
            ∷ [];
      },
    )
unfolding run
kmalloc_splits = refl

-- The heap after the last block was taken whole.
abbrev full_heap : Heap
full_heap = record heap { blocks = taken_block ∷ record rest_block { free = false } ∷ [] }

exact_fit : kmalloc (λ a. 0) heap 3956 ≡ done (some 4236, full_heap)
unfolding run
exact_fit = refl

-- A second call of the same size returns the same memory again.
same_memory_twice : kmalloc (λ a. 0) full_heap 3956 ≡ done (some 4236, full_heap)
unfolding run
same_memory_twice = refl

kmalloc_example : Allocated heap 1000 (kmalloc (λ a. 0) heap 1000)
kmalloc_example = kmalloc_lem heap-IsHeap (λ a. 0) 1000 is_last (omega arith) (omega arith)
  where
    is_last : last_free heap.blocks ≡ true
    is_last = unfold run in refl

kfree_example :
    (h' : Heap) × (kfree (λ pmm a. pmm) heap (4096 + header) ≡ (true, h'))
    × Released heap taken_block [] [] h'
kfree_example = kfree_lem heap-IsHeap (λ pmm a. pmm) [] taken_block [] is_last is_used
  where
    is_last : last_free heap.blocks ≡ true
    is_last = unfold run in refl

    is_used : used heap.blocks ≡ taken_block ∷ []
    is_used = unfold run in refl
