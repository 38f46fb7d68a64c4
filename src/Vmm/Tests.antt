-- ===== src/Vmm/Tests.antt =====
-- src/kernel/memory/vmm.c on an empty directory in block 1, with the blocks 2 to 7 free.
use cordell_os.Base.{◌≡◌, refl, true, [], ◌∷◌, arith}
use cordell_os.Pmm.{
  set_block, unset_block, test_block, count_free, find_from, find_first_free_blocks, set_blocks,
  unset_blocks, take_blocks, allocate_blocks, free_blocks,
}
use cordell_os.Pmm.Valid.{count_used}
use cordell_os.Vmm.{
  Vmm, pt_index, page_phys_address, has_attribute, set_frame, mkpdir, mapped_entry, mkpage,
  get_page, free_page, unmap_page, fill_table, mkptable, map_table, ensure_table, enter_page,
  map_page, umap_page, virtual2physical,
}
use cordell_os.Vmm.Space.{IsMapped, view, address_in, virtual2physical_lem}
use cordell_os.Vmm.Translate.{Mapped, map_page_lem}

abbrev space : Vmm
space = record {
  memory = λ a. 0;
  pmm = record { memory_map = 0xffff_ff03 ∷ []; max_blocks = 32; used_blocks = 26 };
  curr = 4096;
  kern = 4096;
}

-- All that a run below computes with.
run : Unit {0}
unfolding allocate_blocks free_blocks find_first_free_blocks find_from count_free test_block
    set_block unset_block set_blocks unset_blocks take_blocks count_used pt_index page_phys_address
    has_attribute set_frame mkpdir mapped_entry mkpage get_page free_page unmap_page fill_table
    mkptable map_table ensure_table enter_page map_page virtual2physical
run = tt

-- The space with one page of a user, and the same without it.
abbrev mapped : Vmm
unfolding run
mapped = (umap_page space 0x7000 0x0040_3000).1

map_runs : virtual2physical mapped 0x0040_3abc ≡ 0x7abc
unfolding run
map_runs = refl

neighbour_runs : virtual2physical mapped 0x0040_4abc ≡ 0
unfolding run
neighbour_runs = refl

unmap_runs : virtual2physical (unmap_page mapped 0x0040_3000) 0x0040_3abc ≡ 0
unfolding run
unmap_runs = refl

-- A frame from 2 GiB on stays in the entry when another frame is set.
stale_bit : set_frame 0x8000_0003 0x7000 ≡ 0x8000_7003
unfolding run
stale_bit = refl

space-IsMapped : IsMapped space
unfolding run
space-IsMapped = record {
  valid = record { small = omega arith; covered = omega arith; counted = refl };
  low = omega arith;
  dir = 1;
  at_dir = refl;
  not_null = omega arith;
  dir_used = refl;
  entries_low = λ i lt. omega arith;
  used = λ i lt there. absurd (ground arith);
  apart = λ i lt there. absurd (ground arith);
  distinct = λ i j lti ltj there there' same. absurd (ground arith);
  pages_low = λ i j lti ltj there. omega arith;
}

map_page_example : Mapped space 1 3 7 (map_page space 0x7000 0x0040_3000 true)
map_page_example = map_page_lem space true 0x0040_3000 7 space-IsMapped (omega arith) (omega arith)

mapped-IsMapped : IsMapped mapped
unfolding run
mapped-IsMapped =
    (map_page_lem space true 0x0040_3000 7 space-IsMapped (omega arith) (omega arith)).0

virtual2physical_example :
    virtual2physical mapped 0x0040_3abc ≡ address_in 0x0040_3abc (view mapped 1 3)
virtual2physical_example = virtual2physical_lem mapped 0x0040_3abc mapped-IsMapped (omega arith)
