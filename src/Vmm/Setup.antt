-- ===== src/Vmm/Setup.antt =====
-- Whole tables and directories in src/kernel/memory/vmm.c: freeing them, `VMM_copy_dir2dir` and
-- `VMM_init`. The register CR3, the paging bit of
-- CR0 and the handler of the page fault have no counterpart.
use cordell_os.Base.{
  ℕ, zero, suc, ◌+◌, ◌-◌, ◌*◌, ◌/◌, Bool, true, false, ◌&&◌, ◌||◌, Option, none, some, bit_and,
  bit_or, ltb, leb, ◌==◌, if◌then◌else◌, min,
}
use cordell_os.Pmm.{block_size, allocate_blocks, free_blocks}
use cordell_os.Vmm.{
  Vmm, store, entry_address, page_phys_address, page_size, pages_per_table, present, read_write,
  user_memory_start, pd_index, has_attribute, set_directory, mkpdir, mkptable, map_table, free_page,
}

-- The loop of `VMM_free_table` from entry `i` on, and of `VMM_free_pdir`.
unfoldable pub free_pages : Vmm → ℕ → ℕ → ℕ → Vmm
free_pages v table zero i = v
free_pages v table (suc left) i =
    let page = entry_address table i in
    let freed = if bit_and (v.memory page) present == 0 then v else free_page v page in
    free_pages freed table left (i + 1)

unfoldable pub free_table : Vmm → ℕ → Vmm
free_table v table =
    let emptied = free_pages v table pages_per_table 0 in
    record emptied { pmm = free_blocks emptied.pmm table 1 }

unfoldable pub free_tables : Vmm → ℕ → ℕ → ℕ → Vmm
free_tables v pd zero i = v
free_tables v pd (suc left) i =
    let entry = v.memory (entry_address pd i) in
    let freed = if has_attribute entry present then free_table v (page_phys_address entry) else v in
    free_tables freed pd left (i + 1)

unfoldable pub free_pdir : Vmm → ℕ → Vmm
free_pdir v pd =
    let emptied = free_tables v pd pages_per_table 0 in
    if pd == 0 then v else record emptied { pmm = free_blocks emptied.pmm pd 1 }

-- `memcpy` of a page.
abbrev pub copy_page : (ℕ → ℕ) → ℕ → ℕ → ℕ → ℕ
copy_page memory source target a =
    if leb target a && ltb a (target + page_size) then memory (source + (a - target)) else memory a

-- The copy of one table, entered in `dest`; `false` where there is no memory for it.
unfoldable pub copy_table : Vmm → ℕ → ℕ → ℕ → Bool × Vmm
copy_table v src dest i =
    let (result, m) = allocate_blocks v.pmm 1 in
    let source = page_phys_address (v.memory (entry_address src i)) in
    elim result [
      | none ↦ (false, record v { pmm = m })
      | some table ↦ (
        true,
        record v {
          memory =
              store (copy_page v.memory source table) (entry_address dest i)
                (bit_or (bit_or table present) read_write);
          pmm = m;
        },
      )
    ]

-- The loop over the entries left.
unfoldable pub copy_tables : ℕ → Vmm → ℕ → ℕ → ℕ → Vmm
copy_tables zero v src dest i = v
copy_tables (suc left) v src dest i =
    let step =
      if bit_and (v.memory (entry_address src i)) present == 0
      then (true, v)
      else copy_table v src dest i in
    let rest = copy_tables left step.1 src dest (i + 1) in
    if step.0 then rest else free_pdir step.1 dest

unfoldable pub copy_dir2dir : Vmm → ℕ → ℕ → Vmm
copy_dir2dir v src dest =
    if src == 0 || dest == 0 then v else copy_tables pages_per_table v src dest 0

abbrev pub address_of : Option ℕ → ℕ
address_of none = 0
address_of (some table) = table

-- A fresh table of consecutive pages from `frame` on, entered in the directory for `virt`.
unfoldable pub map_run : Vmm → ℕ → ℕ → ℕ → Bool × Vmm
map_run v dir frame virt =
    let made = mkptable v frame false in
    map_table made.1 dir (address_of made.0) false (pd_index virt)

-- The loop of `VMM_init` over the tables left: each maps 4 MiB to themselves.
unfoldable pub identity_tables : ℕ → Vmm → ℕ → ℕ → Bool × Vmm
identity_tables zero v dir address = (true, v)
identity_tables (suc left) v dir address =
    let made = map_run v dir address address in
    let rest = identity_tables left made.1 dir (address + pages_per_table * page_size) in
    if made.0 then rest else made

abbrev pub identity_limit : Vmm → ℕ
identity_limit v = min (v.pmm.max_blocks * block_size) user_memory_start

-- `VMM_init` with its directory.
unfoldable pub init_directory : Vmm → ℕ → ℕ → Bool × Vmm
init_directory v dir memory_start =
    let tables =
      (identity_limit v + (pages_per_table * page_size - 1)) / (pages_per_table * page_size) in
    let low = identity_tables tables v dir 0 in
    let high = map_run low.1 dir memory_start user_memory_start in
    let ready = set_directory high.1 dir in
    if low.0
    then (if high.0
        then (if ready.0 then (true, record ready.1 { kern = dir }) else (false, ready.1))
        else (false, high.1))
    else (false, low.1)

unfoldable pub init : Vmm → ℕ → Bool × Vmm
init v memory_start =
    let (dir, w) = mkpdir v in
    elim dir [ none ↦ (false, w) | some d ↦ init_directory w d memory_start ]
