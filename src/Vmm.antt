-- ===== src/Vmm.antt =====
-- The virtual memory manager, src/kernel/memory/vmm.c: two levels of page tables in physical memory.
-- Memory is the 32-bit word at each address; the entries of a directory or a table are the words at
-- its address, 4 bytes apart. A NULL result and a result of 0 are `none` or `false`. The types USER
-- and KERNEL are `true` and `false`.
pub mod Fields
pub mod Space
pub mod Enter
pub mod Table
pub mod Setup
pub mod Translate
mod Tests
use cordell_os.Base.{
  ℕ, zero, suc, ◌+◌, ◌-◌, ◌*◌, ◌/◌, ◌%◌, ◌^◌, Bool, true, false, not, ◌&&◌, ◌||◌, Option, none,
  some, bit_and, bit_or, ltb, leb, ◌==◌, if◌then◌else◌, min, u32, not32, ◌>>◌,
}
use cordell_os.Pmm.{PmmMap, allocate_blocks, free_blocks}

abbrev pub pages_per_table : ℕ
pages_per_table = 1024

abbrev pub page_size : ℕ
page_size = 4096

abbrev pub user_memory_start : ℕ
user_memory_start = 0xc000_0000

abbrev pub present : ℕ
present = 0x01

abbrev pub read_write : ℕ
read_write = 0x02

abbrev pub user : ℕ
user = 0x04

abbrev pub pd_index : ℕ → ℕ
pd_index address = address >> 22

unfoldable pub pt_index : ℕ → ℕ
pt_index address = bit_and (address >> 12) 0x3ff

unfoldable pub page_phys_address : ℕ → ℕ
page_phys_address entry = bit_and entry (not32 0xfff)

abbrev pub set_attribute : ℕ → ℕ → ℕ
set_attribute entry attr = bit_or entry attr

abbrev pub clear_attribute : ℕ → ℕ → ℕ
clear_attribute entry attr = bit_and entry (not32 attr)

unfoldable pub has_attribute : ℕ → ℕ → Bool
has_attribute entry attr = bit_and entry attr == attr

unfoldable pub set_frame : ℕ → ℕ → ℕ
set_frame entry address = bit_or (bit_and entry (not32 0x7fff_f000)) address

abbrev pub offset_in_page : ℕ → ℕ
offset_in_page address = bit_and address 0xfff

-- `_dirs`, physical memory and the map of its blocks.
pub record Vmm : Type 0 where
  pub memory : ℕ → ℕ
  pub pmm : PmmMap
  pub curr : ℕ
  pub kern : ℕ

abbrev pub store : (ℕ → ℕ) → ℕ → ℕ → ℕ → ℕ
store memory address word a = if a == address then word else memory a

-- The same word in each of the 1024 words of a page: `memset` with 0, and the loop of
-- `VMM_mkpdir`.
abbrev pub fill_page : (ℕ → ℕ) → ℕ → ℕ → ℕ → ℕ
fill_page memory page word a = if leb page a && ltb a (page + page_size) then word else memory a

abbrev pub entry_address : ℕ → ℕ → ℕ
entry_address table index = table + 4 * index

unfoldable pub set_directory : Vmm → ℕ → Bool × Vmm
set_directory v pd = if pd == 0 then (false, v) else (true, record v { curr = pd })

unfoldable pub mkpdir : Vmm → Option ℕ × Vmm
mkpdir v =
    let (result, m) = allocate_blocks v.pmm 1 in
    elim result [
      | none ↦ (none, record v { pmm = m })
      | some dir ↦ (
        some dir,
        record v { memory = fill_page (fill_page v.memory dir 0) dir read_write; pmm = m },
      )
    ]

-- The attributes and the frame that `_map_table` and `_map_page` store in an entry.
unfoldable pub mapped_entry : Bool → ℕ → ℕ → ℕ
mapped_entry for_user entry address =
    let shared = set_attribute (set_attribute entry present) read_write in
    set_frame (if for_user then set_attribute shared user else shared) address

unfoldable pub mkpage : Bool → ℕ → ℕ
mkpage for_user p_addr =
    let page = set_attribute 0 present in
    let owned = if for_user then set_attribute page user else page in
    set_frame (set_attribute owned read_write) p_addr

-- The address of the page's entry.
unfoldable pub get_page : Vmm → ℕ → ℕ
get_page v address =
    let table = page_phys_address (v.memory (entry_address v.curr (pd_index address))) in
    entry_address table (pt_index address)

unfoldable pub free_page : Vmm → ℕ → Vmm
free_page v page =
    let address = page_phys_address (v.memory page) in
    record v {
      memory = store v.memory page (clear_attribute (v.memory page) present);
      pmm = if address == 0 then v.pmm else free_blocks v.pmm address 1;
    }

unfoldable pub unmap_page : Vmm → ℕ → Vmm
unmap_page v virt_address =
    let page = get_page v virt_address in
    record v {
      memory = store v.memory page (clear_attribute (set_frame (v.memory page) 0) present);
    }

-- The loop of `VMM_mkptable`, from entry `i` on.
unfoldable pub fill_table : (ℕ → ℕ) → Bool → ℕ → ℕ → ℕ → ℕ → ℕ → ℕ
fill_table memory for_user table zero i frame a = memory a
fill_table memory for_user table (suc left) i frame a =
    fill_table (store memory (entry_address table i) (mkpage for_user frame)) for_user table left
      (i + 1) (u32 (frame + page_size)) a

unfoldable pub mkptable : Vmm → ℕ → Bool → Option ℕ × Vmm
mkptable v p_addr for_user =
    let (result, m) = allocate_blocks v.pmm 1 in
    elim result [
      | none ↦ (none, record v { pmm = m })
      | some table ↦ (
        some table,
        record v {
          memory = fill_table (fill_page v.memory table 0) for_user table pages_per_table 0 p_addr;
          pmm = m;
        },
      )
    ]

unfoldable pub map_table : Vmm → ℕ → ℕ → Bool → ℕ → Bool × Vmm
map_table v pd table for_user index =
    let entry = entry_address pd index in
    if pd == 0 || table == 0 then (false, v) else (
      true,
      record v { memory = store v.memory entry (mapped_entry for_user (v.memory entry) table) },
    )

-- What `_map_page` does with a fresh table, by the result of `_map_table`.
abbrev pub entered : ℕ → Bool × Vmm → Bool × Vmm
entered table (true, v) = (true, v)
entered table (false, v) = (false, record v { pmm = free_blocks v.pmm table 1 })

abbrev pub with_table : Vmm → ℕ → Bool → Option ℕ × PmmMap → Bool × Vmm
with_table v v_addr for_user (none, m) = (false, record v { pmm = m })
with_table v v_addr for_user (some table, m) = entered table (
    map_table (record v { memory = fill_page v.memory table 0; pmm = m }) v.curr table for_user
      (pd_index v_addr))

-- The first half of `_map_page`: the table is there.
unfoldable pub ensure_table : Vmm → ℕ → Bool → Bool × Vmm
ensure_table v v_addr for_user =
    let fresh = with_table v v_addr for_user (allocate_blocks v.pmm 1) in
    if has_attribute (v.memory (entry_address v.curr (pd_index v_addr))) present
    then (true, v)
    else fresh

-- The attributes that `_map_page` sets in the entry of the directory in any case.
abbrev pub opened_entry : Bool → ℕ → ℕ
opened_entry for_user entry =
    if for_user
    then set_attribute (set_attribute entry read_write) user
    else set_attribute entry read_write

-- Its second half.
unfoldable pub enter_page : Vmm → ℕ → ℕ → Bool → Vmm
enter_page v p_addr v_addr for_user =
    let entry = entry_address v.curr (pd_index v_addr) in
    let opened = store v.memory entry (opened_entry for_user (v.memory entry)) in
    let page = entry_address (page_phys_address (opened entry)) (pt_index v_addr) in
    record v { memory = store opened page (mapped_entry for_user (opened page) p_addr) }

abbrev pub map_ready : ℕ → ℕ → Bool → Bool × Vmm → Bool × Vmm
map_ready p_addr v_addr for_user (false, v) = (false, v)
map_ready p_addr v_addr for_user (true, v) = (true, enter_page v p_addr v_addr for_user)

unfoldable pub map_page : Vmm → ℕ → ℕ → Bool → Bool × Vmm
map_page v p_addr v_addr for_user =
    map_ready p_addr v_addr for_user (ensure_table v v_addr for_user)

abbrev pub kmap_page : Vmm → ℕ → ℕ → Bool × Vmm
kmap_page v phys virt = map_page v phys virt false

abbrev pub umap_page : Vmm → ℕ → ℕ → Bool × Vmm
umap_page v phys virt = map_page v phys virt true

unfoldable pub virtual2physical : Vmm → ℕ → ℕ
virtual2physical v v_addr =
    let pde = v.memory (entry_address v.curr (pd_index v_addr)) in
    let pte = v.memory (get_page v v_addr) in
    if not (has_attribute pde present)
    then 0
    else if not (has_attribute pte present)
    then 0
    else bit_or (page_phys_address pte) (offset_in_page v_addr)
