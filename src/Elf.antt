-- ===== src/Elf.antt =====
-- The ELF loader, src/kernel/arch/i386/elf.c. What the file system reads from the file, by offset and
-- size, is a parameter.
pub mod Cover
mod Tests
use cordell_os.Base.{
  ℕ, zero, suc, ◌+◌, ◌-◌, ◌*◌, ◌/◌, ◌%◌, ◌^◌, Bool, true, false, not, ◌&&◌, ◌||◌, Option, none,
  some, List, [], ◌∷◌, ◌++◌, ltb, leb, ◌==◌, if◌then◌else◌, length, get_or, u32,
}
use cordell_os.Vmm.{page_size}
use cordell_os.Fat.Volume.{load32}
use cordell_os.Fat.Boot.{load16}

abbrev pub max_program_headers : ℕ
max_program_headers = 16

abbrev pub max_program_pages : ℕ
max_program_pages = 512

-- `elf_symbol_t`
pub record Symbol : Type 0 where
  pub name_offset : ℕ
  pub value : ℕ
  pub size : ℕ

-- `_lookup_symbol_function`: the offset of the name; `none` is "<UNDEFINED>".
unfoldable pub lookup_symbol : ℕ → List Symbol → Option ℕ
lookup_symbol addr [] = none
lookup_symbol addr (s ∷ symtab) =
    let rest = lookup_symbol addr symtab in
    if leb s.value addr && leb addr (u32 (s.value + s.size)) then some s.name_offset else rest

-- The part of `elf32_program_header_t` that is used.
pub record ProgramHeader : Type 0 where
  pub p_type : ℕ
  pub p_offset : ℕ
  pub p_vaddr : ℕ
  pub p_filesz : ℕ
  pub p_memsz : ℕ

-- A segment in memory: where it begins, how many bytes are set to 0, and the bytes read to its
-- beginning.
pub record Segment : Type 0 where
  pub address : ℕ
  pub zeroed : ℕ
  pub bytes : List ℕ

-- `elf32_program_t`, whose pages are mapped one by one, with what is put into memory.
pub record Program : Type 0 where
  pub pages : List ℕ
  pub segments : List Segment
  pub entry_point : ℕ

-- `p_vaddr & ~(PAGE_SIZE - 1)`
abbrev pub page_of : ℕ → ℕ
page_of a = a / page_size * page_size

-- The number of pages of a segment.
unfoldable pub segment_pages : ProgramHeader → ℕ
segment_pages h =
    let total = u32 (h.p_vaddr - page_of h.p_vaddr + h.p_memsz) in
    if ltb 0 (total % page_size) then total / page_size + 1 else total / page_size

-- The loop over the pages of a segment, over those left. `none` is the return where the program has
-- too many pages.
unfoldable pub add_pages : ℕ → ℕ → List ℕ → Option (List ℕ)
add_pages zero virtual_address pages = some pages
add_pages (suc left) virtual_address pages =
    let rest = add_pages left (u32 (virtual_address + page_size)) (pages ++ virtual_address ∷ []) in
    if leb max_program_pages (length pages) then none else rest

abbrev pub with_pages : Program → Segment → Option (List ℕ) → Option Program
with_pages p s none = none
with_pages p s (some pages) = some (record p { pages = pages; segments = p.segments ++ s ∷ [] })

-- One round of the loop over the program headers; `PT_LOAD` is 1.
unfoldable pub load_segment : (ℕ → ℕ → List ℕ) → ProgramHeader → Program → Option Program
load_segment read h p =
    let segment : Segment = record {
      address = h.p_vaddr;
      zeroed = h.p_memsz;
      bytes = read h.p_offset h.p_filesz;
    } in
    if not (h.p_type == 1)
    then some p
    else with_pages p segment (add_pages (segment_pages h) (page_of h.p_vaddr) p.pages)

abbrev pub load_rest : (Program → Option Program) → Option Program → Option Program
load_rest next none = none
load_rest next (some p) = next p

unfoldable pub load_segments : (ℕ → ℕ → List ℕ) → List ProgramHeader → Program → Option Program
load_segments read [] p = some p
load_segments read (h ∷ headers) p = load_rest (load_segments read headers) (load_segment read h p)

-- A program header from its 32 bytes, and `count` of them from the bytes at `i`.
unfoldable pub program_header : List ℕ → ℕ → ProgramHeader
program_header bytes i = record {
  p_type = load32 bytes i;
  p_offset = load32 bytes (i + 4);
  p_vaddr = load32 bytes (i + 8);
  p_filesz = load32 bytes (i + 16);
  p_memsz = load32 bytes (i + 20);
}

unfoldable pub program_headers : List ℕ → ℕ → ℕ → List ProgramHeader
program_headers bytes i zero = []
program_headers bytes i (suc count) = program_header bytes i ∷ program_headers bytes (i + 32) count

-- How `ELF_read` ends: with a program, or with NULL for each of its reasons.
pub data Loading : Type 0 where
  loaded : Program → Loading
  not_a_file : Loading
  not_elf : Loading
  wrong_type : Loading
  too_many_headers : Loading
  too_many_pages : Loading

abbrev pub loading : Option Program → Loading
loading none = too_many_pages
loading (some p) = loaded p

-- `ELF_read` for a content that is a file or not.
unfoldable pub elf_read : Bool → (ℕ → ℕ → List ℕ) → Loading
elf_read is_file read =
    let header = read 0 52 in
    let e_type = load16 header 16 in
    let e_phnum = load16 header 44 in
    let headers = program_headers (read (load32 header 28) (32 * e_phnum)) 0 e_phnum in
    let start : Program = record { pages = []; segments = []; entry_point = load32 header 24 } in
    if not is_file
    then not_a_file
    else if not (get_or header 0 0 == 127) || not (get_or header 1 0 == b'E')
    then not_elf
    else if not (e_type == 2) && not (e_type == 3)
    then wrong_type
    else if ltb max_program_headers e_phnum
    then too_many_headers
    else loading (load_segments read headers start)

-- `ELF_free_program`: the pages that it frees, in their order.
unfoldable pub free_program : Program → List ℕ
free_program p = p.pages
