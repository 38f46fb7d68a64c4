-- ===== src/Elf/Tests.antt =====
-- src/kernel/arch/i386/elf.c on a program with one segment of two pages and a note.
use cordell_os.Base.{
  ℕ, zero, suc, ◌≤◌, ◌≡◌, refl, ap, true, some, List, [], ◌∷◌, arith, get_elem?, length, replicate,
}
use cordell_os.Elf.{
  lookup_symbol, ProgramHeader, Program, segment_pages, add_pages, load_segment, load_segments,
  program_headers, not_elf, elf_read, free_program,
}
use mathlib.Core.Path.{subst}
use cordell_os.Elf.Cover.{header_or, is_mapped, IsCovered, Fits, load_segments-covers}

abbrev text : ProgramHeader
text = record { p_type = 1; p_offset = 64; p_vaddr = 4198000; p_filesz = 10; p_memsz = 3000 }

abbrev note : ProgramHeader
note = record { p_type = 4; p_offset = 0; p_vaddr = 0; p_filesz = 0; p_memsz = 0 }

abbrev start : Program
start = record { pages = []; segments = []; entry_point = 4198000 }

abbrev read : ℕ → ℕ → List ℕ
read offset size = replicate size 7

abbrev program : Program
program = record {
  pages = 4194304 ∷ 4198400 ∷ [];
  segments = record { address = 4198000; zeroed = 3000; bytes = replicate 10 7 } ∷ [];
  entry_point = 4198000;
}

load_runs : load_segments read (note ∷ text ∷ []) start ≡ some program
unfolding load_segments load_segment segment_pages add_pages
load_runs = refl

both_fit : (i : ℕ) (h : ProgramHeader) → get_elem? (note ∷ text ∷ []) i ≡ some h → Fits h
both_fit zero h at = subst Fits (ap (header_or note) at) (omega arith)
both_fit (suc zero) h at = subst Fits (ap (header_or text) at) (omega arith)
both_fit (suc (suc i)) h at = absurd (ground arith)

load_segments-covers_example :
    (length program.pages ≤ 512)
    × ((a : ℕ) → is_mapped [] a ≡ true → is_mapped program.pages a ≡ true)
    × ((i : ℕ) (h : ProgramHeader)
        → get_elem? (note ∷ text ∷ []) i ≡ some h
        → IsCovered program.pages h)
load_segments-covers_example =
    load_segments-covers read (note ∷ text ∷ []) start program both_fit (omega arith) load_runs

-- Zeros are no program, and a directory is none either.
no_magic : elf_read true (λ offset size. replicate size 0) ≡ not_elf
unfolding elf_read program_headers load_segments
no_magic = refl

symbol_runs :
    lookup_symbol 20 (
      record { name_offset = 1; value = 5; size = 10 }
      ∷ record { name_offset = 6; value = 16; size = 8 }
      ∷ [])
    ≡ some 6
unfolding lookup_symbol
symbol_runs = refl

free_runs : free_program program ≡ 4194304 ∷ 4198400 ∷ []
unfolding free_program
free_runs = refl
