-- ===== src/Fat/Directory.antt =====
-- The directories of src/kernel/filesystems/fat.c: the cursor over the entries of a cluster chain,
-- and the search for an entry. A directory entry is its 32 bytes, a name the list of bytes from its
-- pointer on.
pub mod Places
pub mod FindPlace
pub mod Lookup
use cordell_os.Base.{
  ℕ, zero, suc, ◌+◌, ◌-◌, ◌*◌, ◌/◌, ◌%◌, ◌^◌, Bool, true, false, not, ◌&&◌, ◌||◌, Option, none,
  some, List, [], ◌∷◌, ◌++◌, bit_and, bit_or, bit_xor, ltb, leb, ◌==◌, if◌then◌else◌, get_or, set,
  take, drop, length, replicate, u8, u16, u32, ◌>>◌, ℤ, pos, negsuc,
}
use cordell_os.Ata.{Disk, sector_size, read_sector, write_sector}
use cordell_os.Text.{strncmp, strcpy, strlen}
use cordell_os.Fat.Names.{name_check, name2fatname}
use cordell_os.Fat.Volume.{
  FatData, Volume, Outcome, done, halted, ◌>>=◌, minus_one, read_fat, write_fat, is_cluster_end,
  is_cluster_bad, cluster_allocate, cluster_lba,
}
use cordell_os.Fat.Content.{is_negative}
use cordell_os.Fat.Boot.{load16}

abbrev pub entry_size : ℕ
entry_size = 32

abbrev pub entry_free : ℕ
entry_free = 0xe5

abbrev pub entry_end : ℕ
entry_end = 0

-- `directory_cursor_t`
pub record Cursor : Type 0 where
  pub cluster : ℕ
  pub sector : ℕ
  pub entry : ℕ
  pub index : ℕ
  pub sector_data : List ℕ

-- The entry that `meta` points to.
abbrev pub meta : Cursor → List ℕ
meta c = take entry_size (drop (c.entry * entry_size) c.sector_data)

abbrev pub cursor_lba : FatData → Cursor → ℕ
cursor_lba f c = u32 (cluster_lba f c.cluster + c.sector)

abbrev pub with_sector : Cursor → Option (List ℕ) → Option Cursor
with_sector c none = none
with_sector c (some bytes) = some (record c { sector_data = bytes })

unfoldable pub cursor_load : Volume → Cursor → Option Cursor
cursor_load v c = with_sector c (read_sector v.disk (cursor_lba v.fat c))

abbrev pub cursor_start : ℕ → Cursor
cursor_start first = record {
  cluster = first;
  sector = 0;
  entry = 0;
  index = 0;
  sector_data = replicate sector_size 0;
}

unfoldable pub cursor_open : Volume → ℕ → Option Cursor
cursor_open v first = cursor_load v (cursor_start first)

unfoldable pub cursor_write : Volume → Cursor → Option Volume
cursor_write v c = elim (write_sector v.disk (cursor_lba v.fat c) c.sector_data) [
  | none ↦ none
  | some d ↦ some (record v { disk = d })
]

-- How `_directory_cursor_next` ends: with 1, 0 or -1.
pub data Move : Type 0 where
  moved : Cursor → Move
  finished : Cursor → Move
  stuck : Move

abbrev pub loaded : Option Cursor → Move
loaded none = stuck
loaded (some c) = moved c

-- The step to the next cluster.
unfoldable pub next_cluster : Volume → Cursor → Outcome Move
next_cluster v c = read_fat v c.cluster >>= λ next.
    if is_cluster_end v.fat next
    then done (finished c)
    else if is_negative next || is_cluster_bad v.fat next
    then done stuck
    else done (loaded (cursor_load v (record c { cluster = next; sector = 0 })))

unfoldable pub cursor_next : Volume → Cursor → Outcome Move
cursor_next v c =
    let entry = c.entry + 1 in
    let index = u32 (c.index + 1) in
    let sector = u32 (c.sector + 1) in
    let across = next_cluster v (record c { entry = 0; index = index; sector = sector }) in
    if ltb entry (sector_size / entry_size)
    then done (moved (record c { entry = entry; index = index }))
    else if ltb sector v.fat.sectors_per_cluster
    then done (loaded (cursor_load v (record c { entry = 0; index = index; sector = sector })))
    else across

-- How the loops over the entries end: at an entry that the loop looks for, after the last entry of
-- the last cluster, or at a sector or a table entry that cannot be read.
pub data Scan : Type 0 where
  found : Cursor → Scan
  ended : ℕ → Scan
  unreadable : Scan
  out_of_fuel : Scan

-- `while (1)` with the test of the loop as an argument.
unfoldable pub scan : Volume → (List ℕ → Bool) → ℕ → Cursor → Outcome Scan
scan v test zero c = done out_of_fuel
scan v test (suc fuel) c =
    let rest = cursor_next v c >>= λ move. elim move [
      | moved next ↦ scan v test fuel next
      | finished last ↦ done (ended last.cluster)
      | stuck ↦ done unreadable
    ] in
    if test (meta c) then done (found c) else rest

abbrev pub scan_opened : Volume → (List ℕ → Bool) → ℕ → Option Cursor → Outcome Scan
scan_opened v test fuel none = done unreadable
scan_opened v test fuel (some c) = scan v test fuel c

unfoldable pub scan_directory : Volume → (List ℕ → Bool) → ℕ → ℕ → Outcome Scan
scan_directory v test fuel first = scan_opened v test fuel (cursor_open v first)

abbrev pub is_end : List ℕ → Bool
is_end e = get_or e 0 0 == entry_end

abbrev pub is_zero : ℤ → Bool
is_zero (pos n) = n == 0
is_zero (negsuc n) = false

abbrev pub is_named : List ℕ → List ℕ → Bool
is_named name e = is_zero (strncmp e name 11)

-- The two tests of `_directory_search`.
abbrev pub is_target : List ℕ → List ℕ → Bool
is_target name e = is_end e || is_named name e

-- How `_directory_search` ends: with 0 and what it stores, with -2 or with -1.
pub data Search : Type 0 where
  entry_at : List ℕ → ℕ → Search
  not_found : Search
  search_failed : Search
  search_fuel : Search

abbrev pub searched : Scan → Search
searched (found c) = if is_end (meta c) then not_found else entry_at (meta c) c.index
searched (ended last) = not_found
searched unreadable = search_failed
searched out_of_fuel = search_fuel

-- `_directory_search` past the preparation of the name.
unfoldable pub search_entry : Volume → List ℕ → ℕ → ℕ → Outcome Search
search_entry v name fuel cluster =
    if leb 2 cluster && ltb cluster v.fat.total_clusters
    then (scan_directory v (is_target name) fuel cluster >>= λ s. done (searched s))
    else halted

abbrev pub copied : Option (List ℕ) → List ℕ
copied none = replicate 13 0
copied (some s) = s

-- The name that `_directory_search` looks for, from a copy that has room.
unfoldable pub converted_name : List ℕ → List ℕ
converted_name part =
    let copy = copied (strcpy (replicate 13 0) part) in
    if name_check copy == 0 then copy else name2fatname copy

-- The copy has 13 bytes, the last one for the end of the text; `none` is a text of 13 characters or
-- more, which `strcpy` writes past them.
unfoldable pub search_name : List ℕ → Option (List ℕ)
search_name part = if ltb (strlen part) 13 then some (converted_name part) else none

abbrev pub search_named : Volume → ℕ → ℕ → Option (List ℕ) → Outcome Search
search_named v fuel cluster none = halted
search_named v fuel cluster (some name) = search_entry v name fuel cluster

unfoldable pub directory_search : Volume → List ℕ → ℕ → ℕ → Outcome Search
directory_search v part fuel cluster = search_named v fuel cluster (search_name part)
