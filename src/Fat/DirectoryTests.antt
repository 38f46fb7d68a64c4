-- ===== src/Fat/DirectoryTests.antt =====
-- src/kernel/filesystems/fat.c on a volume of 16 clusters whose root directory, the clusters 2 and 3,
-- has the entries `HELLO   TXT` and `BIN        ` in its second cluster; BIN starts at cluster 5.
use cordell_os.Base.{
  ℕ, ◌≡◌, refl, inl, inr, false, some, List, [], ◌∷◌, ◌++◌, arith, ◌==◌, if◌then◌else◌, Bool-cases,
  replicate, length, ◌≤◌, ◌<◌,
}
use cordell_os.Ata.{read_sector, write_sector}
use cordell_os.Text.{strncmp, strncpy, strcpy, strlen, copy_string, str2uppercase}
use cordell_os.Fat.Volume.{
  Volume, done, halted, in_table, fat_offset, fat_sector, read_fat, write_fat, is_cluster_end,
  is_cluster_bad, set_cluster_end, claim_cluster, allocate_from, cluster_allocate, cluster_lba,
}
use cordell_os.Fat.Table.{IsMounted, entry}
use cordell_os.Fat.Read.{IsReadable}
use cordell_os.Fat.Names.{
  check_flags, check_char, check_chars, name_check, stem_loop, extension_loop, blank_loop,
  name2fatname,
}
use cordell_os.Fat.Names.Check.{all_allowed, name_check_lem}
use cordell_os.Fat.Directory.{
  cursor_load, cursor_open, next_cluster, cursor_next, scan, scan_directory, entry_at, search_entry,
  search_name, converted_name, directory_search,
}
use cordell_os.Fat.Directory.Places.{
  sector_places, cluster_places, chain_places, first_place, IsDirectory,
}
use cordell_os.Fat.Directory.Lookup.{lookup, entries, directory_search_lem}
use cordell_os.Fat.Change.{
  cursor_write, Change, directory_remove, time_of, date_of, edited, directory_edit, dated_entry,
  placed_entry, add_here, extend_chain, add_from, directory_add,
}
use cordell_os.Fat.Remove.{Removal, directory_remove_lem}
use cordell_os.Fat.Path.{
  walk_path, present, absent, content_exists, renamed, change_meta, resolve, joined, IsComponent,
  walk_path_lem,
}

abbrev pub table : List ℕ
table =
    (0xf8 ∷ 0xff ∷ 0xff ∷ 0x0f ∷ 0xff ∷ 0xff ∷ 0xff ∷ 0x0f ∷ [])
    ++ (3 ∷ 0 ∷ 0 ∷ 0 ∷ 0xf8 ∷ 0xff ∷ 0xff ∷ 0x0f ∷ [])
    ++ (0xf8 ∷ 0xff ∷ 0xff ∷ 0x0f ∷ 0xf8 ∷ 0xff ∷ 0xff ∷ 0x0f ∷ [])
    ++ replicate 488 0

-- An entry by its name and its first cluster.
abbrev pub named : List ℕ → ℕ → List ℕ
named name cluster = name ++ (0x20 ∷ replicate 14 0) ++ (cluster ∷ replicate 5 0)

abbrev pub hello : List ℕ
hello = 72 ∷ 69 ∷ 76 ∷ 76 ∷ 79 ∷ 32 ∷ 32 ∷ 32 ∷ 84 ∷ 88 ∷ 84 ∷ []

abbrev pub bin : List ℕ
bin = 66 ∷ 73 ∷ 78 ∷ 32 ∷ 32 ∷ 32 ∷ 32 ∷ 32 ∷ 32 ∷ 32 ∷ 32 ∷ []

abbrev pub full_sector : List ℕ
full_sector = replicate 512 0xe5

abbrev pub second_sector : List ℕ
second_sector = named hello 4 ++ (named bin 5 ++ replicate 448 0)

abbrev pub volume : Volume
volume = record {
  disk = record {
    sector = λ s.
        if s == 1
        then table
        else if s == 2
        then full_sector
        else if s == 3
        then second_sector
        else replicate 512 0;
    read_fails = λ s. false;
    write_fails = λ s. false;
  };
  fat = record {
    fat_size = 1;
    fat_type = 32;
    first_data_sector = 2;
    total_sectors = 18;
    total_clusters = 16;
    bytes_per_sector = 512;
    cluster_size = 512;
    sectors_per_cluster = 1;
    ext_root_cluster = 2;
    first_fat_sector = 1;
  };
  last_allocated = 2;
}

-- All that a run below computes with.
run : Unit {0}
unfolding read_fat write_fat in_table fat_offset fat_sector read_sector write_sector is_cluster_end
    is_cluster_bad set_cluster_end claim_cluster allocate_from cluster_allocate cluster_lba strncmp
    strncpy strcpy strlen copy_string str2uppercase check_flags check_char check_chars name_check
    stem_loop extension_loop blank_loop name2fatname cursor_load cursor_open next_cluster
    cursor_next scan scan_directory search_entry search_name converted_name directory_search
    cursor_write directory_remove time_of date_of edited directory_edit dated_entry placed_entry
    add_here extend_chain add_from directory_add walk_path content_exists renamed change_meta entry
    sector_places cluster_places chain_places first_place lookup
run = tt

-- `hello.txt`
abbrev pub hello_txt : List ℕ
hello_txt = 104 ∷ 101 ∷ 108 ∷ 108 ∷ 111 ∷ 46 ∷ 116 ∷ 120 ∷ 116 ∷ []

names_run : search_name hello_txt ≡ some (hello ++ 0 ∷ 0 ∷ [])
unfolding run
names_run = refl

-- Nine characters with no dot: nothing of the name is left.
long_name_runs : name2fatname (replicate 9 b'a') ≡ replicate 11 32 ++ 0 ∷ []
unfolding run
long_name_runs = refl

-- A text of 13 characters has no room in the copy.
too_long_runs : directory_search volume (replicate 13 b'a') 40 2 ≡ halted
unfolding run
too_long_runs = refl

search_runs : directory_search volume hello_txt 40 2 ≡ done (entry_at (named hello 4) 16)
unfolding run
search_runs = refl

exists_runs : content_exists volume 40 hello_txt ≡ done present
unfolding run
exists_runs = refl

exists_below_runs : content_exists volume 40 (bin ++ 92 ∷ hello_txt) ≡ done absent
unfolding run
exists_below_runs = refl

sectors_sized : (s : ℕ) → length (volume.disk.sector s) ≡ 512
sectors_sized s = elim (Bool-cases (s == 1)) [
  | inl e ↦ rw e refl
  | inr e ↦ elim (Bool-cases (s == 2)) [
    | inl f ↦ rw (e, f) refl
    | inr f ↦ elim (Bool-cases (s == 3)) [ inl g ↦ rw (e, f, g) refl | inr g ↦ rw (e, f, g) refl ]
  ]
]

pub volume-IsMounted : IsMounted volume
volume-IsMounted = record {
  fat32 = refl;
  few = omega arith;
  placed = omega arith;
  no_wrap = omega arith;
  sized = sectors_sized;
  readable = λ c h. refl;
  writable = λ c h. refl;
}

readable : (n : ℕ) → n ≤ 16 → IsReadable volume.disk n 1
readable n h = record { addressed = omega arith; sized = sectors_sized; readable = λ i lt. refl }

directory : IsDirectory volume 2 (2 ∷ 3 ∷ [])
unfolding run
directory = (
  refl,
  omega arith,
  omega arith,
  readable 2 (omega arith),
  (refl, omega arith, omega arith, readable 3 (omega arith), refl),
)

all_entries : length (chain_places volume (2 ∷ 3 ∷ []) 0) ≤ 32
unfolding run
all_entries = omega arith

hello_short : strlen hello_txt < 13
unfolding run
hello_short = omega arith

hello_passes : name_check hello ≡ 0
unfolding run
hello_passes = refl

in_area : (c : ℕ) → 2 ≤ c → c < 16 → 0 < cluster_lba volume.fat c
unfolding run
in_area c lo hi = omega arith

bin-IsComponent : IsComponent bin
bin-IsComponent = (
  refl,
  refl,
  (
    refl,
    refl,
    (
      refl,
      refl,
      (
        refl,
        refl,
        (
          refl,
          refl,
          (refl, refl, (refl, refl, (refl, refl, (refl, refl, (refl, refl, (refl, refl, tt)))))),
        ),
      ),
    ),
  ),
)

hello-IsComponent : IsComponent hello_txt
hello-IsComponent = (
  refl,
  refl,
  (
    refl,
    refl,
    (
      refl,
      refl,
      (refl, refl, (refl, refl, (refl, refl, (refl, refl, (refl, refl, (refl, refl, tt)))))),
    ),
  ),
)

directory_search_example :
    directory_search volume hello_txt 32 2
    ≡ done (lookup (converted_name hello_txt) 0 (entries volume (2 ∷ 3 ∷ [])))
directory_search_example =
    directory_search_lem volume hello_txt 32 2 (3 ∷ []) volume-IsMounted (omega arith) directory
      all_entries hello_short

directory_remove_example :
    (r : Change) × (directory_remove volume hello 32 2 ≡ done r)
    × Removal volume hello (chain_places volume (2 ∷ 3 ∷ []) 0) r
directory_remove_example =
    directory_remove_lem volume hello 32 2 (3 ∷ []) volume-IsMounted (λ s. refl) in_area
      (omega arith) directory hello_passes all_entries

walk_path_example :
    walk_path volume 40 (bin ++ joined (hello_txt ∷ [])) [] 0 0 2
    ≡ resolve volume 40 2 bin (hello_txt ∷ [])
walk_path_example =
    walk_path_lem volume 40 2 bin (hello_txt ∷ [])
      (bin-IsComponent, omega arith, (hello-IsComponent, omega arith, tt)) (omega arith)

name_check_example : (name_check hello == 0) ≡ all_allowed 11 hello 0
name_check_example = name_check_lem hello
