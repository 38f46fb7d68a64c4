-- ===== src/Fat/Contents/Tests.antt =====
-- The table of open contents of src/kernel/filesystems/fat.c on a volume with the files HELLO.TXT, at
-- cluster 4, and BIN in its root directory.
use cordell_os.Base.{
  List, set, ℕ, ◌≤◌, ◌<◌, ◌≢◌, ◌⊎◌, ◌≡◌, refl, true, none, some, [], ◌∷◌, arith, replicate,
}
use cordell_os.Ata.{read_sector, write_sector}
use cordell_os.Ata.Writeoff.{sent_bytes, writeoff_sector, writeoff_loop, writeoff_sectors}
use cordell_os.Text.{strncmp, strncpy, strcpy, strlen, copy_string, str2uppercase}
use cordell_os.Fat.Volume.{
  done, halted, in_table, fat_offset, fat_sector, read_fat, write_fat, is_cluster_end,
  is_cluster_bad, set_cluster_end, set_cluster_free, claim_cluster, allocate_from, cluster_allocate,
  cluster_deallocate, cluster_lba,
}
use cordell_os.Fat.Names.{
  check_flags, check_char, check_chars, name_check, stem_loop, extension_loop, blank_loop,
  name2fatname,
}
use cordell_os.Fat.Directory.{
  cursor_load, cursor_open, next_cluster, cursor_next, scan, scan_directory, search_entry,
  search_name, converted_name, directory_search,
}
use cordell_os.Text.Token.{span, cut_token, strtok}
use cordell_os.Fat.Names.Stored.{split_name, stored_name}
use cordell_os.Fat.Path.{at_entry, walk_path}
use cordell_os.Fat.Content.{
  File, count_clusters, fill_table, open_file, delete_clusters, step_clusters, walk_from, look_up,
  content_cluster_at,
}
use cordell_os.Fat.Table.{entry}
use cordell_os.Fat.Chain.{IsChain, file_of}
use cordell_os.Fat.Read.{read_loop, cluster_read_range}
use cordell_os.Fat.ReadFile.{read_clusters, read_content2buffer}
use cordell_os.Fat.ReadStop.{IsCut}
use cordell_os.Fat.ReadFileStop.{StopRead, read_content2buffer_stop, read_content2buffer_stop_lem}
use cordell_os.Fat.DirectoryTests.{volume, volume-IsMounted, hello_txt, hello, named}
use cordell_os.Fat.Contents.{
  Table, file_body, first_free, allocate_content_slot, release_content_slot, get_content,
  close_content, descriptor, no_such_path, has_separator, store_entry, open_content, delete_content,
}
use cordell_os.Fat.Contents.Slots.{Free, Returns, OpenedIn, open_content-table}
use cordell_os.Fat.Contents.Calls.{
  directory_list, skip_entry, entry_loop, directory_entry, base_loop, suffix_loop, fill_loop,
  fatname2name, stat_content,
}
use cordell_os.Fat.Contents.Write.{
  chain_end, no_cluster, add_cluster, cluster_writeoff, write_clusters, written,
  write_buffer2content,
}
use cordell_os.Fat.Contents.Opens.{content_of, open_content-file}
use cordell_os.Fat.Contents.Growth.{IsMarked, add_cluster_lem}
use cordell_os.Fat.Contents.Balance.{KeepsTable, delete_content-table}

-- All that a run below computes with.
run : Unit {0}
unfolding read_fat write_fat in_table fat_offset fat_sector read_sector write_sector is_cluster_end
    is_cluster_bad set_cluster_end set_cluster_free claim_cluster allocate_from cluster_allocate
    cluster_deallocate cluster_lba strncmp strncpy strcpy strlen copy_string str2uppercase
    check_flags check_char check_chars name_check stem_loop extension_loop blank_loop name2fatname
    cursor_load cursor_open next_cluster cursor_next scan scan_directory search_entry search_name
    converted_name span cut_token strtok split_name stored_name directory_search walk_path
    count_clusters fill_table open_file delete_clusters step_clusters walk_from look_up
    content_cluster_at read_loop cluster_read_range read_clusters read_content2buffer first_free
    allocate_content_slot release_content_slot get_content close_content has_separator store_entry
    open_content delete_content directory_list skip_entry entry_loop directory_entry base_loop
    suffix_loop fill_loop fatname2name stat_content chain_end add_cluster cluster_writeoff
    write_clusters write_buffer2content sent_bytes writeoff_sector writeoff_loop writeoff_sectors
run = tt

abbrev empty_table : Table
empty_table = replicate 3 none

abbrev file : File
file = file_of true 4 (4 ∷ [])

abbrev hello_names : List ℕ × List ℕ
hello_names = (72 ∷ 69 ∷ 76 ∷ 76 ∷ 79 ∷ 0 ∷ 0 ∷ 0 ∷ [], 84 ∷ 88 ∷ 84 ∷ 0 ∷ [])

open_runs :
    open_content volume true 40 hello_txt empty_table
    ≡ done (
      descriptor 0,
      some (record {
        body = file_body file hello_names.0 hello_names.1;
        parent_cluster = 0xffff_ffff;
        meta = named hello 4;
      })
          ∷ replicate 2 none,
    )
unfolding run
open_runs = refl

-- A file with no extension: the second token is NULL.
no_extension_runs : open_content volume true 40 (66 ∷ 73 ∷ 78 ∷ []) empty_table ≡ halted
unfolding run
no_extension_runs = refl

missing_runs :
    open_content volume true 40 (b'X' ∷ []) empty_table ≡ done (no_such_path, empty_table)
unfolding run
missing_runs = refl

-- The name of an entry, with its dot.
fatname_runs :
    fatname2name hello ≡ (72 ∷ 69 ∷ 76 ∷ 76 ∷ 79 ∷ 46 ∷ 84 ∷ 88 ∷ 84 ∷ 32 ∷ 32 ∷ 32 ∷ 0 ∷ [])
unfolding run
fatname_runs = refl

-- Two bytes are written at the beginning of the file as a transfer of two bytes.
write_runs :
    write_buffer2content 1 5 (named hello 4) volume file (1 ∷ 2 ∷ []) 0 2
    ≡ done (written ((4, 1 ∷ 2 ∷ []) ∷ []) file volume)
unfolding run
write_runs = refl

open_content-table_example :
    Returns (OpenedIn empty_table) (open_content volume true 40 hello_txt empty_table)
open_content-table_example = open_content-table volume true 40 hello_txt empty_table

delete_content-table_example :
    Returns (KeepsTable empty_table) (delete_content volume true 40 hello_txt empty_table)
delete_content-table_example = delete_content-table volume true 40 hello_txt empty_table

hello_chain : IsMarked volume 4 (4 ∷ [])
unfolding run entry
hello_chain = (refl, omega arith, omega arith, refl)

hello_file : IsChain volume 4 (4 ∷ [])
unfolding run entry
hello_file = (refl, omega arith, omega arith, (omega arith, omega arith))

hello_walk : walk_path volume 40 hello_txt [] 0 0 2 ≡ done (at_entry (named hello 4) 2)
unfolding run
hello_walk = refl

hello_stored : stored_name (named hello 4) ≡ some hello_names
unfolding run
hello_stored = refl

first_is_free : get_content empty_table 0 ≡ none
unfolding run
first_is_free = refl

open_content-file_example :
    (fd : ℕ) × Free empty_table fd
    × (open_content volume true 40 hello_txt empty_table
        ≡ done (
          descriptor fd,
          set empty_table fd
              (some (content_of volume true hello_txt (named hello 4) 2 (4 ∷ []) hello_names)),
        ))
open_content-file_example =
    open_content-file volume-IsMounted true 40 hello_txt empty_table (named hello 4) 2 (4 ∷ [])
      hello_names (0, omega arith, first_is_free) hello_walk refl hello_stored hello_file
      (omega arith)

add_cluster_example :
    ((add_cluster volume 5 (named hello 4) file
        ≡ done (no_cluster (record volume { last_allocated = 2 })))
      × ((k : ℕ) → 2 ≤ k → k < 16 → entry volume k ≢ 0))
    ⊎ ((add_cluster volume 5 (named hello 4) file ≡ halted)
        × ((k : ℕ) × (2 ≤ k) × (k < 16) × (entry volume k ≡ 0)))
add_cluster_example =
    add_cluster_lem volume volume-IsMounted 5 (named hello 4) file (4 ∷ []) (omega arith)
      hello_chain (omega arith)

growth_stops : add_cluster volume 5 (named hello 4) file ≡ halted
unfolding run
growth_stops = refl

read_runs : read_content2buffer volume file 0 4 ≡ done (some (replicate 4 0, file))
unfolding run
read_runs = refl

read_content2buffer_stop_example :
    (r : StopRead) × (read_content2buffer_stop volume file 0 4 0 ≡ done (some r))
    × IsCut 0 (replicate 4 0) (r.bytes, r.met)
read_content2buffer_stop_example =
    read_content2buffer_stop_lem volume file 0 4 0 (replicate 4 0) file
      (λ e. absurd (omega (arith, e))) read_runs
