-- ===== src/Fat/Change.antt =====
-- The functions of src/kernel/filesystems/fat.c that change a directory, and the walk along a path.
-- The readings of the clock in the order of a call are a parameter.
use cordell_os.Base.{
  ℕ, zero, suc, ◌+◌, ◌-◌, ◌*◌, ◌/◌, ◌^◌, Bool, not, ◌||◌, Option, none, some, List, ◌++◌, bit_and,
  bit_or, ◌==◌, if◌then◌else◌, get_or, set, take, drop, replicate, u8, u16, u32, sub32, ◌>>◌, ◌<<◌,
}
use cordell_os.Ata.{Disk, write_sector}
use cordell_os.Text.{strncpy}
use cordell_os.Fat.Names.{name_check}
use cordell_os.Fat.Volume.{
  FatData, Volume, Outcome, done, ◌>>=◌, minus_one, write_fat, is_cluster_bad, cluster_allocate,
}
use cordell_os.Fat.Boot.{load16}
use cordell_os.Fat.Directory.{
  entry_size, entry_free, Cursor, cursor_lba, Scan, found, ended, unreadable, out_of_fuel,
  scan_directory, is_end, is_named,
}

abbrev pub with_disk : Volume → Option Disk → Option Volume
with_disk v none = none
with_disk v (some d) = some (record v { disk = d })

unfoldable pub cursor_write : Volume → Cursor → Option Volume
cursor_write v c = with_disk v (write_sector v.disk (cursor_lba v.fat c) c.sector_data)

-- How the functions end: with 0, with -2 or with -1.
pub data Change : Type 0 where
  changed : Volume → Change
  missing : Change
  failed : Volume → Change
  change_fuel : Change

abbrev pub stored : Volume → Option Volume → Change
stored v none = failed v
stored v (some w) = changed w

abbrev pub free_entry : Cursor → Cursor
free_entry c = record c { sector_data = set c.sector_data (c.entry * entry_size) entry_free }

abbrev pub removed : Volume → Scan → Change
removed v (found c) = stored v (cursor_write v (free_entry c))
removed v (ended last) = missing
removed v unreadable = failed v
removed v out_of_fuel = change_fuel

unfoldable pub directory_remove : Volume → List ℕ → ℕ → ℕ → Outcome Change
directory_remove v name fuel cluster =
    if not (name_check name == 0)
    then done (failed v)
    else scan_directory v (is_named name) fuel cluster >>= λ s. done (removed v s)

-- A reading of `DTM_datetime`.
pub record Datetime : Type 0 where
  pub hour : ℕ
  pub minute : ℕ
  pub second : ℕ
  pub day : ℕ
  pub month : ℕ
  pub year : ℕ

unfoldable pub time_of : Datetime → ℕ
time_of t = u16 (bit_or (bit_or (t.hour << 11) (t.minute << 5)) (t.second / 2))

unfoldable pub date_of : Datetime → ℕ
date_of t =
    bit_or (bit_or (bit_and t.day 0x1f) (bit_and t.month 0xf << 5))
      (bit_and (sub32 t.year 1980) 0x7f << 9)

abbrev pub store16 : List ℕ → ℕ → ℕ → List ℕ
store16 bytes i x = set (set bytes i (u8 x)) (i + 1) (u8 (x >> 8))

-- `memcpy` of a whole entry over the one at the cursor.
abbrev pub put_entry : Cursor → List ℕ → Cursor
put_entry c e = record c {
  sector_data =
      take (c.entry * entry_size) c.sector_data
      ++ (take entry_size e ++ drop (c.entry * entry_size + entry_size) c.sector_data);
}

-- The entry that `_directory_edit` stores.
unfoldable pub edited : (ℕ → Datetime) → List ℕ → List ℕ → List ℕ
edited clock old new_name =
    let accessed = store16 old 18 (date_of (clock 0)) in
    let dated = store16 accessed 24 (date_of (clock 1)) in
    let timed = store16 dated 22 (time_of (clock 2)) in
    strncpy (replicate 11 0 ++ drop 11 timed) new_name 11

abbrev pub replaced : Volume → List ℕ → Scan → Change
replaced v e (found c) = stored v (cursor_write v (put_entry c e))
replaced v e (ended last) = missing
replaced v e unreadable = failed v
replaced v e out_of_fuel = change_fuel

unfoldable pub directory_edit : Volume → (ℕ → Datetime) → List ℕ → List ℕ → ℕ → ℕ → Outcome Change
directory_edit v clock old new_name fuel cluster =
    if not (name_check old == 0)
    then done (failed v)
    else scan_directory v (is_named old) fuel cluster >>= λ s.
        done (replaced v (edited clock old new_name) s)

-- `GET_CLUSTER_FROM_ENTRY`, `GET_ENTRY_LOW_BITS` and `GET_ENTRY_HIGH_BITS`
abbrev pub cluster_of : FatData → List ℕ → ℕ
cluster_of f e = bit_or (load16 e 26) (u32 (load16 e 20 << (f.fat_type / 2)))

abbrev pub low_bits_of : FatData → ℕ → ℕ
low_bits_of f cluster = bit_and cluster (2 ^ (f.fat_type / 2) - 1)

abbrev pub high_bits_of : FatData → ℕ → ℕ
high_bits_of f cluster = cluster >> (f.fat_type / 2)

-- The dates that `_directory_add` stores in the entry.
unfoldable pub dated_entry : (ℕ → Datetime) → List ℕ → List ℕ
dated_entry clock e =
    let date = date_of (clock 0) in
    let time = time_of (clock 1) in
    let created = store16 (store16 e 16 date) 14 time in
    let tenths = set created 13 (u8 (time_of (clock 2))) in
    store16 (store16 (store16 tenths 18 date) 24 date) 22 time

-- The entry with its first cluster.
unfoldable pub placed_entry : FatData → ℕ → List ℕ → List ℕ
placed_entry f cluster e =
    store16 (store16 e 26 (u16 (low_bits_of f cluster))) 20 (u16 (high_bits_of f cluster))

-- `_directory_add` at a free entry. The result -1 of `_cluster_allocate` is no bad-cluster mark, so
-- it is stored as a cluster.
unfoldable pub add_here : Volume → (ℕ → Datetime) → List ℕ → Cursor → Outcome Change
add_here v clock e c = cluster_allocate v >>= λ (cluster, w).
    if is_cluster_bad w.fat cluster
    then done (failed w)
    else done
        (stored w (cursor_write w (put_entry c (placed_entry w.fat cluster (dated_entry clock e)))))

-- How the extension of the directory ends.
pub data Extension : Type 0 where
  extended : Volume → ℕ → Extension
  not_extended : Volume → Extension

unfoldable pub extend_chain : Volume → ℕ → Outcome Extension
extend_chain v last = cluster_allocate v >>= λ (next, w).
    let write = write_fat w last next >>= λ (ok, w').
    if ok then done (extended w' next) else done (not_extended w') in
    if next == minus_one || is_cluster_bad w.fat next then done (not_extended w) else write

abbrev pub is_vacant : List ℕ → Bool
is_vacant e = get_or e 0 0 == entry_free || is_end e

-- Its loop over the clusters that it may append, with fuel for the entries of each scan.
unfoldable pub add_from : ℕ → Volume → (ℕ → Datetime) → List ℕ → ℕ → ℕ → Outcome Change
add_from zero v clock e fuel cluster = done change_fuel
add_from (suc clusters) v clock e fuel cluster = scan_directory v is_vacant fuel cluster >>= λ s.
    elim s [
      | found c ↦ add_here v clock e c
      | ended last ↦ extend_chain v last >>= λ x. elim x [
        | extended w next ↦ add_from clusters w clock e fuel next
        | not_extended w ↦ done (failed w)
      ]
      | unreadable ↦ done (failed v)
      | out_of_fuel ↦ done change_fuel
    ]

unfoldable pub directory_add : Volume → (ℕ → Datetime) → List ℕ → ℕ → ℕ → ℕ → Outcome Change
directory_add v clock e clusters fuel cluster = add_from clusters v clock e fuel cluster
