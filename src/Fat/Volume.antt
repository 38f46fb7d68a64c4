-- ===== src/Fat/Volume.antt =====
-- The state of src/kernel/filesystems/fat.c that its cluster functions use, and those functions.
-- A read error of the source, (uint32_t)-1, is `minus_one`.
use cordell_os.Base.{
  ℕ, zero, suc, ◌+◌, ◌-◌, ◌*◌, ◌/◌, ◌%◌, ◌^◌, Bool, true, false, ◌&&◌, ◌||◌, none, some, List,
  bit_and, ltb, leb, ◌==◌, if◌then◌else◌, get_or, set, u8, u16, u32, ◌>>◌, sub32,
}
pub use cordell_os.Base.{Outcome, done, halted, ◌>>=◌}
use cordell_os.Ata.{Disk, sector_size, read_sector, write_sector}

-- `fat_data_t`
pub record FatData : Type 0 where
  pub fat_size : ℕ
  pub fat_type : ℕ
  pub first_data_sector : ℕ
  pub total_sectors : ℕ
  pub total_clusters : ℕ
  pub bytes_per_sector : ℕ
  pub cluster_size : ℕ
  pub sectors_per_cluster : ℕ
  pub ext_root_cluster : ℕ
  pub first_fat_sector : ℕ

-- The globals: the disk, `FAT_data` and `last_allocated_cluster`.
pub record Volume : Type 0 where
  pub disk : Disk
  pub fat : FatData
  pub last_allocated : ℕ

abbrev pub minus_one : ℕ
minus_one = 2 ^ 32 - 1

abbrev pub end_cluster_32 : ℕ
end_cluster_32 = 0x0fff_fff8

abbrev pub bad_cluster_32 : ℕ
bad_cluster_32 = 0x0fff_fff7

abbrev pub end_cluster_16 : ℕ
end_cluster_16 = 0xfff8

abbrev pub bad_cluster_16 : ℕ
bad_cluster_16 = 0xfff7

abbrev pub end_cluster_12 : ℕ
end_cluster_12 = 0xff8

abbrev pub bad_cluster_12 : ℕ
bad_cluster_12 = 0xff7

-- `*(uint32_t*)&bytes[i]` and the store through that pointer, low byte first.
abbrev pub load32 : List ℕ → ℕ → ℕ
load32 bytes i =
    get_or bytes i 0
    + get_or bytes (i + 1) 0 * 2 ^ 8
    + get_or bytes (i + 2) 0 * 2 ^ 16
    + get_or bytes (i + 3) 0 * 2 ^ 24

abbrev pub store32 : List ℕ → ℕ → ℕ → List ℕ
store32 bytes i x =
    set (set (set (set bytes i (u8 x)) (i + 1) (u8 (x >> 8))) (i + 2) (u8 (x >> 16))) (i + 3)
      (u8 (x >> 24))

-- The assertion of `__read_fat` and `__write_fat`.
unfoldable pub in_table : FatData → ℕ → Bool
in_table f cluster =
    leb 2 cluster && (ltb cluster f.total_clusters && (f.fat_type == 32 || f.fat_type == 16))

unfoldable pub fat_offset : FatData → ℕ → ℕ
fat_offset f cluster = u32 (cluster * (if f.fat_type == 16 then 2 else 4))

unfoldable pub fat_sector : FatData → ℕ → ℕ
fat_sector f cluster = u32 (f.first_fat_sector + fat_offset f cluster / sector_size)

unfoldable pub read_fat : Volume → ℕ → Outcome ℕ
read_fat v cluster =
    if in_table v.fat cluster
    then (elim (read_sector v.disk (fat_sector v.fat cluster)) [
      | none ↦ done minus_one
      | some bytes ↦
          let value = load32 bytes (fat_offset v.fat cluster % sector_size) in
          done (if v.fat.fat_type == 32 then bit_and value 0x0fff_ffff else value)
    ])
    else halted

-- `true` is the result 0 and `false` the result -1.
unfoldable pub write_fat : Volume → ℕ → ℕ → Outcome (Bool × Volume)
write_fat v cluster value =
    if in_table v.fat cluster
    then (elim (read_sector v.disk (fat_sector v.fat cluster)) [
      | none ↦ done (false, v)
      | some bytes ↦
          elim (write_sector v.disk (fat_sector v.fat cluster)
            (store32 bytes (fat_offset v.fat cluster % sector_size) value)) [
              | none ↦ done (false, v)
              | some d ↦ done (true, record v { disk = d })
            ]
    ])
    else halted

abbrev pub is_cluster_free : ℕ → Bool
is_cluster_free cluster = cluster == 0

unfoldable pub set_cluster_free : Volume → ℕ → Outcome (Bool × Volume)
set_cluster_free v cluster = write_fat v cluster 0

unfoldable pub is_cluster_end : FatData → ℕ → Bool
is_cluster_end f cluster =
    (cluster == end_cluster_32 && f.fat_type == 32)
    || ((cluster == end_cluster_16 && f.fat_type == 16)
        || (cluster == end_cluster_12 && f.fat_type == 12))

unfoldable pub set_cluster_end : Volume → ℕ → Outcome (Bool × Volume)
set_cluster_end v cluster =
    if v.fat.fat_type == 32
    then write_fat v cluster end_cluster_32
    else if v.fat.fat_type == 16
    then write_fat v cluster end_cluster_16
    else if v.fat.fat_type == 12
    then write_fat v cluster end_cluster_12
    else done (false, v)

unfoldable pub is_cluster_bad : FatData → ℕ → Bool
is_cluster_bad f cluster =
    (cluster == bad_cluster_32 && f.fat_type == 32)
    || ((cluster == bad_cluster_16 && f.fat_type == 16)
        || (cluster == bad_cluster_12 && f.fat_type == 12))

unfoldable pub set_cluster_bad : Volume → ℕ → Outcome (Bool × Volume)
set_cluster_bad v cluster =
    if v.fat.fat_type == 32
    then write_fat v cluster bad_cluster_32
    else if v.fat.fat_type == 16
    then write_fat v cluster bad_cluster_16
    else if v.fat.fat_type == 12
    then write_fat v cluster bad_cluster_12
    else done (false, v)

-- What `_cluster_allocate` does with a free cluster.
unfoldable pub claim_cluster : Volume → ℕ → Outcome (ℕ × Volume)
claim_cluster v cluster = do
  (ok, v') ← set_cluster_end v cluster
  done (if ok then (cluster, record v' { last_allocated = cluster }) else (minus_one, v'))

-- The loop of `_cluster_allocate`; `left` is `total_clusters - cluster`. The test
-- `clusterStatus < 0` is on an unsigned number and never holds, so a cluster whose entry cannot be
-- read is passed over.
unfoldable pub allocate_from : Volume → ℕ → ℕ → Outcome (ℕ × Volume)
unfolding claim_cluster
allocate_from v zero cluster = done (minus_one, record v { last_allocated = 2 })
allocate_from v (suc left) cluster = do
  status ← read_fat v cluster
  let rest = allocate_from v left (cluster + 1)
  if is_cluster_free status then claim_cluster v cluster else rest

unfoldable pub cluster_allocate : Volume → Outcome (ℕ × Volume)
unfolding allocate_from
cluster_allocate v = allocate_from v (v.fat.total_clusters - v.last_allocated) v.last_allocated

-- Here too the test `cluster_status < 0` never holds.
unfoldable pub cluster_deallocate : Volume → ℕ → Outcome (Bool × Volume)
cluster_deallocate v cluster = do
  status ← read_fat v cluster
  if is_cluster_free status then done (true, v) else set_cluster_free v cluster

unfoldable pub cluster_lba : FatData → ℕ → ℕ
cluster_lba f cluster = u32 (sub32 cluster 2 * u16 f.sectors_per_cluster + f.first_data_sector)
