-- ===== src/Fat/Boot.antt =====
-- The boot sector in src/kernel/filesystems/fat.c: finding the partition and filling in `FAT_data`.
use cordell_os.Base.{
  ℕ, zero, suc, ◌+◌, ◌-◌, ◌*◌, ◌/◌, ◌^◌, Bool, false, not, ◌&&◌, ◌||◌, Option, none, some, List,
  bit_and, ltb, leb, ◌==◌, if◌then◌else◌, get_or, u32, sub32,
}
use cordell_os.Ata.{Disk, ◌>>=◌, sector_size, read_sector}
use cordell_os.Fat.Volume.{FatData, load32}

abbrev pub load16 : List ℕ → ℕ → ℕ
load16 bytes i = get_or bytes i 0 + get_or bytes (i + 1) 0 * 2 ^ 8

-- The fields of `fat_BS_t` and of its `fat_extBS_32_t` that are used.
pub record BootSector : Type 0 where
  pub bytes_per_sector : ℕ
  pub sectors_per_cluster : ℕ
  pub reserved_sector_count : ℕ
  pub table_count : ℕ
  pub root_entry_count : ℕ
  pub total_sectors_16 : ℕ
  pub table_size_16 : ℕ
  pub total_sectors_32 : ℕ
  pub table_size_32 : ℕ
  pub root_cluster : ℕ

-- `(fat_BS_t*)sector_data`, a packed structure.
abbrev pub boot_sector_of : List ℕ → BootSector
boot_sector_of sector = record {
  bytes_per_sector = load16 sector 11;
  sectors_per_cluster = get_or sector 13 0;
  reserved_sector_count = load16 sector 14;
  table_count = get_or sector 16 0;
  root_entry_count = load16 sector 17;
  total_sectors_16 = load16 sector 19;
  table_size_16 = load16 sector 22;
  total_sectors_32 = load32 sector 32;
  table_size_32 = load32 sector 36;
  root_cluster = load32 sector 44;
}

unfoldable pub is_fat_partition : ℕ → Bool
is_fat_partition t =
    t == 0x01 || (t == 0x04 || (t == 0x06 || (t == 0x0b || (t == 0x0c || t == 0x0e))))

unfoldable pub is_valid_bpb : BootSector → List ℕ → Bool
is_valid_bpb b sector =
    if not (get_or sector 510 0 == 0x55) || not (get_or sector 511 0 == 0xaa)
    then false
    else if not (b.bytes_per_sector == sector_size)
    then false
    else if b.sectors_per_cluster == 0
    then false
    else if not (bit_and b.sectors_per_cluster (b.sectors_per_cluster - 1) == 0)
    then false
    else if b.reserved_sector_count == 0
    then false
    else if b.table_count == 0
    then false
    else if b.total_sectors_16 == 0 && b.total_sectors_32 == 0
    then false
    else not (b.table_size_16 == 0 && b.table_size_32 == 0)

-- The partition table entries of the master boot record, `left` of them from entry `i` on.
unfoldable pub find_partition : List ℕ → ℕ → ℕ → ℕ
find_partition sector zero i = 0
find_partition sector (suc left) i =
    let entry = 446 + i * 16 in
    let rest = find_partition sector left (i + 1) in
    if is_fat_partition (get_or sector (entry + 4) 0)
      && (not (load32 sector (entry + 8) == 0) && not (load32 sector (entry + 12) == 0))
    then load32 sector (entry + 8)
    else rest

unfoldable pub find_fat_partition_lba : List ℕ → ℕ
find_fat_partition_lba sector = if load16 sector 510 == 0xaa55 then find_partition sector 4 0 else 0

abbrev pub total_sectors_of : BootSector → ℕ
total_sectors_of b = if b.total_sectors_16 == 0 then b.total_sectors_32 else b.total_sectors_16

abbrev pub fat_size_of : BootSector → ℕ
fat_size_of b = if b.table_size_16 == 0 then b.table_size_32 else b.table_size_16

abbrev pub root_dir_sectors_of : BootSector → ℕ
root_dir_sectors_of b = (b.root_entry_count * 32 + (b.bytes_per_sector - 1)) / b.bytes_per_sector

abbrev pub metadata_sectors_of : BootSector → ℕ
metadata_sectors_of b =
    u32 (b.reserved_sector_count + u32 (b.table_count * fat_size_of b) + root_dir_sectors_of b)

abbrev pub total_clusters_of : BootSector → ℕ
total_clusters_of b = sub32 (total_sectors_of b) (metadata_sectors_of b) / b.sectors_per_cluster

-- What `FAT_initialize` stores in `FAT_data`.
abbrev pub layout : ℕ → BootSector → FatData
layout volume_start b = record {
  fat_size = fat_size_of b;
  fat_type =
      if ltb (total_clusters_of b) 4085
      then 12
      else if ltb (total_clusters_of b) 65525
      then 16
      else 32;
  first_data_sector = u32 (
      volume_start
      + b.reserved_sector_count
      + u32 (b.table_count * fat_size_of b)
      + root_dir_sectors_of b);
  total_sectors = total_sectors_of b;
  total_clusters = total_clusters_of b;
  bytes_per_sector = b.bytes_per_sector;
  cluster_size = u32 (b.bytes_per_sector * b.sectors_per_cluster);
  sectors_per_cluster = b.sectors_per_cluster;
  ext_root_cluster = b.root_cluster;
  first_fat_sector = u32 (volume_start + b.reserved_sector_count);
}

-- `FAT_initialize` from the boot sector of the volume on; `none` is the result -1.
unfoldable pub fat_data_of : ℕ → BootSector → Option FatData
fat_data_of volume_start b =
    if leb (total_sectors_of b) (metadata_sectors_of b) then none else some (layout volume_start b)

-- The boot sector of the partition that the master boot record names.
unfoldable pub initialize_partition : Disk → ℕ → Option FatData
initialize_partition d volume_start = do
  sector ← read_sector d volume_start
  if is_valid_bpb (boot_sector_of sector) sector
      then fat_data_of volume_start (boot_sector_of sector)
      else none

-- `FAT_initialize`, by the first sector of the disk.
unfoldable pub initialize_from : Disk → List ℕ → Option FatData
initialize_from d sector =
    if is_valid_bpb (boot_sector_of sector) sector
    then fat_data_of 0 (boot_sector_of sector)
    else if find_fat_partition_lba sector == 0
    then none
    else initialize_partition d (find_fat_partition_lba sector)

unfoldable pub initialize : Disk → Option FatData
initialize d = do sector ← read_sector d 0; initialize_from d sector
