-- ===== src/Fat/Partition.antt =====
-- Which sector `FAT_initialize` takes as the boot sector of the volume.
use cordell_os.Base.{
  ℕ, zero, suc, ◌+◌, ◌-◌, bit_and, ◌*◌, ◌<◌, ◌≡◌, refl, sym, ◌≢◌, ◌⊎◌, inl, inr, true, false, not,
  ◌&&◌, Option, none, some, List, arith, ◌==◌, if◌then◌else◌, Bool-cases, get_or,
}
use cordell_os.Ata.{Disk, ◌>>=◌, read_sector}
use cordell_os.Fat.Volume.{FatData, load32}
use cordell_os.Fat.Boot.{
  BootSector, boot_sector_of, load16, is_fat_partition, is_valid_bpb, find_partition,
  find_fat_partition_lba, fat_data_of, initialize_partition, initialize_from, initialize,
}

-- An entry of the partition table that names a FAT partition at `start`.
abbrev pub IsPartition : List ℕ → ℕ → ℕ → Type 0
IsPartition sector start k =
    (is_fat_partition (get_or sector (446 + k * 16 + 4) 0) ≡ true)
    × (load32 sector (446 + k * 16 + 8) ≡ start)
    × (load32 sector (446 + k * 16 + 12) ≢ 0)

-- The boot sector of the volume is sector 0, or sector 0 is no boot sector but a master boot record
-- one of whose four entries names a FAT partition, which starts at `start`.
abbrev pub IsStart : Disk → ℕ → Type 0
IsStart d start =
    (start ≡ 0)
    ⊎ ((mbr : List ℕ) × (read_sector d 0 ≡ some mbr)
        × (is_valid_bpb (boot_sector_of mbr) mbr ≡ false)
        × (load16 mbr 510 ≡ 0xaa55)
        × ((k : ℕ) × (k < 4) × IsPartition mbr start k))

-- The fields of a boot sector that stands at the start of a FAT volume.
pub record HasFields (b : BootSector) (sector : List ℕ) : Type 0 where
  pub signature : (get_or sector 510 0 ≡ 0x55) × (get_or sector 511 0 ≡ 0xaa)
  pub sector_bytes : b.bytes_per_sector ≡ 512
  pub some_sectors : b.sectors_per_cluster ≢ 0
  pub one_bit : bit_and b.sectors_per_cluster (b.sectors_per_cluster - 1) ≡ 0
  pub some_reserved : b.reserved_sector_count ≢ 0
  pub some_tables : b.table_count ≢ 0
  pub some_total : (b.total_sectors_16 ≢ 0) ⊎ (b.total_sectors_32 ≢ 0)
  pub some_table_size : (b.table_size_16 ≢ 0) ⊎ (b.table_size_32 ≢ 0)

one_of : (m n : ℕ) → (m == 0 && n == 0) ≡ false → (m ≢ 0) ⊎ (n ≢ 0)
one_of zero n h = inr (ground arith)
one_of (suc m) n h = inl (omega arith)

is_valid_bpb-HasFields :
    (b : BootSector) (sector : List ℕ) → is_valid_bpb b sector ≡ true → HasFields b sector
unfolding is_valid_bpb
is_valid_bpb-HasFields b sector h = record {
  signature = (ground arith, ground arith);
  sector_bytes = ground arith;
  some_sectors = ground arith;
  one_bit = ground arith;
  some_reserved = ground arith;
  some_tables = ground arith;
  some_total = one_of b.total_sectors_16 b.total_sectors_32 (ground arith);
  some_table_size = one_of b.table_size_16 b.table_size_32 (ground arith);
}

-- The boot sector that `FAT_initialize` has accepted.
pub record Accepted (d : Disk) (f : FatData) : Type 0 where
  pub start : ℕ
  pub sector : List ℕ
  pub read : read_sector d start ≡ some sector
  pub valid : is_valid_bpb (boot_sector_of sector) sector ≡ true
  pub fields : HasFields (boot_sector_of sector) sector
  pub filled : fat_data_of start (boot_sector_of sector) ≡ some f
  pub place : IsStart d start

find_partition_lem :
    (sector : List ℕ) (left i start : ℕ)
    → find_partition sector left i ≡ start
    → start ≢ 0
    → (k : ℕ) × (k < i + left) × IsPartition sector start k
unfolding find_partition
find_partition_lem sector zero i start found some_start = absurd (some_start (sym found))
find_partition_lem sector (suc left) i start found some_start =
    elim (Bool-cases (
      is_fat_partition (get_or sector (446 + i * 16 + 4) 0)
      && (not (load32 sector (446 + i * 16 + 8) == 0)
          && not (load32 sector (446 + i * 16 + 12) == 0)))) [
            | inl hit ↦
                let at : load32 sector (446 + i * 16 + 8) ≡ start = simp hit at found in
                (i, omega arith, (ground arith, at, ground arith))
            | inr miss ↦
                let later : find_partition sector left (i + 1) ≡ start = simp miss at found in
                let (k, lt, is) = find_partition_lem sector left (i + 1) start later some_start in
                (k, omega arith, is)
          ]

module _ (d : Disk) (f : FatData) where
  accept :
      (start : ℕ)
      → IsStart d start
      → (o : Option (List ℕ)) → read_sector d start ≡ o
      → (o >>= λ sector.
          if is_valid_bpb (boot_sector_of sector) sector
          then fat_data_of start (boot_sector_of sector)
          else none)
        ≡ some f
      → Accepted d f
  accept start place none read given = absurd (ground arith)
  accept start place (some sector) read given =
      elim (Bool-cases (is_valid_bpb (boot_sector_of sector) sector)) [
        | inl valid ↦ record {
          start = start;
          sector = sector;
          read = read;
          valid = valid;
          fields = is_valid_bpb-HasFields (boot_sector_of sector) sector valid;
          filled = simp valid at given;
          place = place;
        }
        | inr bad ↦ absurd (ground arith)
      ]

  accept_first :
      (o : Option (List ℕ))
      → read_sector d 0 ≡ o
      → (o >>= initialize_from d) ≡ some f
      → Accepted d f
  unfolding initialize_from initialize_partition find_fat_partition_lba
  accept_first none read given = absurd (ground arith)
  accept_first (some mbr) read given = elim (Bool-cases (is_valid_bpb (boot_sector_of mbr) mbr)) [
    | inl valid ↦ accept 0 (inl refl) (some mbr) read (simp valid (simp valid at given))
    | inr bad ↦
        let start = find_fat_partition_lba mbr in
        elim (Bool-cases (load16 mbr 510 == 0xaa55)) [
          | inr unsigned ↦ absurd (ground arith)
          | inl signed ↦ elim (Bool-cases (find_partition mbr 4 0 == 0)) [
            | inl missing ↦ absurd (ground arith)
            | inr there ↦
                let first = find_partition mbr 4 0 in
                let (k, lt, is) = find_partition_lem mbr 4 0 first refl (ground arith) in
                accept first (inr (mbr, read, bad, ground arith, (k, lt, is))) (read_sector d first)
                  refl (simp (bad, signed, there) at given)
          ]
        ]
  ]

  -- Where `FAT_initialize` succeeds, it has read a boot sector from sector 0 or, where that is no
  -- boot sector, from the start of a FAT partition with sectors in the partition table of sector
  -- 0. The boot sector ends with the bytes 0x55 and 0xaa, has 512 bytes in a sector, a number n of
  -- sectors in a cluster, not 0, for which n & (n - 1) is 0, and not 0 for the reserved sectors,
  -- the tables, the sectors and the sectors of a table; `FAT_data` is what it says.
  pub initialize_sound : initialize d ≡ some f → Accepted d f
  unfolding initialize
  initialize_sound given = accept_first (read_sector d 0) refl given
