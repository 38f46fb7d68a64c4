-- ===== src/Fat/BootTests.antt =====
-- `FAT_initialize` on a disk whose sector 0 is the boot sector of a FAT32 volume of 70000 sectors.
use cordell_os.Base.{
  ℕ, ◌≡◌, refl, false, some, List, [], ◌∷◌, ◌++◌, arith, ◌==◌, if◌then◌else◌, replicate,
}
use cordell_os.Ata.{Disk, read_sector}
use cordell_os.Fat.Volume.{cluster_lba}
use cordell_os.Fat.Boot.{
  boot_sector_of, layout, is_fat_partition, is_valid_bpb, find_partition, find_fat_partition_lba,
  fat_data_of, initialize_partition, initialize_from, initialize,
}
use cordell_os.Fat.Geometry.{IsLaidOut, fat_data_of-IsLaidOut}
use cordell_os.Fat.Partition.{Accepted, initialize_sound}

abbrev sector : List ℕ
sector =
    replicate 11 0
    ++ (0 ∷ 2 ∷ 1 ∷ 32 ∷ 0 ∷ 2 ∷ 0 ∷ 0 ∷ 0 ∷ 0 ∷ 0xf8 ∷ 0 ∷ 0 ∷ replicate 8 0)
    ++ (0x70 ∷ 0x11 ∷ 1 ∷ 0 ∷ 8 ∷ 2 ∷ 0 ∷ 0 ∷ 0 ∷ 0 ∷ 0 ∷ 0 ∷ 2 ∷ 0 ∷ 0 ∷ 0 ∷ replicate 462 0)
    ++ (0x55 ∷ 0xaa ∷ [])

-- A master boot record whose second entry is a FAT32 partition at sector 2048.
abbrev mbr : List ℕ
mbr =
    replicate 462 0
    ++ (0x80 ∷ 0 ∷ 0 ∷ 0 ∷ 0x0c ∷ 0 ∷ 0 ∷ 0 ∷ 0 ∷ 8 ∷ 0 ∷ 0 ∷ 0x70 ∷ 0x11 ∷ 1 ∷ 0 ∷ replicate 32 0)
    ++ (0x55 ∷ 0xaa ∷ [])

abbrev disk : Disk
disk = record { sector = λ s. sector; read_fails = λ s. false; write_fails = λ s. false }

abbrev partitioned : Disk
partitioned = record disk { sector = λ s. if s == 0 then mbr else sector }

run : Unit {0}
unfolding is_fat_partition is_valid_bpb find_partition find_fat_partition_lba fat_data_of
    initialize_partition initialize_from initialize read_sector cluster_lba
run = tt

initialize_runs : initialize disk ≡ some (layout 0 (boot_sector_of sector))
unfolding run
initialize_runs = refl

partition_runs : initialize partitioned ≡ some (layout 2048 (boot_sector_of sector))
unfolding run
partition_runs = refl

first_cluster : cluster_lba (layout 2048 (boot_sector_of sector)) 2 ≡ 3120
unfolding run
first_cluster = refl

fat_data_of-IsLaidOut_example :
    IsLaidOut 2048 (boot_sector_of sector) (layout 2048 (boot_sector_of sector))
fat_data_of-IsLaidOut_example =
    fat_data_of-IsLaidOut 2048 (boot_sector_of sector) (layout 2048 (boot_sector_of sector))
      (record { byte = omega arith; metadata = omega arith; total = omega arith }) filled
  where
    filled : fat_data_of 2048 (boot_sector_of sector) ≡ some (layout 2048 (boot_sector_of sector))
    filled = unfold run in refl

initialize_sound_example : Accepted partitioned (layout 2048 (boot_sector_of sector))
initialize_sound_example =
    initialize_sound partitioned (layout 2048 (boot_sector_of sector)) partition_runs
