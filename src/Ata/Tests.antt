-- ===== src/Ata/Tests.antt =====
-- src/kernel/arch/drivers/ata.c on a disk whose sector `s` holds 512 bytes `s`, with a bad sector 7.
use cordell_os.Base.{
  ℕ, ◌+◌, ◌*◌, ◌<◌, ◌≤◌, ◌≡◌, refl, ◌⊎◌, none, some, arith, ◌==◌, replicate, take,
}
use cordell_os.Ata.{
  Disk, sector_size, read_sector, write_sector, read_sectors, write_sectors, copy_sectors2sectors,
  readoff_loop, readoff_sectors,
}
use cordell_os.Ata.Sectors.{read_sectors-write_sectors}

abbrev disk : Disk
disk = record { sector = λ s. replicate 512 s; read_fails = λ s. s == 7; write_fails = λ s. s == 7 }

boot_is_kept : write_sectors disk 0 (replicate 512 1) 1 ≡ none
unfolding write_sectors write_sector
boot_is_kept = refl

bad_sector : read_sectors disk 6 2 ≡ none
unfolding read_sectors read_sector
bad_sector = refl

copy_stops : copy_sectors2sectors disk 6 2 20 ≡ none
unfolding copy_sectors2sectors read_sector write_sector
copy_stops = refl

seek_past_the_run : readoff_sectors disk 1 1024 2 ≡ none
unfolding readoff_sectors readoff_loop read_sector
seek_past_the_run = refl

read_sectors-write_sectors_example :
    (w : Disk) × (write_sectors disk 3 (replicate 1030 9) 2 ≡ some w)
    × (read_sectors w 3 2 ≡ some (take (2 * sector_size) (replicate 1030 9)))
    × ((s : ℕ) → (s < 3) ⊎ (3 + 2 ≤ s) → w.sector s ≡ disk.sector s)
read_sectors-write_sectors_example =
    read_sectors-write_sectors disk 3 2 (replicate 1030 9) (omega arith) (omega arith)
      (λ i lt. ground arith) (λ i lt. ground arith)
