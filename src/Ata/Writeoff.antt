-- ===== src/Ata/Writeoff.antt =====
-- The writes of src/kernel/arch/drivers/ata.c that begin inside a sector, as what they send to the
-- drive: for each write command the sector and the bytes that follow it. The drive stores a sector
-- when it has got 512 bytes for it.
use cordell_os.Base.{
  Bool, true, false, ℕ, zero, suc, ◌+◌, ◌-◌, ◌*◌, ◌/◌, ◌%◌, ◌<◌, ◌≤◌, ◌≡◌, ◌↔◌, ◌||◌, Option, none,
  some, List, [], ◌∷◌, arith, ◌==◌, if◌then◌else◌, length, length-take, length-drop, take, drop,
  u32, sub32, min,
}
use cordell_os.Ata.{Disk, sector_size, boot_sector, lba28}

-- The bytes at `buffer` that `ATA_writeoff_sector` sends, as words, from number `offset / 2` on up to
-- the bound, which is unsigned.
unfoldable pub sent_bytes : List ℕ → ℕ → ℕ → List ℕ
sent_bytes buffer offset size =
    let first = offset / 2 in
    let bound = min (size / 2) (sub32 (sector_size / 2) offset) in
    take ((bound - first) * 2) (drop (first * 2) buffer)

-- `ATA_writeoff_sector`: the transfer that it makes.
unfoldable pub writeoff_sector : Disk → ℕ → List ℕ → ℕ → ℕ → Option (ℕ × List ℕ)
writeoff_sector d lba buffer offset size =
    if lba == boot_sector || d.write_fails (lba28 lba)
    then none
    else some (lba28 lba, sent_bytes buffer offset size)

-- A transfer with those behind it; where none was made, the result -1 with no more of them.
abbrev pub sent_first : Option (ℕ × List ℕ) → List (ℕ × List ℕ) × Bool → List (ℕ × List ℕ) × Bool
sent_first none rest = ([], false)
sent_first (some sent) (more, ok) = (sent ∷ more, ok)

-- The loop of `ATA_writeoff_sectors` over the sectors left, with `size` bytes left: the transfers, and
-- whether the result is 1.
unfoldable pub writeoff_loop : Disk → ℕ → List ℕ → ℕ → ℕ → ℕ → List (ℕ × List ℕ) × Bool
writeoff_loop d lba buffer zero sector_seek size = ([], true)
writeoff_loop d lba buffer (suc left) sector_seek size =
    let write_size = min size (sector_size - sector_seek) in
    let rest =
      writeoff_loop d (u32 (lba + 1)) (drop write_size buffer) left 0 (size - write_size) in
    if size == 0
    then ([], true)
    else sent_first (writeoff_sector d lba buffer sector_seek write_size) rest

-- `ATA_writeoff_sectors`
unfoldable pub writeoff_sectors : Disk → ℕ → List ℕ → ℕ → ℕ → ℕ → List (ℕ × List ℕ) × Bool
writeoff_sectors d lba buffer count offset size =
    let sectors_seek = offset / sector_size in
    writeoff_loop d (u32 (lba + sectors_seek)) buffer (count - sectors_seek) (offset % sector_size)
      size

-- A sector is sent whole just where the write begins at its start and has at least 512 bytes. The
-- buffer has the bytes to send, and the write begins inside the sector and ends inside it.
pub length-sent_bytes :
    (buffer : List ℕ) (offset size : ℕ)
    → offset < sector_size
    → offset + size ≤ sector_size
    → sector_size ≤ length buffer
    → (length (sent_bytes buffer offset size) ≡ sector_size) ↔ (size ≡ sector_size)
unfolding sent_bytes
length-sent_bytes buffer offset size inside within room =
    let first = offset / 2 in
    let count = (min (size / 2) (sub32 (sector_size / 2) offset) - first) * 2 in
    let e = length-take count (drop (first * 2) buffer) in
    let e' = length-drop (first * 2) buffer in ground (arith, e, e')
