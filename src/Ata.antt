-- ===== src/Ata.antt =====
-- The sector functions of src/kernel/arch/drivers/ata.c. The device behind the ports is a parameter:
-- what each sector holds, and for which sectors the status port reports an error or stays busy.
-- `none` is the result -1.
pub mod Sectors
pub mod Poll
pub mod Detect
pub mod Stop
pub mod Writeoff
mod Tests
mod DriveTests
use cordell_os.Base.{
  ℕ, zero, suc, ◌+◌, ◌-◌, ◌*◌, ◌/◌, ◌%◌, ◌^◌, Bool, Option, none, some, List, [], ◌∷◌, ◌++◌, ltb,
  leb, ◌==◌, ◌||◌, if◌then◌else◌, take, drop, u32,
}

abbrev pub sector_size : ℕ
sector_size = 512

abbrev pub boot_sector : ℕ
boot_sector = 0

-- The disk as the drive presents it.
pub record Disk : Type 0 where
  pub sector : ℕ → List ℕ
  pub read_fails : ℕ → Bool
  pub write_fails : ℕ → Bool

-- The address that `_prepare_for_reading` and `_prepare_for_writing` give the drive: 24 bits in the
-- three LBA registers and 4 in the drive register.
abbrev pub lba28 : ℕ → ℕ
lba28 lba = lba % 2 ^ 28

-- The bytes that the read loop takes from the data port.
unfoldable pub read_sector : Disk → ℕ → Option (List ℕ)
read_sector d lba = if d.read_fails (lba28 lba) then none else some (d.sector (lba28 lba))

-- The drive stores what the write loop sends: the 512 bytes at `buffer`.
unfoldable pub write_sector : Disk → ℕ → List ℕ → Option Disk
write_sector d lba buffer =
    if lba == boot_sector || d.write_fails (lba28 lba)
    then none
    else some
        (record d { sector = λ s. if s == lba28 lba then take sector_size buffer else d.sector s })

-- A failure is passed on.
infixl 5 ◌>>=◌
abbrev pub ◌>>=◌ {ℓ κ} : {A : Type ℓ} {B : Type κ} → Option A → (A → Option B) → Option B
none >>= f = none
some a >>= f = f a

-- `ATA_read_sectors`: sector `lba + i` goes to `buffer + i * 512`.
unfoldable pub read_sectors : Disk → ℕ → ℕ → Option (List ℕ)
read_sectors d lba zero = some []
read_sectors d lba (suc count) = do
  bytes ← read_sector d lba
  rest ← read_sectors d (u32 (lba + 1)) count
  some (bytes ++ rest)

unfoldable pub write_sectors : Disk → ℕ → List ℕ → ℕ → Option Disk
write_sectors d lba buffer zero = some d
write_sectors d lba buffer (suc count) = do
  d' ← write_sector d lba buffer
  write_sectors d' (u32 (lba + 1)) (drop sector_size buffer) count

-- The loop of `ATA_copy_sectors2sectors` over the sectors left.
unfoldable pub copy_sectors2sectors : Disk → ℕ → ℕ → ℕ → Option Disk
copy_sectors2sectors d source zero destination = some d
copy_sectors2sectors d source (suc count) destination = do
  bytes ← read_sector d source
  d' ← write_sector d destination bytes
  copy_sectors2sectors d' (u32 (source + 1)) count (u32 (destination + 1))

-- The loop of `ATA_readoff_sectors` over the sectors left, with the seek of the first.
unfoldable pub readoff_loop : Disk → ℕ → ℕ → ℕ → Option (List ℕ)
readoff_loop d lba zero data_seek = some []
readoff_loop d lba (suc left) data_seek = do
  bytes ← read_sector d lba
  rest ← readoff_loop d (u32 (lba + 1)) left 0
  some (drop data_seek bytes ++ rest)

unfoldable pub readoff_sectors : Disk → ℕ → ℕ → ℕ → Option (List ℕ)
unfolding readoff_loop
readoff_sectors d lba offset count =
    let sectors_seek = offset / sector_size in
    if count == 0 || leb count sectors_seek
    then none
    else readoff_loop d (u32 (lba + sectors_seek)) (count - sectors_seek) (offset % sector_size)
