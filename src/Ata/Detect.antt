-- ===== src/Ata/Detect.antt =====
-- The drives of src/kernel/arch/drivers/ata.c: their ports, the probing of each by
-- `ATA_device_detect`, and the choice of the current one. What a drive answers is a parameter.
use cordell_os.Base.{
  ℕ, zero, suc, ◌+◌, Bool, true, false, not, ◌&&◌, ◌||◌, Option, none, some, ◌==◌, if◌then◌else◌,
  bit_and, bit_or,
}
use cordell_os.Ata.Poll.{has_flag, is_error, status_bsy, status_drq}

-- `_primary_master`, `_primary_slave`, `_secondary_master` and `_secondary_slave`.
pub data Drive : Type 0 where
  primary_master : Drive
  primary_slave : Drive
  secondary_master : Drive
  secondary_slave : Drive

-- The argument `primary` with which each is probed.
unfoldable pub is_primary : Drive → Bool
is_primary primary_master = true
is_primary primary_slave = true
is_primary secondary_master = false
is_primary secondary_slave = false

-- `dev->slave`
unfoldable pub slave : Drive → ℕ
slave primary_master = 0
slave primary_slave = 1
slave secondary_master = 0
slave secondary_slave = 1

-- The part of `ata_dev_t` that `ATA_device_init` sets.
pub record Ports : Type 0 where
  pub data_port : ℕ
  pub error : ℕ
  pub sector_count : ℕ
  pub lba_lo : ℕ
  pub lba_mid : ℕ
  pub lba_high : ℕ
  pub drive : ℕ
  pub command : ℕ
  pub alt_status : ℕ
  pub bar4 : ℕ
  pub bmr_command : ℕ
  pub bmr_status : ℕ
  pub bmr_prdt : ℕ
  pub letter : ℕ

-- `ATA_device_init`, by what the PCI register holds, which is 0 where there is no PCI device.
unfoldable pub device_init : ℕ → Drive → Ports
device_init pci_bar4 d =
    let base_addr = if is_primary d then 496 else 368 in
    let bar4 = if has_flag 1 pci_bar4 then bit_and pci_bar4 4294967292 else pci_bar4 in
    record {
      data_port = base_addr;
      error = base_addr + 1;
      sector_count = base_addr + 2;
      lba_lo = base_addr + 3;
      lba_mid = base_addr + 4;
      lba_high = base_addr + 5;
      drive = base_addr + 6;
      command = base_addr + 7;
      alt_status = if is_primary d then 1014 else 886;
      bar4 = bar4;
      bmr_command = bar4;
      bmr_status = if bar4 == 0 then 0 else bar4 + 2;
      bmr_prdt = if bar4 == 0 then 0 else bar4 + 4;
      letter = 97 + bit_or (if is_primary d then 0 else 2) (slave d);
    }

-- What a drive answers to the identify command: the status port, read by read, and the registers.
pub record Answers : Type 0 where
  pub status : ℕ → ℕ
  pub lba_lo : ℕ
  pub lba_mid : ℕ
  pub lba_high : ℕ

abbrev pub detect_timeout : ℕ
detect_timeout = 9999999

-- The `while` loop, over the reads left: the status that it ends with. The read that makes the
-- timeout negative ends the probing.
unfoldable pub detect_loop : (ℕ → ℕ) → ℕ → ℕ → ℕ → Option ℕ
detect_loop port zero status i = if has_flag status_bsy status then none else some status
detect_loop port (suc left) status i =
    let rest = detect_loop port left (port i) (i + 1) in
    if has_flag status_bsy status then rest else some status

-- The checks of the last status.
abbrev pub has_data : Option ℕ → Bool
has_data none = false
has_data (some status) = not (is_error status) && has_flag status_drq status

-- `ATA_device_detect` past the commands: whether the drive is there.
unfoldable pub device_detect : Answers → Bool
device_detect a =
    let polled = has_data (detect_loop a.status detect_timeout (a.status 0) 1) in
    if a.status 0 == 0 || a.status 0 == 255
    then false
    else if not (a.lba_lo == 0) || not (a.lba_mid == 0) || not (a.lba_high == 0)
    then false
    else polled

-- One `if (_current_ata_device == NULL)` of `ATA_initialize` with its probe.
abbrev pub probe : (Drive → Answers) → Drive → Option Drive → Option Drive
probe answers d (some found) = some found
probe answers d none = if device_detect (answers d) then some d else none

-- The current device that the four probes leave. The first is made whatever device was current, and
-- keeps it where it fails.
unfoldable pub probe_drives : (Drive → Answers) → Option Drive → Option Drive
probe_drives answers current =
    let first = if device_detect (answers primary_master) then some primary_master else current in
    probe answers secondary_slave
      (probe answers secondary_master (probe answers primary_slave first))

-- `ATA_initialize`: the result and the current device. `vfs_initialize` is the call of
-- `VFS_initialize` with that device.
abbrev pub initialize_with : (Drive → Bool) → Option Drive → Bool × Option Drive
initialize_with vfs_initialize none = (false, none)
initialize_with vfs_initialize (some d) = (vfs_initialize d, some d)

unfoldable pub ata_initialize :
    (Drive → Answers) → (Drive → Bool) → Option Drive → Bool × Option Drive
ata_initialize answers vfs_initialize current =
    initialize_with vfs_initialize (probe_drives answers current)

-- `ATA_device_switch`
unfoldable pub device_switch : ℕ → Option Drive → Option Drive
device_switch device current =
    if device == 1
    then some primary_master
    else if device == 2
    then some primary_slave
    else if device == 3
    then some secondary_master
    else if device == 4
    then some secondary_slave
    else current
