-- ===== src/Ata/DriveTests.antt =====
-- The polling, the probing and the partial transfers of src/kernel/arch/drivers/ata.c.
use cordell_os.Base.{
  ℕ, ◌+◌, ◌*◌, ◌<◌, ◌≤◌, ◌≡◌, refl, ◌↔◌, true, false, none, some, [], ◌∷◌, ◌++◌, arith, ltb,
  if◌then◌else◌, replicate, length,
}
use cordell_os.Ata.{Disk, sector_size, read_sector}
use cordell_os.Ata.Sectors.{contents}
use cordell_os.Ata.Poll.{
  has_flag, is_error, is_ata_ready, ready_timeout, BecameIdle, AskedForData, is_ata_ready_lem,
}
use cordell_os.Ata.Detect.{
  Drive, primary_slave, secondary_slave, Answers, is_primary, slave, device_init, detect_loop,
  device_detect, probe_drives, ata_initialize, device_switch,
}
use cordell_os.Ata.Stop.{
  stop_symbol, read_sectors_stop, read_sectors_stop_lem, read_sector_stopoff, stop_loop,
  readoff_stop_loop, readoff_sectors_stop, up_to, outcome,
}
use cordell_os.Ata.Writeoff.{
  sent_bytes, writeoff_sector, writeoff_loop, writeoff_sectors, length-sent_bytes,
}

-- A drive that is busy for three reads and asks for data from the fifth on.
abbrev port : ℕ → ℕ
port i = if ltb i 3 then 128 else if ltb i 4 then 64 else 88

abbrev disk : Disk
disk = record {
  sector = λ s. replicate 100 65 ++ (s ∷ replicate 411 66);
  read_fails = λ s. false;
  write_fails = λ s. false;
}

is_ata_ready_example :
    ((is_ata_ready true port).1 ≤ 2 * ready_timeout + 2)
    × (((is_ata_ready true port).0 ≡ true) ↔ (
        (i : ℕ) × (j : ℕ) × (i < ready_timeout)
        × (j ≤ i + ready_timeout)
        × BecameIdle port 0 i
        × AskedForData port i j))
is_ata_ready_example = is_ata_ready_lem port

read_sectors_stop_example :
    read_sectors_stop disk 9 2 10
    ≡ some (up_to 10 (contents disk 9 2), outcome 10 (contents disk 9 2))
read_sectors_stop_example =
    read_sectors_stop_lem disk 10 (λ e. absurd (omega (arith, e))) (λ s. refl) 2 9 (omega arith)
      (λ i lt. refl)

-- Half a sector is sent as half a sector.
length-sent_bytes_example :
    (length (sent_bytes (replicate 512 7) 0 256) ≡ sector_size) ↔ (256 ≡ sector_size)
length-sent_bytes_example =
    length-sent_bytes (replicate 512 7) 0 256 (omega arith) (omega arith) (omega arith)

writeoff_runs :
    writeoff_sectors disk 9 (5 ∷ 6 ∷ 7 ∷ 8 ∷ []) 2 0 4 ≡ ((9, 5 ∷ 6 ∷ 7 ∷ 8 ∷ []) ∷ [], true)
unfolding writeoff_sectors writeoff_loop writeoff_sector sent_bytes
writeoff_runs = refl

-- A write behind the sectors that may be written sends nothing and succeeds.
writeoff_behind : writeoff_sectors disk 9 (5 ∷ []) 2 1024 1 ≡ ([], true)
unfolding writeoff_sectors writeoff_loop
writeoff_behind = refl

stopoff_runs : readoff_sectors_stop disk 9 100 1 9 ≡ some (9 ∷ replicate 411 0, stop_symbol)
unfolding readoff_sectors_stop readoff_stop_loop read_sector_stopoff stop_loop read_sector
stopoff_runs = refl

abbrev answers : Drive → Answers
answers d = elim d [
  | secondary_slave ↦ record { status = λ i. 88; lba_lo = 0; lba_mid = 0; lba_high = 0 }
  | _ ↦ record { status = λ i. 255; lba_lo = 0; lba_mid = 0; lba_high = 0 }
]

initialize_runs : ata_initialize answers (λ d. true) none ≡ (true, some secondary_slave)
unfolding ata_initialize probe_drives device_detect detect_loop has_flag is_error
initialize_runs = refl

switch_runs : device_switch 2 none ≡ some primary_slave
unfolding device_switch
switch_runs = refl

letter_runs : (device_init 0 secondary_slave).letter ≡ 100
unfolding device_init is_primary slave has_flag
letter_runs = refl
