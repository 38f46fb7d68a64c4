-- ===== src/Ata/Stop.antt =====
-- The reads of src/kernel/arch/drivers/ata.c that stop at a symbol. The byte `*stop` that a call
-- leaves is part of its result.
use cordell_os.Base.{
  ℕ, zero, suc, ◌+◌, ◌-◌, ◌*◌, ◌/◌, ◌%◌, ◌^◌, ◌<◌, ◌≤◌, ◌≡◌, ◌≢◌, refl, sym, ap, ap₂, ◌∙◌, inl, inr,
  Bool, true, false, ◌&&◌, ◌||◌, Option, none, some, List, [], ◌∷◌, ◌++◌, arith, leb, ◌==◌,
  if◌then◌else◌, Bool-cases, length, length-append, replicate, drop, u32,
}
use cordell_os.Ata.{Disk, sector_size, read_sector, ◌>>=◌}
use cordell_os.Ata.Sectors.{contents, read_sector-good}

abbrev pub stop_symbol : ℕ
stop_symbol = 16

-- The loop of `ATA_read_sector_stopoff` over the bytes from position `n` on. Once the symbol was met
-- the bytes go to the dummy buffer, and the 0 of the `memset` stays. With an offset of 0 it is the
-- loop of `ATA_read_sector_stop`.
unfoldable pub stop_loop : ℕ → ℕ → ℕ → Bool → List ℕ → List ℕ × ℕ
stop_loop offset n stop dummy [] = ([], stop)
stop_loop offset n stop dummy (b ∷ bs) =
    let met = b == stop && leb offset n in
    let (rest, last) =
      stop_loop offset (n + 1) (if met then stop_symbol else stop) (dummy || met) bs in
    ((if dummy then 0 else b) ∷ rest, last)

-- `ATA_read_sector_stop`
unfoldable pub read_sector_stop : Disk → ℕ → ℕ → Option (List ℕ × ℕ)
read_sector_stop d lba stop = do bytes ← read_sector d lba; some (stop_loop 0 0 stop false bytes)

-- `ATA_read_sector_stopoff`
unfoldable pub read_sector_stopoff : Disk → ℕ → ℕ → ℕ → Option (List ℕ × ℕ)
read_sector_stopoff d lba offset stop = do
  bytes ← read_sector d lba
  some (stop_loop offset 0 stop false bytes)

-- The end of a round: the sectors behind the `break` keep the padding, the others follow.
abbrev pub stop_after : (ℕ → Option (List ℕ × ℕ)) → List ℕ → List ℕ × ℕ → Option (List ℕ × ℕ)
stop_after rest padding (bytes, stop) =
    if stop == stop_symbol
    then some (bytes ++ padding, stop)
    else (rest stop >>= λ (more, last). some (bytes ++ more, last))

-- `ATA_read_sectors_stop` over the sectors left. The padding is the 0 of the `memset`.
unfoldable pub read_sectors_stop : Disk → ℕ → ℕ → ℕ → Option (List ℕ × ℕ)
read_sectors_stop d lba zero stop = some ([], stop)
read_sectors_stop d lba (suc count) stop =
    let rest : ℕ → Option (List ℕ × ℕ) = λ s. read_sectors_stop d (u32 (lba + 1)) count s in
    read_sector_stop d lba stop >>= λ found.
    stop_after rest (replicate (count * sector_size) 0) found

-- The loop of `ATA_readoff_sectors_stop` over the sectors left, with the seek of the first: what is
-- copied to the buffer.
unfoldable pub readoff_stop_loop : Disk → ℕ → ℕ → ℕ → ℕ → Option (List ℕ × ℕ)
readoff_stop_loop d lba zero data_seek stop = some ([], stop)
readoff_stop_loop d lba (suc left) data_seek stop =
    let rest : ℕ → Option (List ℕ × ℕ) = λ s. readoff_stop_loop d (u32 (lba + 1)) left 0 s in
    read_sector_stopoff d lba data_seek stop >>= λ (bytes, last).
    stop_after rest [] (drop data_seek bytes, last)

-- `ATA_readoff_sectors_stop`
unfoldable pub readoff_sectors_stop : Disk → ℕ → ℕ → ℕ → ℕ → Option (List ℕ × ℕ)
readoff_sectors_stop d lba offset count stop =
    let sectors_seek = offset / sector_size in
    if count == 0 || leb count sectors_seek
    then none
    else readoff_stop_loop d (u32 (lba + sectors_seek)) (count - sectors_seek)
        (offset % sector_size) stop

-- The bytes up to the first one that is `stop`, that one included, and 0 for those behind it.
unfoldable pub up_to : ℕ → List ℕ → List ℕ
up_to stop [] = []
up_to stop (b ∷ bs) =
    let rest = up_to stop bs in b ∷ (if b == stop then replicate (length bs) 0 else rest)

unfoldable pub occurs : ℕ → List ℕ → Bool
occurs stop [] = false
occurs stop (b ∷ bs) = b == stop || occurs stop bs

-- What is in the byte `*stop` after `stop` was looked for in `bytes`.
abbrev pub outcome : ℕ → List ℕ → ℕ
outcome stop bytes = if occurs stop bytes then stop_symbol else stop

-- Once the symbol was met nothing more is copied.
stop_loop-dummy :
    (n : ℕ) (bs : List ℕ)
    → stop_loop 0 n stop_symbol true bs ≡ (replicate (length bs) 0, stop_symbol)
unfolding stop_loop
stop_loop-dummy n [] = refl
stop_loop-dummy n (b ∷ bs) =
    let same : (if b == stop_symbol && leb 0 n then stop_symbol else stop_symbol) ≡ stop_symbol =
      ground arith in
    rw (same, stop_loop-dummy (n + 1) bs) refl

stop_loop-up_to :
    (n stop : ℕ) (bs : List ℕ) → stop_loop 0 n stop false bs ≡ (up_to stop bs, outcome stop bs)
unfolding stop_loop up_to occurs
stop_loop-up_to n stop [] = refl
stop_loop-up_to n stop (b ∷ bs) =
    let behind : leb 0 n ≡ true = ground arith in
    elim (Bool-cases (b == stop)) [
      | inl met ↦ rw (met, behind, stop_loop-dummy (n + 1) bs) refl
      | inr other ↦ rw (other, stop_loop-up_to (n + 1) stop bs) refl
    ]

up_to-absent : (stop : ℕ) (xs : List ℕ) → occurs stop xs ≡ false → up_to stop xs ≡ xs
unfolding up_to occurs
up_to-absent stop [] h = refl
up_to-absent stop (b ∷ bs) h =
    let other : (b == stop) ≡ false = ground arith in
    let later : occurs stop bs ≡ false = ground arith in
    simp other (ap (◌∷◌ b) (up_to-absent stop bs later))

abbrev pub zeros : ℕ → List ℕ
zeros n = replicate n 0

zeros-add : (m n : ℕ) → zeros (m + n) ≡ zeros m ++ zeros n
zeros-add zero n = ap zeros (omega arith)
zeros-add (suc m) n =
    let e : suc m + n ≡ suc (m + n) = omega arith in ap zeros e ∙ ap (◌∷◌ 0) (zeros-add m n)

up_to-append_met :
    (stop : ℕ) (xs ys : List ℕ)
    → occurs stop xs ≡ true
    → (up_to stop (xs ++ ys) ≡ up_to stop xs ++ replicate (length ys) 0)
      × (occurs stop (xs ++ ys) ≡ true)
unfolding up_to occurs
up_to-append_met stop [] ys h = absurd (ground arith)
up_to-append_met stop (b ∷ bs) ys h = elim (Bool-cases (b == stop)) [
  | inl met ↦ simp met (
    ap (λ k. b ∷ zeros k) (length-append bs ys) ∙ ap (◌∷◌ b) (zeros-add (length bs) (length ys)),
    refl,
  )
  | inr other ↦
      let later : occurs stop bs ≡ true = ground arith in
      let (same, found) = up_to-append_met stop bs ys later in simp other (ap (◌∷◌ b) same, found)
]

up_to-append_absent :
    (stop : ℕ) (xs ys : List ℕ)
    → occurs stop xs ≡ false
    → (up_to stop (xs ++ ys) ≡ xs ++ up_to stop ys) × (occurs stop (xs ++ ys) ≡ occurs stop ys)
unfolding up_to occurs
up_to-append_absent stop [] ys h = (refl, refl)
up_to-append_absent stop (b ∷ bs) ys h =
    let other : (b == stop) ≡ false = ground arith in
    let later : occurs stop bs ≡ false = ground arith in
    let (same, found) = up_to-append_absent stop bs ys later in simp other (ap (◌∷◌ b) same, found)

read_sector_stop-good :
    (d : Disk) (lba stop : ℕ)
    → lba < 2 ^ 28
    → d.read_fails lba ≡ false
    → read_sector_stop d lba stop ≡ some (up_to stop (d.sector lba), outcome stop (d.sector lba))
unfolding read_sector_stop
read_sector_stop-good d lba stop fits good =
    ap (λ r. r >>= λ bytes. some (stop_loop 0 0 stop false bytes))
      (read_sector-good d lba fits good)
    ∙ ap some (stop_loop-up_to 0 stop (d.sector lba))

length-contents :
    (d : Disk) (n lba : ℕ)
    → ((s : ℕ) → length (d.sector s) ≡ sector_size)
    → length (contents d lba n) ≡ n * sector_size
unfolding contents
length-contents d zero lba sized = omega arith
length-contents d (suc n) lba sized =
    length-append (d.sector lba) (contents d (lba + 1) n)
    ∙ omega (arith, sized lba, length-contents d n (lba + 1) sized)

stop_after-absent :
    (rest : ℕ → Option (List ℕ × ℕ)) (padding bytes more : List ℕ) (stop last : ℕ)
    → stop ≢ stop_symbol
    → rest stop ≡ some (more, last)
    → stop_after rest padding (bytes, stop) ≡ some (bytes ++ more, last)
stop_after-absent rest padding bytes more stop last other e =
    let differs : (stop == stop_symbol) ≡ false = ground arith in rw (differs, e) refl

-- For a run of sectors with 28-bit addresses, none of which reports an error, and a symbol other than
-- 16, `ATA_read_sectors_stop` gives the contents of the run up to the first byte that is the symbol,
-- and 0 behind it; `*stop` is then 16 just where the symbol is among them.
pub read_sectors_stop_lem :
    (d : Disk) (stop : ℕ)
    → stop ≢ stop_symbol
    → ((s : ℕ) → length (d.sector s) ≡ sector_size)
    → (n lba : ℕ) → lba + n ≤ 2 ^ 28
    → ((i : ℕ) → i < n → d.read_fails (lba + i) ≡ false)
    → read_sectors_stop d lba n stop
      ≡ some (up_to stop (contents d lba n), outcome stop (contents d lba n))
unfolding read_sectors_stop contents up_to occurs
read_sectors_stop_lem d stop other sized zero lba fits good = refl
read_sectors_stop_lem d stop other sized (suc n) lba fits good =
    let bytes = d.sector lba in
    let tail : ℕ → Option (List ℕ × ℕ) = λ s. read_sectors_stop d (u32 (lba + 1)) n s in
    let step : List ℕ × ℕ → Option (List ℕ × ℕ) =
      λ found. stop_after tail (zeros (n * sector_size)) found in
    let here : d.read_fails lba ≡ false = ap d.read_fails (omega arith) ∙ good 0 (omega arith) in
    let next : u32 (lba + 1) ≡ lba + 1 = omega arith in
    let rest =
      read_sectors_stop_lem d stop other sized n (lba + 1) (omega arith)
        (λ i lt. ap d.read_fails (omega arith) ∙ good (suc i) (omega arith)) in
    let first = read_sector_stop-good d lba stop (omega arith) here in
    elim (Bool-cases (occurs stop bytes)) [
      | inl met ↦
          let (cut, found) = up_to-append_met stop bytes (contents d (lba + 1) n) met in
          let last : outcome stop bytes ≡ stop_symbol = rw met refl in
          let padding = ap zeros (length-contents d n (lba + 1) sized) in
          ap (λ r. r >>= step) first
          ∙ ap (λ k. step (up_to stop bytes, k)) last
          ∙ ap₂ (λ xs b. some (xs, if b then stop_symbol else stop))
              (ap (λ zs. up_to stop bytes ++ zs) (sym padding) ∙ sym cut) (sym found)
      | inr absent ↦
          let (whole, found) = up_to-append_absent stop bytes (contents d (lba + 1) n) absent in
          let none_cut : up_to stop bytes ≡ bytes = up_to-absent stop bytes absent in
          let last : outcome stop bytes ≡ stop = rw absent refl in
          ap (λ r. r >>= step) first
          ∙ ap₂ (λ xs k. step (xs, k)) none_cut last
          ∙ stop_after-absent tail (zeros (n * sector_size)) bytes
              (up_to stop (contents d (lba + 1) n)) stop (outcome stop (contents d (lba + 1) n))
              other (ap (λ a. read_sectors_stop d a n stop) next ∙ rest)
          ∙ ap₂ (λ xs b. some (xs, if b then stop_symbol else stop)) (sym whole) (sym found)
    ]
