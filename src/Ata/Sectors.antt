-- ===== src/Ata/Sectors.antt =====
-- The runs of sectors of src/kernel/arch/drivers/ata.c against the sectors of the disk.
use cordell_os.Base.{
  ℕ, zero, suc, ◌+◌, ◌-◌, ◌*◌, ◌^◌, ◌<◌, ◌≤◌, ◌≡◌, refl, sym, ap, ap₂, ◌∙◌, ◌⊎◌, inl, inr, false,
  ◌||◌, none, some, List, [], ◌∷◌, ◌++◌, arith, ◌==◌, if◌then◌else◌, Bool-cases, take, drop, u32,
}
use native.Mathlib.Numerals.{unary_clauses}
use cordell_os.Ata.{
  Disk, sector_size, lba28, read_sector, write_sector, read_sectors, write_sectors,
}

-- The contents of `n` sectors from `lba` on, one after the other.
unfoldable pub contents : Disk → ℕ → ℕ → List ℕ
contents d lba zero = []
contents d lba (suc n) = d.sector lba ++ contents d (lba + 1) n

suc-add : (m n : ℕ) → suc (m + n) ≡ suc m + n
suc-add m n = omega arith

take-append_drop : (m n : ℕ) (xs : List ℕ) → take m xs ++ take n (drop m xs) ≡ take (m + n) xs
take-append_drop zero n xs = ap (λ k. take k xs) (omega arith)
take-append_drop (suc m) zero [] = simp unary_clauses refl
take-append_drop (suc m) (suc n) [] = simp unary_clauses refl
take-append_drop (suc m) n (x ∷ xs) =
    ap (λ t. x ∷ t) (take-append_drop m n xs) ∙ ap (λ k. take k (x ∷ xs)) (suc-add m n)

pub drop-drop : (m n : ℕ) (xs : List ℕ) → drop n (drop m xs) ≡ drop (m + n) xs
drop-drop zero n xs = ap (λ k. drop k xs) (omega arith)
drop-drop (suc m) zero [] = simp unary_clauses refl
drop-drop (suc m) (suc n) [] = simp unary_clauses refl
drop-drop (suc m) n (x ∷ xs) = drop-drop m n xs ∙ ap (λ k. drop k (x ∷ xs)) (suc-add m n)

-- Sectors that hold the pieces of a buffer hold, together, its beginning.
contents-pieces :
    (d : Disk) (buffer : List ℕ) (n lba : ℕ)
    → ((i : ℕ) → i < n → d.sector (lba + i) ≡ take sector_size (drop (i * sector_size) buffer))
    → contents d lba n ≡ take (n * sector_size) buffer
unfolding contents
contents-pieces d buffer zero lba h = refl
contents-pieces d buffer (suc n) lba h =
    ap₂ (λ s t. s ++ t) (ap d.sector (omega arith) ∙ h 0 (omega arith))
      (contents-pieces d (drop sector_size buffer) n (lba + 1) (λ i lt.
        ap d.sector (omega arith)
        ∙ h (suc i) (omega arith)
        ∙ ap (take sector_size) (
            sym (
              drop-drop sector_size (i * sector_size) buffer
              ∙ ap (λ k. drop k buffer) (omega arith)))))
    ∙ take-append_drop sector_size (n * sector_size) buffer
    ∙ ap (λ k. take k buffer) (omega arith)

pub read_sector-good :
    (d : Disk) (lba : ℕ)
    → lba < 2 ^ 28
    → d.read_fails lba ≡ false
    → read_sector d lba ≡ some (d.sector lba)
unfolding read_sector
read_sector-good d lba h good =
    let here : lba28 lba ≡ lba = omega arith in
    ap (λ a. if d.read_fails a then none else some (d.sector a)) here ∙ rw good refl

-- The disk after one sector was written.
abbrev pub with_sector : Disk → ℕ → List ℕ → Disk
with_sector d lba buffer = record d {
  sector = λ s. if s == lba then take sector_size buffer else d.sector s;
}

pub write_sector-good :
    (d : Disk) (lba : ℕ) (buffer : List ℕ)
    → 0 < lba
    → lba < 2 ^ 28
    → d.write_fails lba ≡ false
    → write_sector d lba buffer ≡ some (with_sector d lba buffer)
unfolding write_sector
write_sector-good d lba buffer lo h good =
    let here : lba28 lba ≡ lba = omega arith in
    let above : (lba == 0) ≡ false = ground arith in
    ap (λ a. if lba == 0 || d.write_fails a then none else some (with_sector d a buffer)) here
    ∙ rw (above, good) refl

-- Where no sector of the run reports an error, the run is read as the sectors' contents.
read_sectors-contents :
    (d : Disk) (n lba : ℕ)
    → lba + n ≤ 2 ^ 28
    → ((i : ℕ) → i < n → d.read_fails (lba + i) ≡ false)
    → read_sectors d lba n ≡ some (contents d lba n)
unfolding read_sectors contents
read_sectors-contents d zero lba h ok = refl
read_sectors-contents d (suc n) lba h ok =
    let good : d.read_fails lba ≡ false = ap d.read_fails (omega arith) ∙ ok 0 (omega arith) in
    let next : u32 (lba + 1) ≡ lba + 1 = omega arith in
    rw
      (
        read_sector-good d lba (omega arith) good,
        next,
        read_sectors-contents d n (lba + 1) (omega arith)
            (λ i lt. ap d.read_fails (omega arith) ∙ ok (suc i) (omega arith)),
      )
      refl

-- The disk after the run from `lba` on was written from the buffer.
pub record Stored (d : Disk) (lba n : ℕ) (buffer : List ℕ) (w : Disk) : Type 0 where
  pub pieces :
      (i : ℕ) → i < n → w.sector (lba + i) ≡ take sector_size (drop (i * sector_size) buffer)
  pub others : (s : ℕ) → (s < lba) ⊎ (lba + n ≤ s) → w.sector s ≡ d.sector s
  pub same_reads : (s : ℕ) → w.read_fails s ≡ d.read_fails s
  pub same_writes : (s : ℕ) → w.write_fails s ≡ d.write_fails s

write_sectors-step :
    (n : ℕ) (d : Disk) (lba : ℕ) (buffer : List ℕ)
    → 0 < lba
    → lba + 1 < 2 ^ 32
    → write_sector d lba buffer ≡ some (with_sector d lba buffer)
    → write_sectors d lba buffer (suc n)
      ≡ write_sectors (with_sector d lba buffer) (lba + 1) (drop sector_size buffer) n
unfolding write_sectors
write_sectors-step n d lba buffer lo hi good =
    let next : u32 (lba + 1) ≡ lba + 1 = omega arith in rw (good, next) refl

write_sectors-Stored :
    (n : ℕ) (d : Disk) (lba : ℕ) (buffer : List ℕ)
    → 0 < lba
    → lba + n ≤ 2 ^ 28
    → ((i : ℕ) → i < n → d.write_fails (lba + i) ≡ false)
    → (w : Disk) × (write_sectors d lba buffer n ≡ some w) × Stored d lba n buffer w
unfolding write_sectors
write_sectors-Stored zero d lba buffer lo hi ok = (
  d,
  refl,
  record {
    pieces = λ i lt. absurd (omega arith);
    others = λ s away. refl;
    same_reads = λ s. refl;
    same_writes = λ s. refl;
  },
)
write_sectors-Stored (suc n) d lba buffer lo hi ok =
    let good : d.write_fails lba ≡ false = ap d.write_fails (omega arith) ∙ ok 0 (omega arith) in
    let d' : Disk = with_sector d lba buffer in
    let (w, run, stored) =
      write_sectors-Stored n d' (lba + 1) (drop sector_size buffer) (omega arith) (omega arith)
        (λ i lt. ap d.write_fails (omega arith) ∙ ok (suc i) (omega arith)) in
    let first : w.sector lba ≡ take sector_size buffer =
      stored.others lba (inl (omega arith)) ∙ ground arith in
    let step =
      write_sectors-step n d lba buffer lo (omega arith)
        (write_sector-good d lba buffer lo (omega arith) good) in
    (
      w,
      step ∙ run,
      record {
        pieces = λ i lt. elim (Bool-cases (i == 0)) [
          | inl e ↦
              let zeroth : i ≡ 0 = ground arith in rw zeroth (ap w.sector (omega arith) ∙ first)
          | inr e ↦
              ap w.sector (ground arith)
              ∙ stored.pieces (i - 1) (ground arith)
              ∙ ap (take sector_size) (
                  drop-drop sector_size ((i - 1) * sector_size) buffer
                  ∙ ap (λ k. drop k buffer) (ground arith))
        ];
        others = λ s away.
            stored.others s (elim away [ inl p ↦ inl (omega arith) | inr p ↦ inr (omega arith) ])
            ∙ (let ne : (s == lba) ≡ false = ground arith in rw ne refl);
        same_reads = λ s. stored.same_reads s;
        same_writes = λ s. stored.same_writes s;
      },
    )

-- For a run of sectors past the boot sector with 28-bit addresses, none of which reports an error,
-- writing succeeds; reading the run back gives the buffer's first 512 bytes for each sector, and
-- every sector outside the run is as before.
pub read_sectors-write_sectors :
    (d : Disk) (lba n : ℕ) (buffer : List ℕ)
    → 0 < lba
    → lba + n ≤ 2 ^ 28
    → ((i : ℕ) → i < n → d.write_fails (lba + i) ≡ false)
    → ((i : ℕ) → i < n → d.read_fails (lba + i) ≡ false)
    → (w : Disk) × (write_sectors d lba buffer n ≡ some w)
      × (read_sectors w lba n ≡ some (take (n * sector_size) buffer))
      × ((s : ℕ) → (s < lba) ⊎ (lba + n ≤ s) → w.sector s ≡ d.sector s)
read_sectors-write_sectors d lba n buffer lo hi writes reads =
    let (w, run, stored) = write_sectors-Stored n d lba buffer lo hi writes in
    (
      w,
      run,
      read_sectors-contents w n lba hi (λ i lt. stored.same_reads (lba + i) ∙ reads i lt)
          ∙ ap some (contents-pieces w buffer n lba stored.pieces),
      stored.others,
    )
