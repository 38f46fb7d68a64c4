-- ===== src/Fat/Read.antt =====
-- `_cluster_read_range` of src/kernel/filesystems/fat.c against the bytes of the cluster.
use cordell_os.Base.{
  ℕ, zero, suc, ◌+◌, ◌-◌, ◌*◌, ◌/◌, ◌%◌, ◌^◌, ◌<◌, ◌≤◌, ◌≡◌, refl, sym, ap, ap₂, ◌∙◌, inl, inr,
  false, not, ◌&&◌, ◌||◌, Option, none, some, List, [], ◌∷◌, ◌++◌, arith, ltb, leb, ◌==◌,
  if◌then◌else◌, Bool-cases, length, take, drop, take-all, length-drop, min, u32, Outcome, done,
  halted,
}
use cordell_os.Ata.{Disk, ◌>>=◌, sector_size, read_sector}
use cordell_os.Ata.Sectors.{contents, drop-drop, read_sector-good}
use cordell_os.Fat.Volume.{Volume, cluster_lba}

-- The loop: the sectors of the cluster left, the seek in the first of them and the bytes left to
-- copy. What it copies to the buffer is the result.
unfoldable pub read_loop : Disk → ℕ → ℕ → ℕ → ℕ → Option (List ℕ)
read_loop d lba zero sector_offset size = some []
read_loop d lba (suc left) sector_offset size =
    let copy_size = min size (sector_size - sector_offset) in
    let round = read_sector d lba >>= λ bytes.
    read_loop d (u32 (lba + 1)) left 0 (size - copy_size) >>= λ rest.
    some (take copy_size (drop sector_offset bytes) ++ rest) in
    if size == 0 then some [] else round

-- The buffer is there, so that of the tests for NULL none is left.
unfoldable pub cluster_read_range : Volume → ℕ → ℕ → ℕ → Outcome (Option (List ℕ))
cluster_read_range v cluster offset size =
    if not (leb 2 cluster && ltb cluster v.fat.total_clusters)
    then halted
    else if size == 0 || leb v.fat.cluster_size offset
    then done none
    else done (
        read_loop v.disk (u32 (cluster_lba v.fat cluster + offset / sector_size))
          (v.fat.sectors_per_cluster - offset / sector_size) (offset % sector_size) size)

pub drop-append : (n : ℕ) (xs ys : List ℕ) → n ≤ length xs → drop n (xs ++ ys) ≡ drop n xs ++ ys
drop-append zero xs ys le = refl
drop-append (suc n) [] ys le = absurd (omega arith)
drop-append (suc n) (x ∷ xs) ys le = drop-append n xs ys (omega arith)

pub drop-append_past :
    (n : ℕ) (xs ys : List ℕ) → length xs ≤ n → drop n (xs ++ ys) ≡ drop (n - length xs) ys
drop-append_past n [] ys le = ap (λ k. drop k ys) (omega arith)
drop-append_past zero (x ∷ xs) ys le = absurd (omega arith)
drop-append_past (suc n) (x ∷ xs) ys le =
    drop-append_past n xs ys (omega arith) ∙ ap (λ k. drop k ys) (omega arith)

pub take-append :
    (n : ℕ) (xs ys : List ℕ) → take n (xs ++ ys) ≡ take n xs ++ take (n - length xs) ys
take-append zero [] ys = refl
take-append (suc n) [] ys = let e : suc n ≡ suc n - 0 = omega arith in ap (λ k. take k ys) e
take-append zero (x ∷ xs) ys =
    let e : 0 ≡ 0 - suc (length xs) = omega arith in ap (λ k. take k ys) e
take-append (suc n) (x ∷ xs) ys =
    let e : n - length xs ≡ suc n - suc (length xs) = omega arith in
    ap (λ t. x ∷ t) (take-append n xs ys ∙ ap (λ k. take n xs ++ take k ys) e)

-- A count past the end of a list does not matter.
pub take-min : (n m : ℕ) (xs : List ℕ) → length xs ≡ m → take (min n m) xs ≡ take n xs
take-min n m xs e = elim (Bool-cases (leb n m)) [
  | inl le ↦ ap (λ k. take k xs) (ground arith)
  | inr gt ↦ take-all (min n m) xs (ground arith) ∙ sym (take-all n xs (ground arith))
]

-- The sectors of a run can be read and have 512 bytes.
pub record IsReadable (d : Disk) (lba n : ℕ) : Type 0 where
  pub addressed : lba + n ≤ 2 ^ 28
  pub sized : (s : ℕ) → length (d.sector s) ≡ sector_size
  pub readable : (i : ℕ) → i < n → d.read_fails (lba + i) ≡ false

-- Dropping whole sectors of a run leaves a shorter run.
drop-contents :
    (d : Disk) (i lba n : ℕ)
    → ((s : ℕ) → length (d.sector s) ≡ sector_size)
    → i ≤ n
    → drop (i * sector_size) (contents d lba n) ≡ contents d (lba + i) (n - i)
unfolding contents
drop-contents d zero lba n sized le = ap₂ (λ a k. contents d a k) (omega arith) (omega arith)
drop-contents d (suc i) lba zero sized le = absurd (omega arith)
drop-contents d (suc i) lba (suc n) sized le =
    let shorter : suc i * sector_size - length (d.sector lba) ≡ i * sector_size =
      omega (arith, sized lba) in
    drop-append_past (suc i * sector_size) (d.sector lba) (contents d (lba + 1) n)
      (omega (arith, sized lba))
    ∙ ap (λ k. drop k (contents d (lba + 1) n)) shorter
    ∙ drop-contents d i (lba + 1) n sized (omega arith)
    ∙ ap₂ (λ a k. contents d a k) (omega arith) (omega arith)

IsReadable-next : (d : Disk) (lba n : ℕ) → IsReadable d lba (suc n) → IsReadable d (lba + 1) n
IsReadable-next d lba n ok = record {
  addressed = omega (arith, ok.addressed);
  sized = ok.sized;
  readable = λ i lt. ap d.read_fails (omega arith) ∙ ok.readable (suc i) (omega arith);
}

read_loop-slice :
    (d : Disk) (left lba offset size : ℕ)
    → IsReadable d lba left
    → offset < sector_size
    → read_loop d lba left offset size ≡ some (take size (drop offset (contents d lba left)))
unfolding read_loop contents
read_loop-slice d zero lba zero size ok lt = ap some (sym (take-all size [] (omega arith)))
read_loop-slice d zero lba (suc offset) size ok lt = ap some (sym (take-all size [] (omega arith)))
read_loop-slice d (suc left) lba offset size ok lt = elim (Bool-cases (size == 0)) [
  | inl nothing ↦ let e : size ≡ 0 = ground arith in rw e refl
  | inr something ↦
      let s = d.sector lba in
      let copy = min size (sector_size - offset) in
      let good : d.read_fails lba ≡ false =
        ap d.read_fails (omega arith) ∙ ok.readable 0 (omega arith) in
      let here = read_sector-good d lba (omega (arith, ok.addressed)) good in
      let next : u32 (lba + 1) ≡ lba + 1 = omega (arith, ok.addressed) in
      let rest =
        read_loop-slice d left (lba + 1) 0 (size - copy) (IsReadable-next d lba left ok)
          (omega arith) in
      let len : length (drop offset s) ≡ sector_size - offset =
        length-drop offset s ∙ ap (λ k. k - offset) (ok.sized lba) in
      let split : take copy (drop offset s) ++ take (size - copy) (contents d (lba + 1) left)
          ≡ take size (drop offset (s ++ contents d (lba + 1) left)) =
        ap₂ (λ a b. a ++ b) (take-min size (sector_size - offset) (drop offset s) len)
          (ap (λ k. take k (contents d (lba + 1) left)) (omega arith))
        ∙ sym (take-append size (drop offset s) (contents d (lba + 1) left))
        ∙ ap (take size) (
            sym (drop-append offset s (contents d (lba + 1) left) (omega (arith, ok.sized lba)))) in
      rw (something, here, next, rest) (ap some split)
]

-- For a cluster of the table whose sectors can be read, with 28-bit addresses, and an offset inside
-- the cluster, `_cluster_read_range` of at least one byte succeeds: it copies the bytes of the
-- cluster from the offset on, as many as were asked for or as the cluster has left.
pub cluster_read_range_lem :
    (v : Volume) (cluster offset size : ℕ)
    → 2 ≤ cluster
    → cluster < v.fat.total_clusters
    → 0 < size
    → v.fat.cluster_size ≡ v.fat.sectors_per_cluster * sector_size
    → offset < v.fat.cluster_size
    → IsReadable v.disk (cluster_lba v.fat cluster) v.fat.sectors_per_cluster
    → cluster_read_range v cluster offset size
      ≡ done (
          some (
            take size (
              drop offset (contents v.disk (cluster_lba v.fat cluster) v.fat.sectors_per_cluster))))
unfolding cluster_read_range
cluster_read_range_lem v cluster offset size lo hi some_size whole within ok =
    let lba = cluster_lba v.fat cluster in
    let spc = v.fat.sectors_per_cluster in
    let i = offset / sector_size in
    let r = offset % sector_size in
    let inside : not (leb 2 cluster && ltb cluster v.fat.total_clusters) ≡ false = ground arith in
    let fine : (size == 0 || leb v.fat.cluster_size offset) ≡ false = ground arith in
    let from : u32 (lba + i) ≡ lba + i = omega (arith, ok.addressed) in
    let rest_ok : IsReadable v.disk (lba + i) (spc - i) = record {
      addressed = omega (arith, ok.addressed);
      sized = ok.sized;
      readable = λ j lt. ap v.disk.read_fails (omega arith) ∙ ok.readable (i + j) (omega arith);
    } in
    let parts : i * sector_size + r ≡ offset = omega arith in
    let slice : drop r (contents v.disk (lba + i) (spc - i))
        ≡ drop offset (contents v.disk lba spc) =
      ap (drop r) (sym (drop-contents v.disk i lba spc ok.sized (omega arith)))
      ∙ drop-drop (i * sector_size) r (contents v.disk lba spc)
      ∙ ap (λ k. drop k (contents v.disk lba spc)) parts in
    rw (inside, fine, from)
      (ap done (
        read_loop-slice v.disk (spc - i) (lba + i) r size rest_ok (omega arith)
        ∙ ap (λ t. some (take size t)) slice))
