-- ===== src/Fat/ChainBytes.antt =====
-- The bytes of a chain of clusters put together, and slices of them.
use cordell_os.Base.{
  ℕ, zero, suc, ◌+◌, ◌-◌, ◌*◌, ◌<◌, ◌≤◌, ◌≡◌, refl, sym, ap, ap₂, ◌∙◌, List, [], ◌∷◌, ◌++◌, arith,
  length, length-append, length-drop, take, take-all, drop, get_or, min,
}
use cordell_os.Ata.{Disk, sector_size}
use cordell_os.Ata.Sectors.{contents}
use native.Mathlib.Nat.{suc-mul}
use cordell_os.Fat.Volume.{Volume, cluster_lba}
use cordell_os.Fat.Read.{take-min, take-append, drop-append, drop-append_past}

-- The clusters of a chain put together.
unfoldable pub chain_bytes : Volume → List ℕ → List ℕ
chain_bytes v [] = []
chain_bytes v (c ∷ cs) =
    contents v.disk (cluster_lba v.fat c) v.fat.sectors_per_cluster ++ chain_bytes v cs

pub chain_bytes-cons :
    (v : Volume) (c : ℕ) (cs : List ℕ)
    → chain_bytes v (c ∷ cs)
      ≡ contents v.disk (cluster_lba v.fat c) v.fat.sectors_per_cluster ++ chain_bytes v cs
unfolding chain_bytes
chain_bytes-cons v c cs = refl

pub length-contents :
    (d : Disk) (lba n : ℕ)
    → ((s : ℕ) → length (d.sector s) ≡ sector_size)
    → length (contents d lba n) ≡ n * sector_size
unfolding contents
length-contents d lba zero sized = refl
length-contents d lba (suc n) sized =
    length-append (d.sector lba) (contents d (lba + 1) n)
    ∙ omega (arith, sized lba, length-contents d (lba + 1) n sized)

-- A slice that begins in the first of two parts.
pub slice-append :
    (xs ys : List ℕ) (m seek size : ℕ)
    → length xs ≡ m
    → seek < m
    → take (min (m - seek) size) (drop seek xs) ++ take (size - min (m - seek) size) ys
      ≡ take size (drop seek (xs ++ ys))
slice-append xs ys m seek size e lt =
    let len : length (drop seek xs) ≡ m - seek = length-drop seek xs ∙ omega (arith, e) in
    let swap : min (m - seek) size ≡ min size (m - seek) = omega arith in
    let left : size - min (m - seek) size ≡ size - length (drop seek xs) = omega (arith, len) in
    ap₂ (λ a b. a ++ b)
      (ap (λ k. take k (drop seek xs)) swap ∙ take-min size (m - seek) (drop seek xs) len)
      (ap (λ k. take k ys) left)
    ∙ sym (take-append size (drop seek xs) ys)
    ∙ ap (take size) (sym (drop-append seek xs ys (omega (arith, e))))

-- The clusters from `j` on are one and those behind it.
pub drop-one : (cs : List ℕ) (j : ℕ) → j < length cs → drop j cs ≡ get_or cs j 0 ∷ drop (suc j) cs
drop-one [] j lt = absurd (omega arith)
drop-one (c ∷ cs) zero lt = refl
drop-one (c ∷ cs) (suc j) lt = drop-one cs j (omega arith)

pub drop-all : (j : ℕ) (cs : List ℕ) → length cs ≤ j → drop j cs ≡ []
drop-all zero [] le = refl
drop-all zero (c ∷ cs) le = absurd (omega arith)
drop-all (suc j) [] le = refl
drop-all (suc j) (c ∷ cs) le = drop-all j cs (omega arith)

pub slice-nil : (size seek : ℕ) → take size (drop seek []) ≡ ◌++◌ {A = ℕ} [] []
slice-nil size zero = take-all size [] (omega arith)
slice-nil size (suc seek) = take-all size [] (omega arith)

-- Dropping whole clusters.
pub drop-chain_bytes :
    (v : Volume) (j : ℕ) (cs : List ℕ)
    → ((s : ℕ) → length (v.disk.sector s) ≡ sector_size)
    → j ≤ length cs
    → drop (j * (v.fat.sectors_per_cluster * sector_size)) (chain_bytes v cs)
      ≡ chain_bytes v (drop j cs)
drop-chain_bytes v zero cs sized le =
    let nothing : 0 * (v.fat.sectors_per_cluster * sector_size) ≡ 0 = omega arith in
    ap (λ k. drop k (chain_bytes v cs)) nothing
drop-chain_bytes v (suc j) [] sized le = absurd (omega arith)
drop-chain_bytes v (suc j) (c ∷ cs) sized le =
    let m = v.fat.sectors_per_cluster * sector_size in
    let xs = contents v.disk (cluster_lba v.fat c) v.fat.sectors_per_cluster in
    let len = length-contents v.disk (cluster_lba v.fat c) v.fat.sectors_per_cluster sized in
    let past : m + j * m - length xs ≡ j * m = omega (arith, len) in
    let sum : suc j * m ≡ m + j * m = suc-mul j m ∙ omega arith in
    ap₂ drop sum (chain_bytes-cons v c cs)
    ∙ drop-append_past (m + j * m) xs (chain_bytes v cs) (omega (arith, len))
    ∙ ap (λ k. drop k (chain_bytes v cs)) past
    ∙ drop-chain_bytes v j cs sized (omega arith)
