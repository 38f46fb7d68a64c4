-- ===== src/Fat/Geometry.antt =====
-- Where `FAT_initialize` puts the tables and the clusters on the disk.
use cordell_os.Base.{
  ℕ, suc, ◌+◌, ◌-◌, ◌*◌, ◌^◌, ◌<◌, ◌≤◌, ◌≡◌, ap, inl, inr, Option, none, some, arith, leb,
  Bool-cases, u16, sub32,
}
use mathlib.Core.Path.{subst}
use native.Mathlib.Nat.{suc-mul, mul-le-mul_right, div-mul-le_self, div-le_self}
use cordell_os.Fat.Volume.{FatData, cluster_lba}
use cordell_os.Fat.Boot.{
  BootSector, total_sectors_of, fat_size_of, root_dir_sectors_of, metadata_sectors_of,
  total_clusters_of, layout, fat_data_of,
}

-- The sectors before the data area, without wrap-around.
abbrev pub metadata_size : BootSector → ℕ
metadata_size b = b.reserved_sector_count + b.table_count * fat_size_of b + root_dir_sectors_of b

-- The fields of a boot sector for which no sum of `FAT_initialize` wraps around.
pub record IsSmall (start : ℕ) (b : BootSector) : Type 0 where
  pub byte : b.sectors_per_cluster < 2 ^ 8
  pub metadata : start + metadata_size b < 2 ^ 32
  pub total : start + total_sectors_of b < 2 ^ 32

-- The tables, then the root directory, then the clusters, all inside the volume.
pub record IsLaidOut (start : ℕ) (b : BootSector) (f : FatData) : Type 0 where
  pub first_fat : f.first_fat_sector ≡ start + b.reserved_sector_count
  pub tables : f.first_fat_sector + b.table_count * f.fat_size ≤ f.first_data_sector
  pub clusters :
      (c : ℕ)
      → 2 ≤ c
      → c < f.total_clusters
      → (f.first_data_sector ≤ cluster_lba f c)
        × (cluster_lba f c + f.sectors_per_cluster ≤ start + f.total_sectors)
  pub apart :
      (c k : ℕ)
      → 2 ≤ c
      → c < k
      → k < f.total_clusters
      → cluster_lba f c + f.sectors_per_cluster ≤ cluster_lba f k

clusters_fit : (q spc c room : ℕ) → q * spc ≤ room → 2 ≤ c → c < q → (c - 2) * spc + spc ≤ room
clusters_fit q spc c room fits lo hi =
    let step = suc-mul (c - 2) spc in
    let le : suc (c - 2) * spc ≤ q * spc = mul-le-mul_right spc (omega arith) in omega arith

module _ {start : ℕ} {b : BootSector} (small : IsSmall start b)
    (room : metadata_size b < total_sectors_of b) where
  -- The clusters of the table fill no more than the sectors after the metadata.
  data_room :
      (total_clusters_of b * b.sectors_per_cluster + metadata_size b ≤ total_sectors_of b)
      × (metadata_sectors_of b ≡ metadata_size b)
  data_room =
      let left = sub32 (total_sectors_of b) (metadata_sectors_of b) in
      let le = div-mul-le_self left b.sectors_per_cluster in
      let same : metadata_sectors_of b ≡ metadata_size b = omega (arith, small.metadata) in
      let all : left ≡ total_sectors_of b - metadata_size b = omega (arith, small.total) in
      (omega arith, same)

  cluster_lba-layout :
      (c : ℕ)
      → 2 ≤ c
      → c < total_clusters_of b
      → cluster_lba (layout start b) c ≡ start + metadata_size b + (c - 2) * b.sectors_per_cluster
  unfolding cluster_lba
  cluster_lba-layout c lo hi =
      let (fits, same) = data_room in
      let le =
        clusters_fit (total_clusters_of b) b.sectors_per_cluster c
          (total_clusters_of b * b.sectors_per_cluster) (omega arith) lo hi in
      let few =
        div-le_self (sub32 (total_sectors_of b) (metadata_sectors_of b)) b.sectors_per_cluster in
      let index : sub32 c 2 ≡ c - 2 = omega arith in
      let width : u16 b.sectors_per_cluster ≡ b.sectors_per_cluster = omega (arith, small.byte) in
      rw (index, width) (omega (arith, small.metadata, small.total))

  layout-IsLaidOut : IsLaidOut start b (layout start b)
  layout-IsLaidOut =
      let (fits, same) = data_room in
      record {
        first_fat = omega (arith, small.metadata);
        tables = omega (arith, small.metadata);
        clusters = λ c lo hi.
            let at = cluster_lba-layout c lo hi in
            let le =
              clusters_fit (total_clusters_of b) b.sectors_per_cluster c
                (total_clusters_of b * b.sectors_per_cluster) (omega arith) lo hi in
            (omega (arith, small.metadata), omega arith);
        apart = λ c k lo lt hi.
            let at = cluster_lba-layout c lo (omega arith) in
            let at' = cluster_lba-layout k (omega arith) hi in
            let step = suc-mul (c - 2) b.sectors_per_cluster in
            let le : suc (c - 2) * b.sectors_per_cluster ≤ (k - 2) * b.sectors_per_cluster =
              mul-le-mul_right b.sectors_per_cluster (omega arith) in
            omega arith;
      }

the_data : FatData → Option FatData → FatData
the_data f none = f
the_data f (some g) = g

-- For a boot sector whose fields make no sum wrap around, the layout that `FAT_initialize` computes
-- has the tables before the data area, every cluster of the table inside the volume, and no two
-- clusters overlapping.
pub fat_data_of-IsLaidOut :
    (start : ℕ) (b : BootSector) (f : FatData)
    → IsSmall start b
    → fat_data_of start b ≡ some f
    → IsLaidOut start b f
unfolding fat_data_of the_data
fat_data_of-IsLaidOut start b f small given =
    elim (Bool-cases (leb (total_sectors_of b) (metadata_sectors_of b))) [
      | inl none_left ↦ absurd (ground arith)
      | inr room ↦
          let got : some (layout start b) ≡ some f = simp room at given in
          let same : layout start b ≡ f = ap (the_data f) got in
          subst (IsLaidOut start b) same (layout-IsLaidOut small (ground (arith, small.metadata)))
    ]
