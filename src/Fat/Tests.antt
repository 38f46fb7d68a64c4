-- ===== src/Fat/Tests.antt =====
-- src/kernel/filesystems/fat.c on a volume of 16 clusters whose table is in sector 1. A file has the
-- clusters 3, 5 and 4, the root directory cluster 2, and the clusters from 6 on are free.
use cordell_os.Base.{
  ℕ, zero, suc, get_or, ◌≤◌, ◌<◌, ◌≡◌, refl, inl, inr, true, false, some, List, [], ◌∷◌, ◌++◌,
  arith, ◌==◌, if◌then◌else◌, Bool-cases, replicate, take, drop,
}
use cordell_os.Ata.{read_sector, write_sector}
use cordell_os.Fat.Volume.{
  Volume, done, in_table, fat_offset, fat_sector, read_fat, write_fat, is_cluster_end,
  set_cluster_end, set_cluster_free, claim_cluster, allocate_from, cluster_allocate,
  cluster_deallocate, cluster_lba,
}
use cordell_os.Fat.Table.{IsMounted, entry, read_fat-write_fat}
use cordell_os.Fat.Allocate.{Updated, Allocation, cluster_allocate_lem, cluster_deallocate_lem}
use cordell_os.Fat.Content.{
  File, count_clusters, fill_table, opened, open_file, delete_clusters, step_clusters, walk_from,
  look_up, content_cluster_at,
}
use cordell_os.Fat.Chain.{
  IsChain, file_of, open_file-chain, IsFileOf, cached_at, content_cluster_at-chain,
}
use cordell_os.Ata.Sectors.{contents}
use cordell_os.Fat.Read.{cluster_read_range, IsReadable, cluster_read_range_lem}
use cordell_os.Fat.ChainBytes.{chain_bytes}
use cordell_os.Fat.ReadFile.{read_content2buffer, IsStored, read_content2buffer_lem}
use cordell_os.Fat.Delete.{has, Deleted, delete_clusters-chain}

abbrev table : List ℕ
table =
    (0xf8 ∷ 0xff ∷ 0xff ∷ 0x0f ∷ 0xff ∷ 0xff ∷ 0xff ∷ 0x0f ∷ [])
    ++ (0xf8 ∷ 0xff ∷ 0xff ∷ 0x0f ∷ 5 ∷ 0 ∷ 0 ∷ 0 ∷ [])
    ++ (0xf8 ∷ 0xff ∷ 0xff ∷ 0x0f ∷ 4 ∷ 0 ∷ 0 ∷ 0 ∷ [])
    ++ replicate 488 0

abbrev volume : Volume
volume = record {
  disk = record {
    sector = λ s. if s == 1 then table else replicate 512 0;
    read_fails = λ s. false;
    write_fails = λ s. false;
  };
  fat = record {
    fat_size = 1;
    fat_type = 32;
    first_data_sector = 2;
    total_sectors = 18;
    total_clusters = 16;
    bytes_per_sector = 512;
    cluster_size = 512;
    sectors_per_cluster = 1;
    ext_root_cluster = 2;
    first_fat_sector = 1;
  };
  last_allocated = 2;
}

-- All that a run below computes with.
run : Unit {0}
unfolding entry read_fat write_fat in_table fat_offset fat_sector read_sector write_sector
    is_cluster_end set_cluster_end set_cluster_free claim_cluster allocate_from cluster_allocate
    cluster_deallocate count_clusters fill_table open_file delete_clusters step_clusters walk_from
    cluster_lba look_up content_cluster_at has
run = tt

volume-IsMounted : IsMounted volume
volume-IsMounted = record {
  fat32 = refl;
  few = omega arith;
  placed = omega arith;
  no_wrap = omega arith;
  sized = λ s. elim (Bool-cases (s == 1)) [ inl e ↦ rw e refl | inr e ↦ rw e refl ];
  readable = λ c h. refl;
  writable = λ c h. refl;
}

chain : IsChain volume 3 (3 ∷ 5 ∷ 4 ∷ [])
unfolding run
chain = (
  refl,
  omega arith,
  omega arith,
  (refl, omega arith, omega arith, (refl, omega arith, omega arith, (omega arith, omega arith))),
)

-- The file that opening it gives.
abbrev file : File
file = file_of true 3 (3 ∷ 5 ∷ 4 ∷ [])

open_runs : open_file volume true 4 3 ≡ done (opened file)
unfolding run
open_runs = refl

file-IsFileOf : IsFileOf volume (3 ∷ 5 ∷ 4 ∷ []) file
file-IsFileOf = record {
  chain = chain;
  size = refl;
  small = omega arith;
  table = inr (refl, refl);
  cache = inr (omega arith, refl);
}

read_fat-write_fat_example :
    (w : Volume) × (write_fat volume 4 9 ≡ done (true, w))
    × (read_fat w 4 ≡ (if 4 == 4 then done 9 else read_fat volume 4))
read_fat-write_fat_example =
    read_fat-write_fat volume-IsMounted 4 4 9 (omega arith) (omega arith) (omega arith)
      (omega arith) (omega arith)

cluster_allocate_example : Allocation volume (cluster_allocate volume)
cluster_allocate_example = cluster_allocate_lem volume-IsMounted (omega arith)

cluster_deallocate_example :
    (w : Volume) × (cluster_deallocate volume 5 ≡ done (true, w)) × Updated volume 5 0 w
cluster_deallocate_example = cluster_deallocate_lem volume-IsMounted 5 (omega arith) (omega arith)

open_file-chain_example : open_file volume true 4 3 ≡ done (opened file)
open_file-chain_example =
    open_file-chain volume-IsMounted true 4 3 (3 ∷ 5 ∷ 4 ∷ []) chain (omega arith)

content_cluster_at-chain_example :
    (content_cluster_at volume file 2 ≡ done (some (4, cached_at file 2 4)))
    × IsFileOf volume (3 ∷ 5 ∷ 4 ∷ []) (cached_at file 2 4)
content_cluster_at-chain_example =
    content_cluster_at-chain volume-IsMounted file-IsFileOf 2 (omega arith)

IsReadable-below : (c : ℕ) → 2 ≤ c → c < 16 → IsReadable volume.disk (cluster_lba volume.fat c) 1
unfolding run
IsReadable-below c lo hi = record {
  addressed = omega arith;
  sized = volume-IsMounted.sized;
  readable = λ i lt. refl;
}

volume-IsReadable : IsReadable volume.disk (cluster_lba volume.fat 5) 1
volume-IsReadable = IsReadable-below 5 (omega arith) (omega arith)

chain-IsReadable :
    (j : ℕ)
    → j < 3
    → IsReadable volume.disk (cluster_lba volume.fat (get_or (3 ∷ 5 ∷ 4 ∷ []) j 0)) 1
chain-IsReadable zero lt = IsReadable-below 3 (omega arith) (omega arith)
chain-IsReadable (suc zero) lt = volume-IsReadable
chain-IsReadable (suc (suc zero)) lt = IsReadable-below 4 (omega arith) (omega arith)
chain-IsReadable (suc (suc (suc j))) lt = absurd (omega arith)

volume-IsStored : IsStored volume (3 ∷ 5 ∷ 4 ∷ [])
volume-IsStored = record {
  whole = refl;
  some_sectors = omega arith;
  few_sectors = omega arith;
  readable = chain-IsReadable;
}

read_content2buffer_example :
    (g : File) × (read_content2buffer volume file 600 700
      ≡ done (some (take 700 (drop 600 (chain_bytes volume (3 ∷ 5 ∷ 4 ∷ []))), g)))
    × IsFileOf volume (3 ∷ 5 ∷ 4 ∷ []) g
read_content2buffer_example =
    read_content2buffer_lem volume-IsMounted volume-IsStored file 600 700 file-IsFileOf
      (omega arith)

cluster_read_range_example :
    cluster_read_range volume 5 100 40
    ≡ done (some (take 40 (drop 100 (contents volume.disk (cluster_lba volume.fat 5) 1))))
cluster_read_range_example =
    cluster_read_range_lem volume 5 100 40 (omega arith) (omega arith) (omega arith) refl
      (omega arith) volume-IsReadable

delete_clusters-chain_example :
    (w : Volume) × (delete_clusters volume 4 3 ≡ done (some (true, w)))
    × Deleted volume (3 ∷ 5 ∷ 4 ∷ []) w
delete_clusters-chain_example =
    delete_clusters-chain 4 volume-IsMounted 3 (3 ∷ 5 ∷ 4 ∷ []) chain (omega arith)
