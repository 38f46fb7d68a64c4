-- ===== src/Fat/Directory/FindPlace.antt =====
-- The loops over a directory against the list of its places.
use cordell_os.Base.{
  ℕ, zero, suc, ◌+◌, ◌-◌, ◌*◌, ◌<◌, ◌≤◌, ◌≡◌, refl, sym, ap, ◌∙◌, Bool, List, [], ◌∷◌, ◌++◌,
  append_assoc, arith, length, u32,
}
use cordell_os.Fat.Volume.{Volume, done, cluster_lba}
use cordell_os.Fat.Table.{IsMounted, entry}
use cordell_os.Fat.Read.{IsReadable}
use cordell_os.Fat.Read.{IsReadable}
use cordell_os.Fat.Directory.{scan}
use cordell_os.Fat.Directory.Places.{
  place, sector_places, cluster_places, chain_places, first_place, last_cluster, IsDirectory,
  places_from, scan-moved, scan-finished, next_within, next_sector, next_outside, next_cluster-end,
  next_cluster-next,
}

-- The index after one more entry.
places_index :
    (v : Volume) (cl s e m k i j : ℕ) (cs : List ℕ)
    → j ≡ i + 1
    → sector_places v cl s e m (i + 1)
        ++ (cluster_places v cl (s + 1) k (i + suc m) ++ chain_places v cs (i + suc m + k * 16))
      ≡ places_from v cl s e m k j cs
places_index v cl s e m k i j cs h = let a : i + suc m ≡ i + 1 + m = omega arith in rw (h, a) refl

-- The places of sectors that are read next.
pub places_start :
    (v : Volume) (cl s n k i j : ℕ) (cs : List ℕ)
    → n ≡ suc k
    → j ≡ i + n * 16
    → cluster_places v cl s n i ++ chain_places v cs j ≡ places_from v cl s 0 16 k i cs
unfolding cluster_places
places_start v cl s n k i j cs e h =
    let a : j ≡ i + 16 + k * 16 = omega arith in
    rw (e, a)
      (append_assoc (sector_places v cl s 0 16 i) (cluster_places v cl (s + 1) k (i + 16))
        (chain_places v cs (i + 16 + k * 16)))

module _ (v : Volume) (ok : IsMounted v) (some_sectors : 0 < v.fat.sectors_per_cluster)
    (test : List ℕ → Bool) where
  pub scan_place :
      (fuel cl s e m k i : ℕ) (cs : List ℕ)
      → e + suc m ≡ 16
      → s + suc k ≡ v.fat.sectors_per_cluster
      → 2 ≤ cl
      → cl < v.fat.total_clusters
      → IsReadable v.disk (cluster_lba v.fat cl) v.fat.sectors_per_cluster
      → IsDirectory v (entry v cl) cs
      → length (places_from v cl s e (suc m) k i cs) ≤ fuel
      → scan v test fuel (place v cl s e i)
        ≡ done (first_place test (last_cluster cl cs) (places_from v cl s e (suc m) k i cs))
  unfolding sector_places cluster_places chain_places
  scan_place zero cl s e m k i cs es ss lo hi good dir le = absurd (omega arith)
  scan_place (suc fuel) cl s e (suc m) k i cs es ss lo hi good dir le =
      let tail = places_index v cl s (e + 1) (suc m) k i (i + 1) cs refl in
      scan-moved v test fuel (last_cluster cl cs) (place v cl s e i) (place v cl s (e + 1) (i + 1))
        (sector_places v cl s (e + 1) (suc m) (i + 1)
          ++ (cluster_places v cl (s + 1) k (i + suc (suc m))
              ++ chain_places v cs (i + suc (suc m) + k * 16)))
        (next_within v cl s e i (omega arith))
        (scan_place fuel cl s (e + 1) m k (i + 1) cs (omega arith) ss lo hi good dir
            (omega (arith, ap length tail))
          ∙ ap (λ t. done (first_place test (last_cluster cl cs) t)) (sym tail))
  scan_place (suc fuel) cl s e zero (suc k) i cs es ss lo hi good dir le =
      let tail : cluster_places v cl (s + 1) (suc k) (i + 1)
            ++ chain_places v cs (i + 1 + suc k * 16)
          ≡ places_from v cl (s + 1) 0 16 k (i + 1) cs =
        places_start v cl (s + 1) (suc k) k (i + 1) (i + 1 + suc k * 16) cs refl refl in
      let last_entry : e ≡ 15 = omega arith in
      scan-moved v test fuel (last_cluster cl cs) (place v cl s e i) (place v cl (s + 1) 0 (i + 1))
        (cluster_places v cl (s + 1) (suc k) (i + 1) ++ chain_places v cs (i + 1 + suc k * 16))
        (rw last_entry (next_sector v cl good s i (omega arith)))
        (scan_place fuel cl (s + 1) 0 15 k (i + 1) cs refl (omega arith) lo hi good dir
            (omega (arith, ap length tail))
          ∙ ap (λ t. done (first_place test (last_cluster cl cs) t)) (sym tail))
  scan_place (suc fuel) cl s e zero zero i [] es ss lo hi good dir le =
      let last_entry : e ≡ 15 = omega arith in
      scan-finished v test fuel (place v cl s e i)
        (record {
          cluster = cl;
          sector = s + 1;
          entry = 0;
          index = u32 (i + 1);
          sector_data = v.disk.sector (cluster_lba v.fat cl + s);
        })
        (rw last_entry (next_outside v cl good s i ss ∙ next_cluster-end ok _ lo hi dir))
  scan_place (suc fuel) cl s e zero zero i (x ∷ xs) es ss lo hi good (at, lo', hi', good', dir')
        le =
      let last_entry : e ≡ 15 = omega arith in
      let k = v.fat.sectors_per_cluster - 1 in
      let tail =
        places_start v x 0 v.fat.sectors_per_cluster k (i + 1 + 0)
          (i + 1 + 0 + v.fat.sectors_per_cluster * 16) xs (omega arith) refl in
      let index : i + 1 + 0 ≡ i + 1 = omega arith in
      let dir_x : IsDirectory v (entry v x) xs = dir' in
      scan-moved v test fuel (last_cluster x xs) (place v cl s e i) (place v x 0 0 (i + 1 + 0))
        (cluster_places v x 0 v.fat.sectors_per_cluster (i + 1 + 0)
          ++ chain_places v xs (i + 1 + 0 + v.fat.sectors_per_cluster * 16))
        (rw (last_entry, index)
          (next_outside v cl good s i ss
            ∙ next_cluster-next ok cl (s + 1) (i + 1) x (v.disk.sector (cluster_lba v.fat cl + s))
                lo hi some_sectors at hi' good'))
        (scan_place fuel x 0 0 15 k (i + 1 + 0) xs refl (omega arith) lo' hi' good' dir'
            (omega (arith, ap length tail))
          ∙ ap (λ t. done (first_place test (last_cluster x xs) t)) (sym tail))
