-- ===== src/Fat/Directory/Places.antt =====
-- The entries of a directory in their order, each with the cursor that stands at it, and where
-- `_directory_cursor_next` of src/kernel/filesystems/fat.c goes from each.
use cordell_os.Base.{
  ℕ, zero, suc, ◌+◌, ◌*◌, ◌/◌, ◌^◌, ◌<◌, ◌≤◌, ◌≡◌, refl, ap, inl, inr, Bool, true, false, some,
  List, [], ◌∷◌, ◌++◌, arith, ltb, leb, if◌then◌else◌, Bool-cases, u32,
}
use cordell_os.Ata.{sector_size}
use cordell_os.Ata.Sectors.{read_sector-good}
use cordell_os.Fat.Volume.{
  Volume, done, end_cluster_32, is_cluster_end, is_cluster_bad, cluster_lba,
}
use cordell_os.Fat.Table.{IsMounted, entry, read_fat-entry}
use cordell_os.Fat.Read.{IsReadable}
use cordell_os.Fat.Read.{IsReadable}
use cordell_os.Fat.Directory.{
  Cursor, meta, cursor_load, loaded, moved, finished, next_cluster, cursor_next, found, ended, Scan,
  scan,
}

-- The cursor at an entry, with the sector loaded.
abbrev pub place : Volume → ℕ → ℕ → ℕ → ℕ → Cursor
place v cl s e i = record {
  cluster = cl;
  sector = s;
  entry = e;
  index = u32 i;
  sector_data = v.disk.sector (cluster_lba v.fat cl + s);
}

-- The entries of a sector, of a cluster and of a chain of clusters, counted from `i` on.
unfoldable pub sector_places : Volume → ℕ → ℕ → ℕ → ℕ → ℕ → List Cursor
sector_places v cl s e zero i = []
sector_places v cl s e (suc left) i = place v cl s e i ∷ sector_places v cl s (e + 1) left (i + 1)

unfoldable pub cluster_places : Volume → ℕ → ℕ → ℕ → ℕ → List Cursor
cluster_places v cl s zero i = []
cluster_places v cl s (suc left) i =
    sector_places v cl s 0 16 i ++ cluster_places v cl (s + 1) left (i + 16)

unfoldable pub chain_places : Volume → List ℕ → ℕ → List Cursor
chain_places v [] i = []
chain_places v (c ∷ cs) i =
    cluster_places v c 0 v.fat.sectors_per_cluster i
    ++ chain_places v cs (i + v.fat.sectors_per_cluster * 16)

-- The first of them that passes a test; otherwise the loop ends at the cluster `last`.
unfoldable pub first_place : (List ℕ → Bool) → ℕ → List Cursor → Scan
first_place test last [] = ended last
first_place test last (c ∷ cs) =
    let rest = first_place test last cs in if test (meta c) then found c else rest

abbrev pub last_cluster : ℕ → List ℕ → ℕ
last_cluster c [] = c
last_cluster c (x ∷ xs) = last_cluster x xs

-- From `c` the entries of the table lead through the clusters of the list to the end mark; the
-- sectors of these clusters can be read.
abbrev pub IsDirectory : Volume → ℕ → List ℕ → Type 0
IsDirectory v c [] = c ≡ end_cluster_32
IsDirectory v c (x ∷ xs) =
    (c ≡ x)
    × (2 ≤ x)
    × (x < v.fat.total_clusters)
    × IsReadable v.disk (cluster_lba v.fat x) v.fat.sectors_per_cluster
    × IsDirectory v (entry v x) xs

pub load_place :
    (v : Volume) (cl s e i : ℕ) (bytes : List ℕ)
    → IsReadable v.disk (cluster_lba v.fat cl) v.fat.sectors_per_cluster
    → s < v.fat.sectors_per_cluster
    → cursor_load v
        (record { cluster = cl; sector = s; entry = e; index = u32 i; sector_data = bytes })
      ≡ some (place v cl s e i)
unfolding cursor_load
load_place v cl s e i bytes ok lt =
    let lba = cluster_lba v.fat cl in
    let here : u32 (lba + s) ≡ lba + s = omega (arith, ok.addressed) in
    let got = read_sector-good v.disk (lba + s) (omega (arith, ok.addressed)) (ok.readable s lt) in
    rw (here, got) refl

-- What is left of a directory: `m` entries of the sector, `k` more sectors of the cluster, and the
-- clusters behind it.
abbrev pub places_from : Volume → ℕ → ℕ → ℕ → ℕ → ℕ → ℕ → List ℕ → List Cursor
places_from v cl s e m k i cs =
    sector_places v cl s e m i
    ++ (cluster_places v cl (s + 1) k (i + m) ++ chain_places v cs (i + m + k * 16))

-- One round of the loop, by where the cursor goes.
pub scan-moved :
    (v : Volume) (test : List ℕ → Bool) (fuel last : ℕ) (c next : Cursor) (cs : List Cursor)
    → cursor_next v c ≡ done (moved next)
    → scan v test fuel next ≡ done (first_place test last cs)
    → scan v test (suc fuel) c ≡ done (first_place test last (c ∷ cs))
unfolding scan first_place
scan-moved v test fuel last c next cs step rest = elim (Bool-cases (test (meta c))) [
  | inl hit ↦ rw hit refl
  | inr miss ↦ rw (miss, step) rest
]

pub scan-finished :
    (v : Volume) (test : List ℕ → Bool) (fuel : ℕ) (c stop : Cursor)
    → cursor_next v c ≡ done (finished stop)
    → scan v test (suc fuel) c ≡ done (first_place test stop.cluster (c ∷ []))
unfolding scan first_place
scan-finished v test fuel c stop step = elim (Bool-cases (test (meta c))) [
  | inl hit ↦ rw hit refl
  | inr miss ↦ rw (miss, step) refl
]

pub next_within :
    (v : Volume) (cl s e i : ℕ)
    → e + 1 < 16
    → cursor_next v (place v cl s e i) ≡ done (moved (place v cl s (e + 1) (i + 1)))
unfolding cursor_next
next_within v cl s e i lt =
    let inside : ltb (e + 1) (sector_size / 32) ≡ true = ground arith in
    let index : u32 (u32 i + 1) ≡ u32 (i + 1) = omega arith in rw (inside, index) refl

module _ (v : Volume) (cl : ℕ)
    (good : IsReadable v.disk (cluster_lba v.fat cl) v.fat.sectors_per_cluster) where
  pub next_sector :
      (s i : ℕ)
      → s + 1 < v.fat.sectors_per_cluster
      → cursor_next v (place v cl s 15 i) ≡ done (moved (place v cl (s + 1) 0 (i + 1)))
  unfolding cursor_next
  next_sector s i lt =
      let index : u32 (u32 i + 1) ≡ u32 (i + 1) = omega arith in
      let sector : u32 (s + 1) ≡ s + 1 = omega (arith, good.addressed) in
      let more : ltb (s + 1) v.fat.sectors_per_cluster ≡ true = ground arith in
      rw (index, sector, more)
        (ap (λ o. done (loaded o))
          (load_place v cl (s + 1) 0 (i + 1) (v.disk.sector (cluster_lba v.fat cl + s)) good lt))

  -- At the end of a cluster the table says where to go on.
  pub next_outside :
      (s i : ℕ)
      → s + 1 ≡ v.fat.sectors_per_cluster
      → cursor_next v (place v cl s 15 i)
        ≡ next_cluster v (record {
          cluster = cl;
          sector = s + 1;
          entry = 0;
          index = u32 (i + 1);
          sector_data = v.disk.sector (cluster_lba v.fat cl + s);
        })
  unfolding cursor_next
  next_outside s i e =
      let index : u32 (u32 i + 1) ≡ u32 (i + 1) = omega arith in
      let sector : u32 (s + 1) ≡ s + 1 = omega (arith, good.addressed) in
      let over : ltb (s + 1) v.fat.sectors_per_cluster ≡ false = ground arith in
      rw (index, sector, over) refl

module _ {v : Volume} (ok : IsMounted v) where
  -- The end mark ends the directory.
  pub next_cluster-end :
      (c : Cursor)
      → 2 ≤ c.cluster
      → c.cluster < v.fat.total_clusters
      → entry v c.cluster ≡ end_cluster_32
      → next_cluster v c ≡ done (finished c)
  unfolding next_cluster is_cluster_end
  next_cluster-end c lo hi e = rw (read_fat-entry ok c.cluster lo hi, e, ok.fat32) refl

  -- A cluster of the table is no mark.
  inside_not_end : (x : ℕ) → x < v.fat.total_clusters → is_cluster_end v.fat x ≡ false
  unfolding is_cluster_end
  inside_not_end x h = ground (arith, ok.few, ok.fat32)

  inside_not_bad : (x : ℕ) → x < v.fat.total_clusters → is_cluster_bad v.fat x ≡ false
  unfolding is_cluster_bad
  inside_not_bad x h = ground (arith, ok.few, ok.fat32)

  pub next_cluster-next :
      (cl s i x : ℕ) (bytes : List ℕ)
      → 2 ≤ cl
      → cl < v.fat.total_clusters
      → 0 < v.fat.sectors_per_cluster
      → entry v cl ≡ x
      → x < v.fat.total_clusters
      → IsReadable v.disk (cluster_lba v.fat x) v.fat.sectors_per_cluster
      → next_cluster v
          (record { cluster = cl; sector = s; entry = 0; index = u32 i; sector_data = bytes })
        ≡ done (moved (place v x 0 0 i))
  unfolding next_cluster
  next_cluster-next cl s i x bytes lo hi some_sectors e inside good =
      let not_end = inside_not_end x inside in
      let not_bad = inside_not_bad x inside in
      let small : leb (2 ^ 31) x ≡ false = ground (arith, ok.few) in
      rw (read_fat-entry ok cl lo hi, e, not_end, not_bad, small)
        (ap (λ o. done (loaded o)) (load_place v x 0 0 i bytes good some_sectors))
