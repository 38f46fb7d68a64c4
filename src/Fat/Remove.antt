-- ===== src/Fat/Remove.antt =====
-- `_directory_remove` of src/kernel/filesystems/fat.c: which byte of the disk it changes.
use cordell_os.Base.{
  ℕ, zero, suc, ◌+◌, ◌*◌, ◌^◌, ◌<◌, ◌≤◌, ◌≡◌, refl, sym, ap, ◌∙◌, inl, inr, true, false, List, [],
  ◌∷◌, ◌++◌, arith, ◌==◌, if◌then◌else◌, Bool-cases, length, set, length-set, take, take-all, u32,
}
use cordell_os.Ata.{sector_size, write_sector}
use cordell_os.Ata.Sectors.{with_sector, write_sector-good}
use cordell_os.Fat.Volume.{Volume, done, cluster_lba}
use cordell_os.Fat.Table.{IsMounted, entry}
use cordell_os.Fat.Names.{name_check}
use cordell_os.Fat.Directory.{Cursor, meta, found, is_named, entry_free}
use cordell_os.Fat.Directory.Places.{
  sector_places, cluster_places, chain_places, first_place, last_cluster, IsDirectory,
}
use cordell_os.Fat.Directory.Lookup.{scan_directory-places}
use cordell_os.Fat.Change.{
  cursor_write, Change, changed, missing, failed, change_fuel, stored, with_disk, removed,
  directory_remove,
}

-- The sector of a place.
abbrev pub place_lba : Volume → Cursor → ℕ
place_lba v c = cluster_lba v.fat c.cluster + c.sector

-- A cursor at an entry of the data area, with its sector loaded.
record IsPlaced (v : Volume) (c : Cursor) : Type 0 where
  pub loaded : c.sector_data ≡ v.disk.sector (place_lba v c)
  pub addressed : place_lba v c < 2 ^ 28
  pub in_area : 0 < place_lba v c

abbrev All : (Cursor → Type 0) → List Cursor → Type 0
All P [] = Unit
All P (c ∷ cs) = P c × All P cs

All-append : (P : Cursor → Type 0) (cs ds : List Cursor) → All P cs → All P ds → All P (cs ++ ds)
All-append P [] ds h k = k
All-append P (c ∷ cs) ds (here, h) k = (here, All-append P cs ds h k)

module _ (v : Volume) where
  sector_places-IsPlaced :
      (cl s e left i : ℕ)
      → cluster_lba v.fat cl + s < 2 ^ 28
      → 0 < cluster_lba v.fat cl
      → All (IsPlaced v) (sector_places v cl s e left i)
  unfolding sector_places
  sector_places-IsPlaced cl s e zero i hi lo = tt
  sector_places-IsPlaced cl s e (suc left) i hi lo = (
    record { loaded = refl; addressed = hi; in_area = omega arith },
    sector_places-IsPlaced cl s (e + 1) left (i + 1) hi lo,
  )

  cluster_places-IsPlaced :
      (cl s left i : ℕ)
      → cluster_lba v.fat cl + (s + left) ≤ 2 ^ 28
      → 0 < cluster_lba v.fat cl
      → All (IsPlaced v) (cluster_places v cl s left i)
  unfolding cluster_places
  cluster_places-IsPlaced cl s zero i hi lo = tt
  cluster_places-IsPlaced cl s (suc left) i hi lo =
      All-append (IsPlaced v) (sector_places v cl s 0 16 i)
        (cluster_places v cl (s + 1) left (i + 16))
        (sector_places-IsPlaced cl s 0 16 i (omega arith) lo)
        (cluster_places-IsPlaced cl (s + 1) left (i + 16) (omega arith) lo)

  chain_places-IsPlaced :
      (c : ℕ) (cs : List ℕ) (i : ℕ)
      → ((x : ℕ) → 2 ≤ x → x < v.fat.total_clusters → 0 < cluster_lba v.fat x)
      → IsDirectory v c cs
      → All (IsPlaced v) (chain_places v cs i)
  unfolding chain_places
  chain_places-IsPlaced c [] i area dir = tt
  chain_places-IsPlaced c (x ∷ xs) i area (at, lo, hi, good, dir) =
      let spc = v.fat.sectors_per_cluster in
      All-append (IsPlaced v) (cluster_places v x 0 spc i) (chain_places v xs (i + spc * 16))
        (cluster_places-IsPlaced x 0 spc i (omega (arith, good.addressed)) (area x lo hi))
        (chain_places-IsPlaced (entry v x) xs (i + spc * 16) area dir)

-- No entry of the list has the name.
abbrev pub NoneNamed : List ℕ → List Cursor → Type 0
NoneNamed name cs = All (λ c. is_named name (meta c) ≡ false) cs

-- What a removal does: the first entry with the name is marked as free, by one byte of its sector;
-- or there is no entry with the name.
abbrev pub Removal : Volume → List ℕ → List Cursor → Change → Type 0
Removal v name places (changed w) =
    (before : List Cursor) × (p : Cursor) × (after : List Cursor) × (places ≡ before ++ p ∷ after)
    × NoneNamed name before
    × (is_named name (meta p) ≡ true)
    × (w.fat ≡ v.fat)
    × ((s : ℕ)
        → w.disk.sector s ≡ (
            if s == place_lba v p
            then set (v.disk.sector s) (p.entry * 32) entry_free
            else v.disk.sector s))
Removal v name places missing = NoneNamed name places
Removal v name places (failed w) = false ≡ true
Removal v name places change_fuel = false ≡ true

-- One more entry in front.
Removal-behind :
    (v : Volume) (name : List ℕ) (c : Cursor) (cs : List Cursor) (r : Change)
    → is_named name (meta c) ≡ false
    → Removal v name cs r
    → Removal v name (c ∷ cs) r
Removal-behind v name c cs (changed w) miss (before, p, after, e, none_before, hit, fat, rest) =
    (c ∷ before, p, after, ap (λ l. c ∷ l) e, (miss, none_before), hit, fat, rest)
Removal-behind v name c cs missing miss h = (miss, h)
Removal-behind v name c cs (failed w) miss h = h
Removal-behind v name c cs change_fuel miss h = h

module _ (v : Volume) (sized : (s : ℕ) → length (v.disk.sector s) ≡ sector_size)
    (writable : (s : ℕ) → v.disk.write_fails s ≡ false) where
  freed :
      (c : Cursor)
      → IsPlaced v c
      → (w : Volume) × (removed v (found c) ≡ changed w)
        × (w.fat ≡ v.fat)
        × ((s : ℕ)
            → w.disk.sector s ≡ (
                if s == place_lba v c
                then set (v.disk.sector s) (c.entry * 32) entry_free
                else v.disk.sector s))
  unfolding cursor_write
  freed c ok =
      let lba = place_lba v c in
      let bytes = set c.sector_data (c.entry * 32) entry_free in
      let here : u32 lba ≡ lba = omega (arith, ok.addressed) in
      let wrote = write_sector-good v.disk lba bytes (ok.in_area) (ok.addressed) (writable lba) in
      let all : take sector_size bytes ≡ set (v.disk.sector lba) (c.entry * 32) entry_free =
        take-all sector_size bytes (
          omega (
            arith,
            length-set c.sector_data (c.entry * 32) entry_free,
            ap length ok.loaded,
            sized lba,
          ))
        ∙ ap (λ l. set l (c.entry * 32) entry_free) ok.loaded in
      (
        record v { disk = with_sector v.disk lba bytes },
        ap (λ a. stored v (with_disk v (write_sector v.disk a bytes))) here
            ∙ ap (λ o. stored v (with_disk v o)) wrote,
        refl,
        λ s. elim (Bool-cases (s == lba)) [
          | inl e ↦
              let at : s ≡ lba = ground arith in
              rw e (all ∙ ap (λ a. set (v.disk.sector a) (c.entry * 32) entry_free) (sym at))
          | inr e ↦ rw e refl
        ],
      )

  removed-places :
      (name : List ℕ) (last : ℕ) (cs : List Cursor)
      → All (IsPlaced v) cs
      → Removal v name cs (removed v (first_place (is_named name) last cs))
  unfolding first_place
  removed-places name last [] h = tt
  removed-places name last (c ∷ cs) (here, h) = elim (Bool-cases (is_named name (meta c))) [
    | inl hit ↦
        let (w, e, fat, rest) = freed c here in simp (hit, e) ([], c, cs, refl, tt, hit, fat, rest)
    | inr miss ↦ simp miss (
        Removal-behind v name c cs (removed v (first_place (is_named name) last cs)) miss
          (removed-places name last cs h))
  ]

-- On a mounted volume with at least one sector in a cluster, whose sectors can be written and whose
-- clusters lie past the boot sector, for a directory whose clusters can be read and whose chain
-- ends with the mark 0x0ffffff8, for a name that passes the check and with fuel for as many rounds
-- as the directory has entries: `_directory_remove` marks the first entry with that name as free
-- and changes no other byte of the disk; or no entry has the name, and it reports that.
pub directory_remove_lem :
    (v : Volume) (name : List ℕ) (fuel x : ℕ) (xs : List ℕ)
    → IsMounted v
    → ((s : ℕ) → v.disk.write_fails s ≡ false)
    → ((c : ℕ) → 2 ≤ c → c < v.fat.total_clusters → 0 < cluster_lba v.fat c)
    → 0 < v.fat.sectors_per_cluster
    → IsDirectory v x (x ∷ xs)
    → name_check name ≡ 0
    → length (chain_places v (x ∷ xs) 0) ≤ fuel
    → (r : Change) × (directory_remove v name fuel x ≡ done r)
      × Removal v name (chain_places v (x ∷ xs) 0) r
unfolding directory_remove
directory_remove_lem v name fuel x xs ok writable area some_sectors dir good le =
    let places = chain_places v (x ∷ xs) 0 in
    let scanned = scan_directory-places v (is_named name) fuel x xs ok some_sectors dir le in
    (
      removed v (first_place (is_named name) (last_cluster x xs) places),
      rw (good, scanned) refl,
      removed-places v (ok.sized) writable name (last_cluster x xs) places
          (chain_places-IsPlaced v x (x ∷ xs) 0 area dir),
    )
