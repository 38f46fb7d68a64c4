-- ===== src/Fat/Table.antt =====
-- The on-disk table as a map from clusters to entries, and the cluster functions against it.
use cordell_os.Base.{
  ℕ, ◌+◌, ◌*◌, ◌/◌, ◌%◌, ◌^◌, ◌<◌, ◌≤◌, ◌≡◌, refl, sym, ◌∙◌, ap, true, false, List, arith, length,
  ◌==◌, if◌then◌else◌, Bool-cases, inl, inr, get_or, set, length-set, get_or-set, take, take-all,
  u8, ◌>>◌,
}
use cordell_os.Base.Bits.{bit_and_mask}
use cordell_os.Ata.{sector_size, lba28, read_sector, write_sector}
use cordell_os.Fat.Volume.{
  Volume, done, load32, store32, in_table, fat_offset, fat_sector, read_fat, write_fat,
  bad_cluster_32,
}

-- A FAT32 volume whose table can be read and written: the table's sectors have 512 bytes, none of
-- them is the boot sector, and the disk serves them.
pub record IsMounted (v : Volume) : Type 0 where
  pub fat32 : v.fat.fat_type ≡ 32
  pub few : v.fat.total_clusters ≤ bad_cluster_32
  pub placed : 0 < v.fat.first_fat_sector
  pub no_wrap : v.fat.first_fat_sector + v.fat.total_clusters < 2 ^ 28
  pub sized : (s : ℕ) → length (v.disk.sector s) ≡ sector_size
  pub readable : (c : ℕ) → c < v.fat.total_clusters → v.disk.read_fails (fat_sector v.fat c) ≡ false
  pub writable :
      (c : ℕ) → c < v.fat.total_clusters → v.disk.write_fails (fat_sector v.fat c) ≡ false

-- The entry of a cluster: the low 28 bits of its word.
unfoldable pub entry : Volume → ℕ → ℕ
entry v c = load32 (v.disk.sector (fat_sector v.fat c)) (fat_offset v.fat c % sector_size) % 2 ^ 28

-- The bytes of an array after a 32-bit store inside it.
byte-store32 :
    (bs : List ℕ) (i x j : ℕ)
    → i + 3 < length bs
    → get_or (store32 bs i x) j 0 ≡ (
        if j == i + 3
        then u8 (x >> 24)
        else if j == i + 2
        then u8 (x >> 16)
        else if j == i + 1
        then u8 (x >> 8)
        else if j == i
        then u8 x
        else get_or bs j 0)
byte-store32 bs i x j h =
    let l1 = length-set bs i (u8 x) in
    let b1 = set bs i (u8 x) in
    let l2 = length-set b1 (i + 1) (u8 (x >> 8)) in
    let b2 = set b1 (i + 1) (u8 (x >> 8)) in
    let l3 = length-set b2 (i + 2) (u8 (x >> 16)) in
    let b3 = set b2 (i + 2) (u8 (x >> 16)) in
    get_or-set b3 (i + 3) j (u8 (x >> 24)) 0 (omega arith)
    ∙ ap (λ t. if j == i + 3 then u8 (x >> 24) else t)
        (get_or-set b2 (i + 2) j (u8 (x >> 16)) 0 (omega arith)
          ∙ ap (λ t. if j == i + 2 then u8 (x >> 16) else t)
              (get_or-set b1 (i + 1) j (u8 (x >> 8)) 0 (omega arith)
                ∙ ap (λ t. if j == i + 1 then u8 (x >> 8) else t)
                    (get_or-set bs i j (u8 x) 0 (omega arith))))

-- Four bytes stored are four bytes loaded, and words at other multiples of 4 are as before.
load32-store32 :
    (bs : List ℕ) (p q x : ℕ)
    → p * 4 + 3 < length bs
    → x < 2 ^ 32
    → load32 (store32 bs (p * 4) x) (q * 4) ≡ (if q == p then x else load32 bs (q * 4))
load32-store32 bs p q x h hx = ground (
  arith,
  byte-store32 bs (p * 4) x (q * 4) h,
  byte-store32 bs (p * 4) x (q * 4 + 1) h,
  byte-store32 bs (p * 4) x (q * 4 + 2) h,
  byte-store32 bs (p * 4) x (q * 4 + 3) h,
)

length-store32 : (bs : List ℕ) (i x : ℕ) → length (store32 bs i x) ≡ length bs
length-store32 bs i x = simp length-set

-- `v` with the entry of `c` written.
abbrev pub written : Volume → ℕ → ℕ → Volume
written v c x =
    let at = fat_sector v.fat c in
    let bytes = store32 (v.disk.sector at) (fat_offset v.fat c % sector_size) x in
    record v {
      disk = record v.disk {
        sector = λ s. if s == at then take sector_size bytes else v.disk.sector s;
      };
    }

module _ {v : Volume} (ok : IsMounted v) where
  -- Where the entry of a cluster lies.
  place :
      (c : ℕ)
      → c < v.fat.total_clusters
      → (fat_offset v.fat c % sector_size ≡ c % 128 * 4)
        × (fat_sector v.fat c ≡ v.fat.first_fat_sector + c / 128)
  unfolding fat_offset fat_sector
  place c h = rw ok.fat32 (omega (arith, ok.few, ok.no_wrap))

  addressed : (c : ℕ) → c < v.fat.total_clusters → lba28 (fat_sector v.fat c) ≡ fat_sector v.fat c
  addressed c h = let (offset, at) = place c h in omega (arith, ok.no_wrap)

  table_has : (c : ℕ) → 2 ≤ c → c < v.fat.total_clusters → in_table v.fat c ≡ true
  unfolding in_table
  table_has c lo hi = rw ok.fat32 (ground arith)

  -- Inside the table `__read_fat` returns the entry.
  pub read_fat-entry : (c : ℕ) → 2 ≤ c → c < v.fat.total_clusters → read_fat v c ≡ done (entry v c)
  unfolding read_fat entry read_sector
  read_fat-entry c lo hi =
      rw (table_has c lo hi, addressed c hi, ok.readable c hi)
        (ground (
          arith,
          bit_and_mask 28
              (load32 (v.disk.sector (fat_sector v.fat c)) (fat_offset v.fat c % sector_size)),
        ))

  pub write_fat-written :
      (c x : ℕ) → 2 ≤ c → c < v.fat.total_clusters → write_fat v c x ≡ done (true, written v c x)
  unfolding write_fat read_sector write_sector
  write_fat-written c x lo hi =
      let (offset, at) = place c hi in
      let above : (fat_sector v.fat c == 0) ≡ false = ground (arith, ok.placed) in
      rw
        (
          table_has c lo hi,
          addressed c hi,
          ok.readable c hi,
          above,
          addressed c hi,
          ok.writable c hi,
        )
        refl

  stored : ℕ → ℕ → List ℕ
  stored c x = store32 (v.disk.sector (fat_sector v.fat c)) (fat_offset v.fat c % sector_size) x

  sector-written :
      (c x s : ℕ)
      → (written v c x).disk.sector s
        ≡ (if s == fat_sector v.fat c then stored c x else v.disk.sector s)
  unfolding stored
  sector-written c x s =
      let old = v.disk.sector (fat_sector v.fat c) in
      let offset = fat_offset v.fat c % sector_size in
      let whole : length (store32 old offset x) ≤ sector_size =
        omega (arith, length-store32 old offset x, ok.sized (fat_sector v.fat c)) in
      ap (λ t. if s == fat_sector v.fat c then t else v.disk.sector s)
        (take-all sector_size (store32 old offset x) whole)

  -- After a write to the entry of `c` that entry is the value's low 28 bits, and every other entry
  -- of the table is as before.
  pub entry-written :
      (c x k : ℕ)
      → c < v.fat.total_clusters
      → k < v.fat.total_clusters
      → x < 2 ^ 32
      → entry (written v c x) k ≡ (if k == c then x % 2 ^ 28 else entry v k)
  unfolding entry stored
  entry-written c x k hc hk hx =
      let (offset, at) = place c hc in
      let (offset', at') = place k hk in
      let old = v.disk.sector (fat_sector v.fat c) in
      let inside : c % 128 * 4 + 3 < length old = omega (arith, ok.sized (fat_sector v.fat c)) in
      rw (sector-written c x (fat_sector v.fat k), offset')
        (elim (Bool-cases (fat_sector v.fat k == fat_sector v.fat c)) [
          | inr other ↦ let ne : (k == c) ≡ false = ground arith in rw (other, ne) refl
          | inl same ↦
              rw (same, offset, load32-store32 old (c % 128) (k % 128) x inside hx) (ground arith)
        ])

  pub written-IsMounted : (c x : ℕ) → IsMounted (written v c x)
  unfolding stored
  written-IsMounted c x = record {
    fat32 = ok.fat32;
    few = ok.few;
    placed = ok.placed;
    no_wrap = ok.no_wrap;
    sized = λ s.
        let old = v.disk.sector (fat_sector v.fat c) in
        rw (sector-written c x s) (
          ground (
            arith,
            ok.sized s,
            ok.sized (fat_sector v.fat c),
            length-store32 old (fat_offset v.fat c % sector_size) x,
          ));
    readable = ok.readable;
    writable = ok.writable;
  }

-- Inside the table of a mounted volume `__write_fat` of a value of 28 bits succeeds; then
-- `__read_fat` returns it for that cluster, and for every other cluster what it returned before.
pub read_fat-write_fat :
    {v : Volume} (ok : IsMounted v) (c k x : ℕ)
    → 2 ≤ c
    → c < v.fat.total_clusters
    → 2 ≤ k
    → k < v.fat.total_clusters
    → x < 2 ^ 28
    → (w : Volume) × (write_fat v c x ≡ done (true, w))
      × (read_fat w k ≡ (if k == c then done x else read_fat v k))
read_fat-write_fat {v} ok c k x lo hi lo' hi' hx =
    let same : entry (written v c x) k ≡ (if k == c then x else entry v k) =
      entry-written ok c x k hi hi' (omega arith) ∙ ground arith in
    (
      written v c x,
      write_fat-written ok c x lo hi,
      read_fat-entry (written-IsMounted ok c x) k lo' hi'
          ∙ ap done same
          ∙ (elim (Bool-cases (k == c)) [
            | inl e ↦ rw e refl
            | inr e ↦ rw e (sym (read_fat-entry ok k lo' hi'))
          ]),
    )

pub entry-lt : (v : Volume) (c : ℕ) → entry v c < 2 ^ 28
unfolding entry
entry-lt v c = omega arith
