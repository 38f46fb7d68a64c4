-- ===== src/Fat/ReadStop.antt =====
-- `_cluster_read_range_stop` of src/kernel/filesystems/fat.c, a read that stops at a symbol. The test for NULL of a buffer that is there is left out.
use cordell_os.Base.{
  ℕ, zero, suc, ◌+◌, ◌-◌, ◌/◌, ◌%◌, ◌≡◌, ◌≢◌, refl, ap, ◌∙◌, inl, inr, Bool, true, false, not, ◌&&◌,
  ◌||◌, Option, none, some, List, [], ◌∷◌, ◌++◌, arith, ltb, leb, ◌==◌, if◌then◌else◌, Bool-cases,
  take, drop, min, u32, Outcome, done, halted,
}
use cordell_os.Ata.{Disk, ◌>>=◌, sector_size, read_sector}
use cordell_os.Fat.Volume.{Volume, cluster_lba}
use cordell_os.Fat.Read.{read_loop, cluster_read_range}

-- The inner loop: bytes are copied up to the first that is the symbol, that one included; and whether
-- it was met.
unfoldable pub copy_until : ℕ → List ℕ → List ℕ × Bool
copy_until stop [] = ([], false)
copy_until stop (b ∷ bs) =
    let (rest, met) = copy_until stop bs in if b == stop then (b ∷ [], true) else (b ∷ rest, met)

-- The bytes of a sector, and those of the next ones where the symbol was not met.
abbrev pub copied_first : List ℕ × Bool → Option (List ℕ × Bool) → Option (List ℕ × Bool)
copied_first (bytes, true) rest = some (bytes, true)
copied_first (bytes, false) rest = rest >>= λ (more, met). some (bytes ++ more, met)

-- The outer loop, over the sectors of the cluster left.
unfoldable pub stop_sectors : Disk → ℕ → ℕ → ℕ → ℕ → ℕ → Option (List ℕ × Bool)
stop_sectors d lba zero sector_offset size stop = some ([], false)
stop_sectors d lba (suc left) sector_offset size stop =
    let copy_size = min size (sector_size - sector_offset) in
    let rest = stop_sectors d (u32 (lba + 1)) left 0 (size - copy_size) stop in
    let round = read_sector d lba >>= λ bytes.
    copied_first (copy_until stop (take copy_size (drop sector_offset bytes))) rest in
    if size == 0 then some ([], false) else round

-- `_cluster_read_range_stop`: what it copies and whether it sets `*stop` to 16.
unfoldable pub cluster_read_range_stop : Volume → ℕ → ℕ → ℕ → ℕ → Outcome (Option (List ℕ × Bool))
cluster_read_range_stop v cluster offset size stop =
    if not (leb 2 cluster && ltb cluster v.fat.total_clusters)
    then halted
    else if size == 0 || leb v.fat.cluster_size offset
    then done none
    else done (
        stop_sectors v.disk (u32 (cluster_lba v.fat cluster + offset / sector_size))
          (v.fat.sectors_per_cluster - offset / sector_size) (offset % sector_size) size stop)

abbrev with_first : ℕ → Option (List ℕ × Bool) → Option (List ℕ × Bool)
with_first x none = none
with_first x (some (bytes, met)) = some (x ∷ bytes, met)

abbrev pub cut : ℕ → Option (List ℕ) → Option (List ℕ × Bool)
cut stop none = none
cut stop (some bytes) = some (copy_until stop bytes)

pub copy_until-append :
    (stop : ℕ) (xs ys : List ℕ)
    → copied_first (copy_until stop xs) (some (copy_until stop ys))
      ≡ some (copy_until stop (xs ++ ys))
unfolding copy_until
copy_until-append stop [] ys = refl
copy_until-append stop (x ∷ xs) ys = elim (Bool-cases (x == stop)) [
  | inl here ↦ simp here refl
  | inr other ↦
      simp other
        (below (copy_until stop xs) (copy_until stop (xs ++ ys)) (copy_until-append stop xs ys))
]
  where
    below :
        (p q : List ℕ × Bool)
        → copied_first p (some (copy_until stop ys)) ≡ some q
        → copied_first (x ∷ p.0, p.1) (some (copy_until stop ys)) ≡ some (x ∷ q.0, q.1)
    below (bytes, true) q e = ap (with_first x) e
    below (bytes, false) q e = ap (with_first x) e

-- None of the bytes is the symbol.
abbrev pub Lacks : ℕ → List ℕ → Type 0
Lacks stop [] = Unit
Lacks stop (b ∷ bs) = (b ≢ stop) × Lacks stop bs

-- The bytes copied are all of them, none of which is the symbol; or, with the mark, those before the
-- first symbol and that symbol.
abbrev pub IsCut : ℕ → List ℕ → List ℕ × Bool → Type 0
IsCut stop all (copied, false) = (copied ≡ all) × Lacks stop all
IsCut stop all (copied, true) =
    (before : List ℕ) × (after : List ℕ) × (all ≡ before ++ stop ∷ after)
    × (copied ≡ before ++ stop ∷ [])
    × Lacks stop before

pub copy_until-IsCut : (stop : ℕ) (bs : List ℕ) → IsCut stop bs (copy_until stop bs)
unfolding copy_until
copy_until-IsCut stop [] = (refl, tt)
copy_until-IsCut stop (b ∷ bs) = elim (Bool-cases (b == stop)) [
  | inl here ↦
      let same : b ≡ stop = ground arith in
      simp here ([], bs, ap (λ x. x ∷ bs) same, ap (λ x. x ∷ []) same, tt)
  | inr other ↦ simp other (below (copy_until stop bs) (copy_until-IsCut stop bs) (ground arith))
]
  where
    below : (p : List ℕ × Bool) → IsCut stop bs p → b ≢ stop → IsCut stop (b ∷ bs) (b ∷ p.0, p.1)
    below (copied, true) (before, after, whole, same, lacks) differs =
        (b ∷ before, after, ap (λ l. b ∷ l) whole, ap (λ l. b ∷ l) same, (differs, lacks))
    below (copied, false) (same, lacks) differs = (ap (λ l. b ∷ l) same, (differs, lacks))

-- One round, by what the first sector and the sectors behind it give.
stop_sectors-round :
    (stop copy sector_offset : ℕ) (sector plain : Option (List ℕ)) (rest : Option (List ℕ × Bool))
    → ((more : List ℕ) → plain ≡ some more → rest ≡ some (copy_until stop more))
    → (bytes : List ℕ)
    → (sector >>= λ b. plain >>= λ more. some (take copy (drop sector_offset b) ++ more))
      ≡ some bytes
    → (sector >>= λ b. copied_first (copy_until stop (take copy (drop sector_offset b))) rest)
      ≡ some (copy_until stop bytes)
stop_sectors-round stop copy sector_offset none plain rest h bytes e = absurd (ground arith)
stop_sectors-round stop copy sector_offset (some b) none rest h bytes e = absurd (ground arith)
stop_sectors-round stop copy sector_offset (some b) (some more) rest h bytes e =
    ap (copied_first (copy_until stop (take copy (drop sector_offset b)))) (h more refl)
    ∙ copy_until-append stop (take copy (drop sector_offset b)) more
    ∙ ap (cut stop) e

-- Where the sectors can be read, the loop copies what the loop without a symbol copies, cut at it.
stop_sectors-copy_until :
    (d : Disk) (stop left lba sector_offset size : ℕ) (bytes : List ℕ)
    → read_loop d lba left sector_offset size ≡ some bytes
    → stop_sectors d lba left sector_offset size stop ≡ some (copy_until stop bytes)
unfolding stop_sectors read_loop copy_until
stop_sectors-copy_until d stop zero lba sector_offset size bytes = λ e. ap (cut stop) e
stop_sectors-copy_until d stop (suc left) lba sector_offset size bytes =
    elim (Bool-cases (size == 0)) [
      | inl nothing ↦ simp nothing (λ e. ap (cut stop) e)
      | inr more ↦
          let copy_size = min size (sector_size - sector_offset) in
          simp more (
            stop_sectors-round stop copy_size sector_offset (read_sector d lba)
              (read_loop d (u32 (lba + 1)) left 0 (size - copy_size))
              (stop_sectors d (u32 (lba + 1)) left 0 (size - copy_size) stop)
              (stop_sectors-copy_until d stop left (u32 (lba + 1)) 0 (size - copy_size)) bytes)
    ]

abbrev value : Outcome (Option (List ℕ)) → Option (List ℕ)
value halted = none
value (done o) = o

-- Where `_cluster_read_range` copies some bytes, `_cluster_read_range_stop` copies those up to the
-- first that is the symbol, that one included, and sets `*stop` just where the symbol is among them.
pub cluster_read_range_stop_lem :
    (v : Volume) (cluster offset size stop : ℕ) (bytes : List ℕ)
    → cluster_read_range v cluster offset size ≡ done (some bytes)
    → cluster_read_range_stop v cluster offset size stop ≡ done (some (copy_until stop bytes))
unfolding cluster_read_range cluster_read_range_stop
cluster_read_range_stop_lem v cluster offset size stop bytes =
    elim (Bool-cases (not (leb 2 cluster && ltb cluster v.fat.total_clusters))) [
      | inl outside ↦ simp outside (λ e. absurd (ground arith))
      | inr inside ↦ elim (Bool-cases (size == 0 || leb v.fat.cluster_size offset)) [
        | inl nothing ↦ simp (inside, nothing) (λ e. absurd (ground arith))
        | inr more ↦
            simp (inside, more)
              (λ e. ap done (
                stop_sectors-copy_until v.disk stop
                  (v.fat.sectors_per_cluster - offset / sector_size)
                  (u32 (cluster_lba v.fat cluster + offset / sector_size)) (offset % sector_size)
                  size bytes (ap value e)))
      ]
    ]
