-- ===== src/Fat/ReadFile.antt =====
-- `FAT_read_content2buffer` of src/kernel/filesystems/fat.c on an open file, against the bytes of
-- its clusters put together.
use cordell_os.Base.{
  ℕ, zero, suc, ◌+◌, ◌-◌, ◌*◌, ◌/◌, ◌%◌, ◌^◌, ◌<◌, ◌≤◌, ◌≡◌, refl, sym, ap, ap₂, ◌∙◌, inl, inr,
  false, Option, none, some, List, [], ◌∷◌, ◌++◌, arith, ◌==◌, if◌then◌else◌, Bool-cases, length,
  take, drop, get_or, min, u32,
}
use mathlib.Core.Path.{subst}
use cordell_os.Ata.{sector_size}
use cordell_os.Ata.Sectors.{contents, drop-drop}
use native.Mathlib.Nat.{mod-lt, div-add-mod', div-lt_iff_lt-mul}
use cordell_os.Fat.Volume.{Volume, Outcome, done, ◌>>=◌, minus_one, read_fat, cluster_lba}
use cordell_os.Fat.Table.{IsMounted, entry, read_fat-entry}
use cordell_os.Fat.Content.{File, is_negative, content_cluster_at}
use cordell_os.Fat.Chain.{IsFileOf, chain_at, cached_at, content_cluster_at-chain}
use cordell_os.Fat.Read.{cluster_read_range, IsReadable, cluster_read_range_lem}
use cordell_os.Fat.ChainBytes.{
  chain_bytes, chain_bytes-cons, length-contents, slice-append, drop-one, drop-all, slice-nil,
  drop-chain_bytes,
}

abbrev pub prepended : List ℕ → Option (List ℕ × File) → Option (List ℕ × File)
prepended bytes none = none
prepended bytes (some (rest, f)) = some (bytes ++ rest, f)

-- The loop: the clusters left, the index and the number of the first of them, the seek in it and the
-- bytes left to copy. What it copies to the buffer is the result; `none` is the result -1.
unfoldable pub read_clusters : Volume → ℕ → File → ℕ → ℕ → ℕ → ℕ → Outcome (Option (List ℕ × File))
read_clusters v zero f i cluster data_seek size = done (some ([], f))
read_clusters v (suc left) f i cluster data_seek size =
    let copy_size = min (v.fat.cluster_size - data_seek) size in
    let cached = record f { cached_cluster_index = i; cached_cluster = cluster } in
    let round = cluster_read_range v cluster data_seek copy_size >>= λ r. elim r [
      | none ↦ done none
      | some bytes ↦ read_fat v cluster >>= λ next.
          read_clusters v left cached (i + 1) next 0 (size - copy_size) >>= λ rest.
          done (prepended bytes rest)
    ] in
    if size == 0 then done (some ([], f)) else if is_negative cluster then done none else round

-- The cluster where the loop begins; -1 where the walk to it has failed.
abbrev pub start_at : File → Option (ℕ × File) → ℕ × File
start_at f none = (minus_one, f)
start_at f (some (cluster, g)) = (cluster, g)

-- The call from the walk to the first cluster on.
abbrev pub read_found :
    Volume → File → ℕ → ℕ → ℕ → Outcome (Option (ℕ × File)) → Outcome (Option (List ℕ × File))
read_found v f cluster_seek data_seek size m = m >>= λ found.
    read_clusters v (f.data_size - cluster_seek) (start_at f found).1 cluster_seek
      (start_at f found).0 data_seek size

abbrev pub read_with : Volume → File → ℕ → ℕ → ℕ → Outcome (Option (List ℕ × File))
read_with v f bytes_per_cluster offset size =
    read_found v f (offset / bytes_per_cluster) (offset % bytes_per_cluster) size
      (content_cluster_at v f (offset / bytes_per_cluster))

unfoldable pub read_content2buffer : Volume → File → ℕ → ℕ → Outcome (Option (List ℕ × File))
read_content2buffer v f offset size =
    read_with v f (u32 (v.fat.sectors_per_cluster * sector_size)) offset size

-- The clusters of the volume have as many bytes as it says, and those of the list can be read.
pub record IsStored (v : Volume) (cs : List ℕ) : Type 0 where
  pub whole : v.fat.cluster_size ≡ v.fat.sectors_per_cluster * sector_size
  pub some_sectors : 0 < v.fat.sectors_per_cluster
  pub few_sectors : v.fat.sectors_per_cluster < 2 ^ 8
  pub readable :
      (j : ℕ)
      → j < length cs
      → IsReadable v.disk (cluster_lba v.fat (get_or cs j 0)) v.fat.sectors_per_cluster

-- What the slices of a run of clusters are put together from.
abbrev first_slice : Volume → ℕ → ℕ → ℕ → List ℕ
first_slice v c seek size =
    take (min (v.fat.cluster_size - seek) size)
      (drop seek (contents v.disk (cluster_lba v.fat c) v.fat.sectors_per_cluster))

-- One round of the loop.
read_clusters-step :
    (v : Volume) (left : ℕ) (f : File) (j c seek size : ℕ) (rest : Option (List ℕ × File))
    → IsMounted v
    → 2 ≤ c
    → c < v.fat.total_clusters
    → 0 < size
    → v.fat.cluster_size ≡ v.fat.sectors_per_cluster * sector_size
    → seek < v.fat.cluster_size
    → IsReadable v.disk (cluster_lba v.fat c) v.fat.sectors_per_cluster
    → read_clusters v left
        (cached_at f j c)
        (j + 1)
        (entry v c)
        0
        (size - min (v.fat.cluster_size - seek) size)
      ≡ done rest
    → read_clusters v (suc left) f j c seek size ≡ done (prepended (first_slice v c seek size) rest)
unfolding read_clusters
read_clusters-step v left f j c seek size rest ok lo hi some_size whole lt good next =
    let copy = min (v.fat.cluster_size - seek) size in
    let more : (size == 0) ≡ false = ground arith in
    let fine : is_negative c ≡ false = ground (arith, ok.few) in
    let range = cluster_read_range_lem v c seek copy lo hi (omega arith) whole lt good in
    simp (more, fine, range, read_fat-entry ok c lo hi, next) refl

module _ {v : Volume} (ok : IsMounted v) {cs : List ℕ} (stored : IsStored v cs) where
  read_clusters-slice :
      (left : ℕ) (f : File) (j c seek size : ℕ)
      → IsFileOf v cs f
      → j + left ≡ length cs
      → (0 < left → c ≡ get_or cs j 0)
      → seek < v.fat.cluster_size
      → (g : File) × (read_clusters v left f j c seek size
          ≡ done (some (take size (drop seek (chain_bytes v (drop j cs))), g)))
        × IsFileOf v cs g
  read_clusters-slice zero f j c seek size is e at lt =
      let nothing : drop j cs ≡ [] = drop-all j cs (omega arith) in
      (
        f,
        rw nothing (
            unfold read_clusters chain_bytes in
            ap (λ l. done (some (l, f))) (sym (slice-nil size seek))),
        is,
      )
  read_clusters-slice (suc left) f j c seek size is e at lt = elim (Bool-cases (size == 0)) [
    | inl nothing ↦
        let none_left : size ≡ 0 = ground arith in
        (f, rw none_left (unfold read_clusters in refl), is)
    | inr something ↦
        let here : c ≡ get_or cs j 0 = at (omega arith) in
        let (lo, hi, next) = chain_at ok f.first_cluster j cs is.chain (omega arith) in
        let copy = min (v.fat.cluster_size - seek) size in
        let is' : IsFileOf v cs (cached_at f j c) = record {
          chain = is.chain;
          size = is.size;
          small = is.small;
          table = is.table;
          cache = inr (omega arith, here);
        } in
        let (g, rest, is_g) =
          read_clusters-slice left (cached_at f j c) (j + 1) (entry v c) 0 (size - copy) is'
            (omega arith)
            (λ p. ap (entry v) here ∙ next (omega arith) ∙ ap (λ k. get_or cs k 0) (omega arith))
            (omega arith) in
        let good : IsReadable v.disk (cluster_lba v.fat c) v.fat.sectors_per_cluster =
          subst (λ t. IsReadable v.disk (cluster_lba v.fat t) v.fat.sectors_per_cluster) (sym here)
            (stored.readable j (omega arith)) in
        let xs = contents v.disk (cluster_lba v.fat c) v.fat.sectors_per_cluster in
        let len : length xs ≡ v.fat.cluster_size =
          length-contents v.disk (cluster_lba v.fat c) v.fat.sectors_per_cluster ok.sized
          ∙ sym stored.whole in
        let next_j : suc j ≡ j + 1 = omega arith in
        let split : drop j cs ≡ c ∷ drop (j + 1) cs =
          drop-one cs j (omega arith) ∙ ap₂ (λ x k. x ∷ drop k cs) (sym here) next_j in
        (
          g,
          read_clusters-step v left f j c seek size
                (some (take (size - copy) (chain_bytes v (drop (j + 1) cs)), g)) ok
                (omega (arith, lo)) (omega (arith, hi)) (ground arith) stored.whole lt good rest
              ∙ ap (λ l. done (some (l, g)))
                  (slice-append xs (chain_bytes v (drop (j + 1) cs)) v.fat.cluster_size seek size
                      len lt
                    ∙ ap (λ l. take size (drop seek l))
                        (sym (ap (chain_bytes v) split ∙ chain_bytes-cons v c (drop (j + 1) cs)))),
          is_g,
        )
  ]

  -- For a file over a cluster chain of a mounted volume whose clusters can be read and have between
  -- 1 and 255 sectors, and an offset inside it, `FAT_read_content2buffer` copies the bytes of the
  -- clusters put together from the offset on, as many as were asked for or as there are; the file
  -- is still one over that chain.
  pub read_content2buffer_lem :
      (f : File) (offset size : ℕ)
      → IsFileOf v cs f
      → offset < length cs * v.fat.cluster_size
      → (g : File) × (read_content2buffer v f offset size
          ≡ done (some (take size (drop offset (chain_bytes v cs)), g)))
        × IsFileOf v cs g
  unfolding read_content2buffer
  read_content2buffer_lem f offset size is lt =
      let m = v.fat.cluster_size in
      let bytes : u32 (v.fat.sectors_per_cluster * sector_size) ≡ m =
        omega (arith, stored.whole, stored.few_sectors) in
      let q = offset / m in
      let r = offset % m in
      let below : q < length cs =
        (div-lt_iff_lt-mul (omega (arith, stored.whole, stored.some_sectors))).1 lt in
      let (here, is') = content_cluster_at-chain ok is q below in
      let inside : r < m = mod-lt offset (omega (arith, stored.whole, stored.some_sectors)) in
      let (g, read, is_g) =
        read_clusters-slice (f.data_size - q) (cached_at f q (get_or cs q 0)) q (get_or cs q 0) r
          size is' (omega (arith, is.size)) (λ p. refl) inside in
      let place : drop r (chain_bytes v (drop q cs)) ≡ drop offset (chain_bytes v cs) =
        ap (drop r) (sym (drop-chain_bytes v q cs ok.sized (omega arith)))
        ∙ drop-drop (q * (v.fat.sectors_per_cluster * sector_size)) r (chain_bytes v cs)
        ∙ ap (λ k. drop k (chain_bytes v cs))
            (ap (λ t. q * t + r) (sym stored.whole) ∙ div-add-mod' offset m) in
      (
        g,
        ap (λ t. read_with v f t offset size) bytes
            ∙ ap (read_found v f q r size) here
            ∙ read
            ∙ ap (λ l. done (some (take size l, g))) place,
        is_g,
      )
