-- ===== src/Fat/Contents/Growth.antt =====
-- `_add_cluster_to_content` of src/kernel/filesystems/fat.c and the end mark of a chain.
use cordell_os.Base.{
  ◌<◌, ◌≢◌, ◌⊎◌, length, [], ◌∷◌, ℕ, zero, suc, ◌≤◌, ◌≡◌, refl, ap, ◌∙◌, inl, inr, true, false,
  ◌||◌, some, List, arith, ◌==◌,
}
use cordell_os.Fat.Volume.{
  Volume, done, halted, minus_one, bad_cluster_32, end_cluster_32, in_table, write_fat,
  is_cluster_end, is_cluster_bad,
}
use cordell_os.Fat.Table.{IsMounted, entry, read_fat-entry}
use cordell_os.Fat.Allocate.{cluster_allocate_lem}
use cordell_os.Fat.Content.{File}
use cordell_os.Fat.Change.{cluster_of}
use cordell_os.Fat.Contents.Write.{chain_end, no_cluster, add_cluster}

-- The end mark of a chain has no entry of its own in the table.
end_outside :
    (v : Volume) (cluster : ℕ)
    → v.fat.fat_type ≡ 32
    → v.fat.total_clusters ≤ bad_cluster_32
    → is_cluster_end v.fat cluster ≡ true
    → in_table v.fat cluster ≡ false
unfolding is_cluster_end in_table
end_outside v cluster fat32 few mark = ground (arith, fat32, few, mark)

write_fat-outside :
    (v : Volume) (cluster value : ℕ)
    → in_table v.fat cluster ≡ false
    → write_fat v cluster value ≡ halted
unfolding write_fat
write_fat-outside v cluster value outside = simp outside refl

-- From `c` the entries lead through the clusters `cs` of the table to the end mark.
abbrev pub IsMarked : Volume → ℕ → List ℕ → Type 0
IsMarked v c [] = c ≡ end_cluster_32
IsMarked v c (x ∷ xs) = (c ≡ x) × (2 ≤ x) × (x < v.fat.total_clusters) × IsMarked v (entry v x) xs

chain_end-marked :
    (v : Volume) (ok : IsMounted v) (fuel c : ℕ) (cs : List ℕ)
    → IsMarked v c cs
    → length cs < fuel
    → chain_end v fuel c ≡ done (some end_cluster_32)
unfolding chain_end is_cluster_end is_cluster_bad
chain_end-marked v ok zero c cs h f = absurd (omega arith)
chain_end-marked v ok (suc fuel) c [] h f =
    let mark : is_cluster_end v.fat c ≡ true = ground (arith, ok.fat32, h) in
    simp mark (ap (λ k. done (some k)) h)
chain_end-marked v ok (suc fuel) c (x ∷ xs) (e, lo, hi, rest) f =
    let inner : is_cluster_end v.fat x ≡ false = ground (arith, ok.fat32, ok.few, hi) in
    let good : (is_cluster_bad v.fat x || x == minus_one) ≡ false =
      ground (arith, ok.fat32, ok.few, hi) in
    rw (e, inner, good, read_fat-entry ok x lo hi)
      (chain_end-marked v ok fuel (entry v x) xs rest (omega arith))

-- For a file over a chain of clusters of a mounted volume that ends with the mark 0x0ffffff8, for a
-- search for free clusters that starts in the table, and fuel for one more round than the file has
-- clusters, `_add_cluster_to_content` ends in one of two ways. Where no
-- cluster from `last_allocated_cluster` on is free, it returns -3, and the search will start at cluster
-- 2 again. Where one is free, an assertion stops the system: the new cluster is entered behind the end
-- mark and not behind the last cluster.
pub add_cluster_lem :
    (v : Volume) (ok : IsMounted v) (fuel : ℕ) (e : List ℕ) (f : File) (cs : List ℕ)
    → 2 ≤ v.last_allocated
    → IsMarked v (cluster_of v.fat e) cs
    → length cs < fuel
    → ((add_cluster v fuel e f ≡ done (no_cluster (record v { last_allocated = 2 })))
        × ((k : ℕ) → v.last_allocated ≤ k → k < v.fat.total_clusters → entry v k ≢ 0))
      ⊎ ((add_cluster v fuel e f ≡ halted)
          × ((k : ℕ) × (v.last_allocated ≤ k) × (k < v.fat.total_clusters) × (entry v k ≡ 0)))
unfolding add_cluster is_cluster_bad is_cluster_end
add_cluster_lem v ok fuel e f cs lo chain enough =
    let walked = chain_end-marked v ok fuel (cluster_of v.fat e) cs chain enough in
    elim (cluster_allocate_lem ok lo) [
      | inl (c, w, run, claimed) ↦
          let same = claimed.updated.same_fat in
          let some_cluster : (c == minus_one) ≡ false = ground (arith, ok.few, claimed.inside) in
          let good : is_cluster_bad w.fat c ≡ false =
            ap (λ g. is_cluster_bad g c) same ∙ ground (arith, ok.fat32, ok.few, claimed.inside) in
          let outside : in_table w.fat end_cluster_32 ≡ false =
            ap (λ g. in_table g end_cluster_32) same
            ∙ end_outside v end_cluster_32 ok.fat32 ok.few (ground (arith, ok.fat32)) in
          let stopped = write_fat-outside w end_cluster_32 c outside in
          inr (
            rw (walked, run, some_cluster, good, stopped) refl,
            (c, claimed.from, claimed.inside, claimed.was_free),
          )
      | inr (run, full) ↦ inl (rw (walked, run) refl, full)
    ]
