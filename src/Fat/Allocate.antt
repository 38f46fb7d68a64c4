-- ===== src/Fat/Allocate.antt =====
-- `_cluster_allocate` and `_cluster_deallocate` against the table of entries.
use cordell_os.Base.{
  ℕ, zero, suc, ◌+◌, ◌-◌, ◌<◌, ◌≤◌, ◌≡◌, refl, ◌∙◌, ◌≢◌, ◌⊎◌, inl, inr, true, arith, ◌==◌,
  if◌then◌else◌, Bool-cases,
}
use cordell_os.Fat.Volume.{
  Volume, Outcome, done, minus_one, end_cluster_32, set_cluster_free, set_cluster_end,
  claim_cluster, allocate_from, cluster_allocate, cluster_deallocate,
}
use cordell_os.Fat.Table.{
  IsMounted, entry, written, read_fat-entry, write_fat-written, entry-written, written-IsMounted,
}

-- `w` is a mounted volume like `v`, but that the entry of `c` is `x`.
pub record Updated (v : Volume) (c x : ℕ) (w : Volume) : Type 0 where
  pub mounted : IsMounted w
  pub same_fat : w.fat ≡ v.fat
  pub entries : (k : ℕ) → k < v.fat.total_clusters → entry w k ≡ (if k == c then x else entry v k)

-- What a successful `_cluster_allocate` has done: `c` is the first free cluster from
-- `last_allocated_cluster` on, and now ends a chain.
pub record Claimed (v : Volume) (c : ℕ) (w : Volume) : Type 0 where
  pub from : v.last_allocated ≤ c
  pub inside : c < v.fat.total_clusters
  pub was_free : entry v c ≡ 0
  pub first : (k : ℕ) → v.last_allocated ≤ k → k < c → entry v k ≢ 0
  pub updated : Updated v c end_cluster_32 w
  pub remembered : w.last_allocated ≡ c

-- `_cluster_allocate` succeeds in this way, or there is no free cluster from
-- `last_allocated_cluster` on, it returns -1 and the search will start at cluster 2 again.
abbrev pub Allocation : Volume → Outcome (ℕ × Volume) → Type 0
Allocation v out =
    ((c : ℕ) × (w : Volume) × (out ≡ done (c, w)) × Claimed v c w)
    ⊎ ((out ≡ done (minus_one, record v { last_allocated = 2 }))
        × ((k : ℕ) → v.last_allocated ≤ k → k < v.fat.total_clusters → entry v k ≢ 0))

-- The volume does not depend on the remembered cluster, but for that field.
entry-last_allocated :
    (v : Volume) (l k : ℕ) → entry (record v { last_allocated = l }) k ≡ entry v k
unfolding entry
entry-last_allocated v l k = refl

IsMounted-last_allocated :
    {v : Volume} (l : ℕ) → IsMounted v → IsMounted (record v { last_allocated = l })
IsMounted-last_allocated l ok = record {
  fat32 = ok.fat32;
  few = ok.few;
  placed = ok.placed;
  no_wrap = ok.no_wrap;
  sized = ok.sized;
  readable = ok.readable;
  writable = ok.writable;
}

module _ {v : Volume} (ok : IsMounted v) where
  marked :
      (c : ℕ)
      → c < v.fat.total_clusters
      → Updated v c end_cluster_32 (record (written v c end_cluster_32) { last_allocated = c })
  marked c h = record {
    mounted = IsMounted-last_allocated c (written-IsMounted ok c end_cluster_32);
    same_fat = refl;
    entries = λ k p.
        entry-last_allocated (written v c end_cluster_32) c k
        ∙ entry-written ok c end_cluster_32 k h p (omega arith);
  }

  claim_cluster-written :
      (c : ℕ)
      → 2 ≤ c
      → c < v.fat.total_clusters
      → claim_cluster v c ≡ done (c, record (written v c end_cluster_32) { last_allocated = c })
  unfolding claim_cluster set_cluster_end
  claim_cluster-written c lo hi =
      let fat32 : (v.fat.fat_type == 32) ≡ true = ground (arith, ok.fat32) in
      rw (fat32, write_fat-written ok c end_cluster_32 lo hi) refl

  allocate_from-Allocation :
      (left c : ℕ)
      → 2 ≤ c
      → v.last_allocated ≤ c
      → left ≡ v.fat.total_clusters - c
      → ((k : ℕ) → v.last_allocated ≤ k → k < c → entry v k ≢ 0)
      → Allocation v (allocate_from v left c)
  unfolding allocate_from
  allocate_from-Allocation zero c lo from e none_before =
      inr (refl, λ k p q. none_before k p (omega arith))
  allocate_from-Allocation (suc left) c lo from e none_before =
      let hi : c < v.fat.total_clusters = omega arith in
      rw (read_fat-entry ok c lo hi) (elim (Bool-cases (entry v c == 0)) [
        | inl free ↦ rw free (
            inl (
              c,
              record (written v c end_cluster_32) { last_allocated = c },
              claim_cluster-written c lo hi,
              record {
                from = from;
                inside = hi;
                was_free = ground arith;
                first = none_before;
                updated = marked c hi;
                remembered = refl;
              },
            ))
        | inr used ↦ rw used (
            allocate_from-Allocation left (c + 1) (omega arith) (omega arith) (omega arith)
              (λ k p q. ground (arith, none_before k)))
      ])

  -- On a mounted FAT32 volume whose search starts in the table, `_cluster_allocate` takes the first
  -- free cluster from `last_allocated_cluster` on, marks it as the end of a chain and leaves every
  -- other entry as it is; or there is none, and it returns -1 with the table unchanged.
  pub cluster_allocate_lem : 2 ≤ v.last_allocated → Allocation v (cluster_allocate v)
  unfolding cluster_allocate
  cluster_allocate_lem lo =
      allocate_from-Allocation (v.fat.total_clusters - v.last_allocated) v.last_allocated lo
        (omega arith) (omega arith) (λ k p q. absurd (omega arith))

  -- On a mounted FAT32 volume `_cluster_deallocate` succeeds on every cluster of the table, frees
  -- that cluster and leaves every other entry as it is.
  pub cluster_deallocate_lem :
      (c : ℕ)
      → 2 ≤ c
      → c < v.fat.total_clusters
      → (w : Volume) × (cluster_deallocate v c ≡ done (true, w)) × Updated v c 0 w
  unfolding cluster_deallocate set_cluster_free
  cluster_deallocate_lem c lo hi =
      rw (read_fat-entry ok c lo hi) (elim (Bool-cases (entry v c == 0)) [
        | inl free ↦
            rw free
              (v, refl, record { mounted = ok; same_fat = refl; entries = λ k p. ground arith })
        | inr used ↦ rw used (
          written v c 0,
          write_fat-written ok c 0 lo hi,
          record {
            mounted = written-IsMounted ok c 0;
            same_fat = refl;
            entries = λ k p. entry-written ok c 0 k hi p (omega arith);
          },
        )
      ])
