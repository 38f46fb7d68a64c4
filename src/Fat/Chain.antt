-- ===== src/Fat/Chain.antt =====
-- A cluster chain as the list of its clusters, for opening a file and for the cache of
-- `_content_cluster_at` in src/kernel/filesystems/fat.c.
use cordell_os.Base.{
  ℕ, zero, suc, ◌+◌, ◌-◌, ◌^◌, ◌<◌, ◌≤◌, ◌≡◌, refl, ◌∙◌, ap, ◌≢◌, ◌⊎◌, inl, inr, Bool, true, false,
  not, ◌||◌, ◌&&◌, Option, none, some, List, [], ◌∷◌, arith, ◌==◌, ltb, leb, if◌then◌else◌,
  Bool-cases, length, get_or,
}
use native.Mathlib.Nat.{zero-add}
use cordell_os.Fat.Volume.{
  Volume, Outcome, done, ◌>>=◌, minus_one, end_cluster_32, bad_cluster_32, is_cluster_end,
}
use cordell_os.Fat.Table.{IsMounted, entry, read_fat-entry}
use cordell_os.Fat.Content.{
  File, counted, is_negative, count_clusters, fill_table, opened, open_file, step_clusters,
  walk_from, look_up, content_cluster_at,
}

-- From `c` the entries lead through the clusters `cs` of the table to an end-of-chain value.
abbrev pub IsChain : Volume → ℕ → List ℕ → Type 0
IsChain v c [] = end_cluster_32 ≤ c × (c < 2 ^ 28)
IsChain v c (x ∷ xs) = (c ≡ x) × (2 ≤ x) × (x < v.fat.total_clusters) × IsChain v (entry v x) xs

module _ {v : Volume} (ok : IsMounted v) where
  -- No entry on the way is the bad-cluster mark or a read error.
  chain_start : (c : ℕ) (cs : List ℕ) → IsChain v c cs → (c ≢ bad_cluster_32) × (c < 2 ^ 28)
  chain_start c [] h = omega arith
  chain_start c (x ∷ xs) h = omega (arith, ok.few)

  count_clusters-chain :
      (fuel c n : ℕ) (cs : List ℕ)
      → IsChain v c cs
      → length cs < fuel
      → count_clusters v fuel c n ≡ done (counted (n + length cs))
  unfolding count_clusters
  count_clusters-chain zero c n cs h f = absurd (omega arith)
  count_clusters-chain (suc fuel) c n [] h f = ground arith
  count_clusters-chain (suc fuel) c n (x ∷ xs) (e, lo, hi, rest) f =
      let inside : (is_negative x || ltb x end_cluster_32) ≡ true = ground (arith, ok.few) in
      let start = chain_start (entry v x) xs rest in
      let good : (entry v x == bad_cluster_32) ≡ false = ground arith in
      let readable : (entry v x == minus_one) ≡ false = ground arith in
      rw (e, inside, read_fat-entry ok x lo hi, good, readable)
        (count_clusters-chain fuel (entry v x) (n + 1) xs rest (omega arith)
          ∙ ap (λ k. done (counted k)) (omega arith))

  fill_table-chain : (c : ℕ) (cs : List ℕ) → IsChain v c cs → fill_table v (length cs) c ≡ done cs
  unfolding fill_table
  fill_table-chain c [] h = refl
  fill_table-chain c (x ∷ xs) (e, lo, hi, rest) =
      rw (e, read_fat-entry ok x lo hi, fill_table-chain (entry v x) xs rest) refl

-- The file that `FAT_open_content` fills in for the chain `cs` from `c` on.
abbrev pub file_of : Bool → ℕ → List ℕ → File
file_of has_memory c cs = record {
  data_size = length cs;
  first_cluster = c;
  cached_cluster_index = 0;
  cached_cluster = c;
  cluster_table = if ltb 0 (length cs) && has_memory then some cs else none;
  cluster_table_size = length cs;
}

-- On a mounted volume, for a chain `cs` from `c` on and fuel for one more round than it has
-- clusters, opening a file succeeds: the file has one cluster of data for each cluster of the
-- chain, and its table, where there is memory for one, lists exactly the chain.
pub open_file-chain :
    {v : Volume} (ok : IsMounted v) (has_memory : Bool) (fuel c : ℕ) (cs : List ℕ)
    → IsChain v c cs
    → length cs < fuel
    → open_file v has_memory fuel c ≡ done (opened (file_of has_memory c cs))
unfolding open_file
open_file-chain ok has_memory fuel c cs h f =
    rw (count_clusters-chain ok fuel c 0 cs h f, zero-add (length cs), fill_table-chain ok c cs h)
      (elim (Bool-cases (ltb 0 (length cs) && has_memory)) [ inl e ↦ rw e | inr e ↦ rw e ])

module _ {v : Volume} (ok : IsMounted v) where
  -- The clusters of a chain lie in the table, and each entry but the last is the next cluster.
  pub chain_at :
      (c j : ℕ) (cs : List ℕ)
      → IsChain v c cs
      → j < length cs
      → (2 ≤ get_or cs j 0)
        × (get_or cs j 0 < v.fat.total_clusters)
        × (suc j < length cs → entry v (get_or cs j 0) ≡ get_or cs (suc j) 0)
  chain_at c j [] h lt = absurd (omega arith)
  chain_at c zero (x ∷ []) h lt = (h.1, h.2, λ p. absurd (omega arith))
  chain_at c zero (x ∷ y ∷ ys) h lt = (h.1, h.2, λ p. h.3.0)
  chain_at c (suc j) (x ∷ xs) h lt =
      let (lo, hi, next) = chain_at (entry v x) j xs h.3 (omega arith) in
      (lo, hi, λ p. next (omega arith))

  step_clusters-chain :
      (c left s : ℕ) (cs : List ℕ)
      → IsChain v c cs
      → s + left < length cs
      → step_clusters v left (get_or cs s 0) ≡ done (some (get_or cs (s + left) 0))
  unfolding step_clusters
  step_clusters-chain c zero s cs h lt = ap (λ k. done (some (get_or cs k 0))) (omega arith)
  step_clusters-chain c (suc left) s cs h lt =
      let (lo, hi, next) = chain_at c s cs h (omega arith) in
      let (lo', hi', _) = chain_at c (suc s) cs h (omega arith) in
      let go_on : (is_negative (get_or cs (suc s) 0) || is_cluster_end v.fat (get_or cs (suc s) 0))
          ≡ false =
        unfold is_cluster_end in ground (arith, ok.few, ok.fat32) in
      rw (read_fat-entry ok (get_or cs s 0) lo hi, next (omega arith), go_on)
        (step_clusters-chain c left (suc s) cs h (omega arith)
          ∙ ap (λ k. done (some (get_or cs k 0))) (omega arith))

chain_head :
    (v : Volume) (c i : ℕ) (cs : List ℕ) → IsChain v c cs → i < length cs → c ≡ get_or cs 0 0
chain_head v c i [] h lt = absurd (omega arith)
chain_head v c i (x ∷ xs) h lt = h.0

and_false : (b : Bool) → (b && false) ≡ false
and_false true = refl
and_false false = refl

-- The fields of `f` agree with the chain `cs`: the table, if there is one, and the cached cluster,
-- if there is one.
pub record IsFileOf (v : Volume) (cs : List ℕ) (f : File) : Type 0 where
  pub chain : IsChain v f.first_cluster cs
  pub size : f.data_size ≡ length cs
  pub small : length cs < 2 ^ 31
  pub table :
      (f.cluster_table ≡ none) ⊎ ((f.cluster_table ≡ some cs) × (f.cluster_table_size ≡ length cs))
  pub cache :
      (f.cached_cluster_index ≡ minus_one)
      ⊎ ((f.cached_cluster_index < length cs)
          × (f.cached_cluster ≡ get_or cs f.cached_cluster_index 0))

abbrev pub cached_at : File → ℕ → ℕ → File
cached_at f i c = record f { cached_cluster_index = i; cached_cluster = c }

module _ {v : Volume} (ok : IsMounted v) {cs : List ℕ} {f : File} (is : IsFileOf v cs f) where
  steps :
      (s i c : ℕ)
      → s ≤ i
      → i < length cs
      → c ≡ get_or cs s 0
      → step_clusters v (i - s) c ≡ done (some (get_or cs i 0))
  steps s i c le lt e = rw e (
      step_clusters-chain ok f.first_cluster (i - s) s cs is.chain (omega arith)
      ∙ ap (λ k. done (some (get_or cs k 0))) (omega arith))

  walk_from-chain :
      (i : ℕ)
      → i < length cs
      → walk_from v f i ≡ done (some (get_or cs i 0, cached_at f i (get_or cs i 0)))
  unfolding walk_from
  walk_from-chain i lt = elim (Bool-cases (leb f.cached_cluster_index i)) [
    | inr past ↦
        rw (past, and_false (not (f.cached_cluster_index == minus_one)))
          (ap remember (
            steps 0 i f.first_cluster (omega arith) lt
              (chain_head v f.first_cluster i cs is.chain lt)))
    | inl before ↦ elim is.cache [
      | inl empty ↦
          let off : (f.cached_cluster_index == minus_one) ≡ true = ground arith in
          rw (before, off)
            (ap remember (
              steps 0 i f.first_cluster (omega arith) lt
                (chain_head v f.first_cluster i cs is.chain lt)))
      | inr (inside, same) ↦
          let on : (f.cached_cluster_index == minus_one) ≡ false = ground (arith, is.small) in
          rw (before, on)
            (ap remember (steps f.cached_cluster_index i f.cached_cluster (ground arith) lt same))
    ]
  ]
    where
      remember : Outcome (Option ℕ) → Outcome (Option (ℕ × File))
      remember m =
          m >>= λ found. elim found [ none ↦ done none | some c ↦ done (some (c, cached_at f i c)) ]

  -- For a file over the chain `cs` the cluster at each index below the chain's length is found,
  -- whatever is cached and whether there is a table or not; the cache then holds it, and the file
  -- is still one over that chain.
  pub content_cluster_at-chain :
      (i : ℕ)
      → i < length cs
      → (content_cluster_at v f i ≡ done (some (get_or cs i 0, cached_at f i (get_or cs i 0))))
        × IsFileOf v cs (cached_at f i (get_or cs i 0))
  unfolding content_cluster_at look_up
  content_cluster_at-chain i lt = (
    elim is.table [
      | inl empty ↦ ap (look_up v f i) empty ∙ walk_from-chain i lt
      | inr (full, size) ↦
          let found : ltb i f.cluster_table_size ≡ true = ground arith in
          ap (look_up v f i) full ∙ rw found refl
    ],
    record {
      chain = is.chain;
      size = is.size;
      small = is.small;
      table = is.table;
      cache = inr (lt, refl);
    },
  )
