-- ===== src/Fat/Delete.antt =====
-- The loop of `FAT_delete_content` against the entries of a chain.
use cordell_os.Base.{
  ℕ, zero, suc, ◌<◌, ◌≤◌, ◌≡◌, refl, sym, ◌∙◌, ap, inl, inr, Bool, true, false, ◌||◌, some, List,
  [], ◌∷◌, arith, ◌==◌, ltb, if◌then◌else◌, Bool-cases, length,
}
use cordell_os.Fat.Volume.{Volume, done, end_cluster_32}
use cordell_os.Fat.Table.{IsMounted, entry, read_fat-entry}
use cordell_os.Fat.Allocate.{Updated, cluster_deallocate_lem}
use cordell_os.Fat.Content.{delete_clusters}
use cordell_os.Fat.Chain.{IsChain}

-- Whether `k` is in the list.
unfoldable pub has : List ℕ → ℕ → Bool
has [] k = false
has (x ∷ xs) k = (k == x) || has xs k

-- A cluster that a chain passes starts a chain that is no longer.
suffix :
    (v : Volume) (c x : ℕ) (cs : List ℕ)
    → IsChain v c cs
    → has cs x ≡ true
    → (ys : List ℕ) × IsChain v x ys × (length ys ≤ length cs)
unfolding has
suffix v c x [] h there = ground arith
suffix v c x (y ∷ ys) h there = elim (Bool-cases (x == y)) [
  | inl same ↦ let e : x ≡ y = ground arith in (y ∷ ys, (e, h.1, h.2, h.3), omega arith)
  | inr other ↦
      let (zs, chain, le) = suffix v (entry v y) x ys h.3 (ground arith) in (zs, chain, omega arith)
]

-- Two chains from one cluster are equally long.
chain-length :
    {v : Volume} (ok : IsMounted v) (c : ℕ) (xs ys : List ℕ)
    → IsChain v c xs
    → IsChain v c ys
    → length xs ≡ length ys
chain-length ok c [] [] h h' = refl
chain-length ok c [] (y ∷ ys) h h' = absurd (omega (arith, ok.few))
chain-length ok c (x ∷ xs) [] h h' = absurd (omega (arith, ok.few))
chain-length {v} ok c (x ∷ xs) (y ∷ ys) h h' =
    let e : y ≡ x = sym h'.0 ∙ h.0 in
    ap suc (chain-length ok (entry v x) xs ys h.3 (rw (sym e) h'.3))

-- A chain that ends does not pass a cluster twice.
no_return :
    {v : Volume} (ok : IsMounted v) (c x : ℕ) (xs : List ℕ)
    → IsChain v c (x ∷ xs)
    → has xs x ≡ false
no_return {v} ok c x xs h = elim (Bool-cases (has xs x)) [
  | inr away ↦ away
  | inl there ↦
      let (ys, chain, le) = suffix v (entry v x) x xs h.3 there in
      absurd (omega (arith, chain-length ok x (x ∷ xs) ys (refl, h.1, h.2, h.3) chain))
]

-- A chain not through `x` is still one after an update of `x`'s entry.
IsChain-Updated :
    {v w : Volume} {x y : ℕ} (up : Updated v x y w)
    → (c : ℕ) (cs : List ℕ) → IsChain v c cs
    → has cs x ≡ false
    → IsChain w c cs
unfolding has
IsChain-Updated up c [] h out = h
IsChain-Updated {v} {w} {x} {y} up c (a ∷ rest_of) (e, lo, hi, rest) out =
    let apart : (a == x) ≡ false = ground arith in
    let same : entry w a ≡ entry v a = up.entries a hi ∙ rw apart refl in
    (
      e,
      lo,
      rw (ap (λ f. f.total_clusters) up.same_fat) hi,
      rw same (IsChain-Updated up (entry v a) rest_of rest (ground arith)),
    )

-- What the deletion of the clusters `cs` has done.
pub record Deleted (v : Volume) (cs : List ℕ) (w : Volume) : Type 0 where
  pub mounted : IsMounted w
  pub same_fat : w.fat ≡ v.fat
  pub entries : (k : ℕ) → k < v.fat.total_clusters → entry w k ≡ (if has cs k then 0 else entry v k)

-- On a mounted volume, for a chain `cs` from `c` on and fuel for one more round than it has
-- clusters, the loop succeeds; then the entries of exactly the clusters of `cs` are
-- free, and every other entry of the table is as before.
pub delete_clusters-chain :
    (fuel : ℕ) {v : Volume} (ok : IsMounted v) (c : ℕ) (cs : List ℕ)
    → IsChain v c cs
    → length cs < fuel
    → (w : Volume) × (delete_clusters v fuel c ≡ done (some (true, w))) × Deleted v cs w
unfolding delete_clusters has
delete_clusters-chain zero ok c cs h f = absurd (omega arith)
delete_clusters-chain (suc fuel) {v} ok c [] h f =
    let stop : ltb c end_cluster_32 ≡ false = ground arith in
    (v, rw stop refl, record { mounted = ok; same_fat = refl; entries = λ k p. refl })
delete_clusters-chain (suc fuel) {v} ok c (x ∷ xs) (e, lo, hi, rest) f =
    let go : ltb x end_cluster_32 ≡ true = ground (arith, ok.few) in
    let (u, freed, up) = cluster_deallocate_lem ok x lo hi in
    let (w, run, deleted) =
      delete_clusters-chain fuel up.mounted (entry v x) xs
        (IsChain-Updated up (entry v x) xs rest (no_return ok c x xs (e, lo, hi, rest)))
        (omega arith) in
    let same = ap (λ f. f.total_clusters) up.same_fat in
    (
      w,
      rw (e, go, read_fat-entry ok x lo hi, freed) run,
      record {
        mounted = deleted.mounted;
        same_fat = deleted.same_fat ∙ up.same_fat;
        entries = λ k p. deleted.entries k (rw same p) ∙ (elim (Bool-cases (has xs k)) [
          | inl there ↦ ground arith
          | inr away ↦ ground (arith, up.entries k p)
        ]);
      },
    )
