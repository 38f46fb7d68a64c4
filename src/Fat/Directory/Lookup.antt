-- ===== src/Fat/Directory/Lookup.antt =====
-- `_directory_search` of src/kernel/filesystems/fat.c against a search in the list of the entries.
use cordell_os.Base.{
  ℕ, zero, suc, ◌+◌, ◌-◌, ◌*◌, ◌<◌, ◌≤◌, ◌≡◌, refl, sym, ap, ◌∙◌, inl, inr, Bool, true, ◌&&◌, List,
  [], ◌∷◌, ◌++◌, map, arith, ltb, lt→ltb, leb, if◌then◌else◌, Bool-cases, length, length-append,
  u32, replicate,
}
use mathlib.Core.Path.{subst}
use cordell_os.Text.{strlen}
use cordell_os.Ata.{sector_size}
use cordell_os.Fat.Volume.{Volume, done}
use cordell_os.Fat.Table.{IsMounted}
use cordell_os.Fat.Directory.{
  Cursor, meta, cursor_open, scan_opened, scan_directory, is_end, is_named, is_target, Search,
  entry_at, not_found, searched, search_entry, search_name, converted_name, directory_search,
}
use cordell_os.Fat.Directory.Places.{
  sector_places, cluster_places, chain_places, first_place, last_cluster, IsDirectory, load_place,
}
use cordell_os.Fat.Directory.FindPlace.{places_start, scan_place}

-- A loop over a directory finds the first place that passes its test.
pub scan_directory-places :
    (v : Volume) (test : List ℕ → Bool) (fuel x : ℕ) (xs : List ℕ)
    → IsMounted v
    → 0 < v.fat.sectors_per_cluster
    → IsDirectory v x (x ∷ xs)
    → length (chain_places v (x ∷ xs) 0) ≤ fuel
    → scan_directory v test fuel x
      ≡ done (first_place test (last_cluster x xs) (chain_places v (x ∷ xs) 0))
unfolding scan_directory cursor_open chain_places
scan_directory-places v test fuel x xs ok some_sectors (at, lo, hi, good, dir) le =
    let spc = v.fat.sectors_per_cluster in
    let start = load_place v x 0 0 0 (replicate sector_size 0) good some_sectors in
    let all = places_start v x 0 spc (spc - 1) 0 (0 + spc * 16) xs (omega arith) refl in
    let zero_index : u32 0 ≡ 0 = omega arith in
    ap (scan_opened v test fuel) start
    ∙ scan_place v ok some_sectors test fuel x 0 0 15 (spc - 1) 0 xs refl (omega arith) lo hi good
        dir (omega (arith, ap length all, le))
    ∙ ap (λ t. done (first_place test (last_cluster x xs) t)) (sym all)

-- The entries of a directory, in their order.
abbrev pub entries : Volume → List ℕ → List (List ℕ)
entries v cs = map meta (chain_places v cs 0)

-- The first entry of the name before the end of the directory, with its number.
unfoldable pub lookup : List ℕ → ℕ → List (List ℕ) → Search
lookup name i [] = not_found
lookup name i (e ∷ es) =
    let rest = lookup name (i + 1) es in
    if is_end e then not_found else if is_named name e then entry_at e (u32 i) else rest

-- The numbers of places count up from `i`.
abbrev IsCounted : ℕ → List Cursor → Type 0
IsCounted i [] = Unit
IsCounted i (c ∷ cs) = (c.index ≡ u32 i) × IsCounted (i + 1) cs

append-IsCounted :
    (i j : ℕ) (cs ds : List Cursor)
    → j ≡ i + length cs
    → IsCounted i cs
    → IsCounted j ds
    → IsCounted i (cs ++ ds)
append-IsCounted i j [] ds e h k = subst (λ n. IsCounted n ds) (omega (arith, e)) k
append-IsCounted i j (c ∷ cs) ds e (here, h) k =
    (here, append-IsCounted (i + 1) j cs ds (omega (arith, e)) h k)

sector_places-IsCounted :
    (v : Volume) (cl s e left i : ℕ)
    → IsCounted i (sector_places v cl s e left i) × (length (sector_places v cl s e left i) ≡ left)
unfolding sector_places
sector_places-IsCounted v cl s e zero i = (tt, refl)
sector_places-IsCounted v cl s e (suc left) i =
    let (counted, len) = sector_places-IsCounted v cl s (e + 1) left (i + 1) in
    ((refl, counted), ap (λ n. suc n) len)

cluster_places-IsCounted :
    (v : Volume) (cl s left i : ℕ)
    → IsCounted i (cluster_places v cl s left i)
      × (length (cluster_places v cl s left i) ≡ left * 16)
unfolding cluster_places
cluster_places-IsCounted v cl s zero i = (tt, refl)
cluster_places-IsCounted v cl s (suc left) i =
    let (here, here_length) = sector_places-IsCounted v cl s 0 16 i in
    let (rest, rest_length) = cluster_places-IsCounted v cl (s + 1) left (i + 16) in
    (
      append-IsCounted i (i + 16) (sector_places v cl s 0 16 i)
          (cluster_places v cl (s + 1) left (i + 16)) (omega (arith, here_length)) here rest,
      length-append (sector_places v cl s 0 16 i) (cluster_places v cl (s + 1) left (i + 16))
          ∙ omega (arith, here_length, rest_length),
    )

chain_places-IsCounted : (v : Volume) (cs : List ℕ) (i : ℕ) → IsCounted i (chain_places v cs i)
unfolding chain_places
chain_places-IsCounted v [] i = tt
chain_places-IsCounted v (c ∷ cs) i =
    let spc = v.fat.sectors_per_cluster in
    let (here, here_length) = cluster_places-IsCounted v c 0 spc i in
    append-IsCounted i (i + spc * 16) (cluster_places v c 0 spc i)
      (chain_places v cs (i + spc * 16)) (omega (arith, here_length)) here
      (chain_places-IsCounted v cs (i + spc * 16))

-- The first place that ends the search is the entry that `lookup` finds.
searched-first_place :
    (name : List ℕ) (last i : ℕ) (cs : List Cursor)
    → IsCounted i cs
    → searched (first_place (is_target name) last cs) ≡ lookup name i (map meta cs)
unfolding first_place lookup
searched-first_place name last i [] h = refl
searched-first_place name last i (c ∷ cs) (index, h) = elim (Bool-cases (is_end (meta c))) [
  | inl over ↦ simp over refl
  | inr more ↦ elim (Bool-cases (is_named name (meta c))) [
    | inl hit ↦ simp (more, hit) (ap (λ k. entry_at (meta c) k) index)
    | inr miss ↦ simp (more, miss) (searched-first_place name last (i + 1) cs h)
  ]
]

-- On a mounted volume with at least one sector in a cluster, for a directory whose clusters can be
-- read and whose chain ends with the mark 0x0ffffff8, and with fuel for as many rounds as it has
-- entries, `_directory_search` for a text of at most 12 characters returns the first entry with the
-- name it looks for and the number of that entry, modulo 2^32; where there is none before the end of
-- the directory, it reports that.
pub directory_search_lem :
    (v : Volume) (part : List ℕ) (fuel x : ℕ) (xs : List ℕ)
    → IsMounted v
    → 0 < v.fat.sectors_per_cluster
    → IsDirectory v x (x ∷ xs)
    → length (chain_places v (x ∷ xs) 0) ≤ fuel
    → strlen part < 13
    → directory_search v part fuel x ≡ done (lookup (converted_name part) 0 (entries v (x ∷ xs)))
unfolding directory_search search_entry search_name
directory_search_lem v part fuel x xs ok some_sectors dir le short =
    let room : ltb (strlen part) 13 ≡ true = lt→ltb (strlen part) 13 short in
    let (at, lo, hi, good, rest) = dir in
    let inside : (leb 2 x && ltb x v.fat.total_clusters) ≡ true = ground arith in
    let name = converted_name part in
    let scanned = scan_directory-places v (is_target name) fuel x xs ok some_sectors dir le in
    rw (room, inside, scanned)
      (ap done (
        searched-first_place name (last_cluster x xs) 0 (chain_places v (x ∷ xs) 0)
          (chain_places-IsCounted v (x ∷ xs) 0)))
