-- ===== src/Fat/Path.antt =====
-- The walk along a path in src/kernel/filesystems/fat.c, which `FAT_content_exists`,
-- `FAT_open_content` and `FAT_change_meta` share, and two functions that stand on it. A component is
-- copied to a buffer of 256 bytes, and its start is kept in 16 bits.
use native.Mathlib.Nat.{mod-eq_of_lt}
use cordell_os.Base.{
  ℕ, ◌+◌, ◌-◌, ◌^◌, ◌<◌, ap₂, arith, true, ltb, u16, length, length-append, ◌≡◌, refl, ap, ◌∙◌, sym,
  false, List, [], ◌∷◌, ◌++◌, append-nil, append_assoc, ◌==◌, if◌then◌else◌,
}
use cordell_os.Fat.Volume.{Volume, Outcome, done, halted, ◌>>=◌}
use cordell_os.Fat.Directory.{
  Search, entry_at, not_found, search_failed, search_fuel, directory_search,
}
use cordell_os.Fat.Change.{
  Datetime, Change, changed, missing, failed, change_fuel, cluster_of, directory_edit,
}

-- How the walk ends: at an entry of a directory, or with the result of the search that found none.
pub data Walked : Type 0 where
  at_entry : List ℕ → ℕ → Walked
  no_entry : Walked
  broken : Walked
  walk_fuel : Walked

-- What the last search of a walk gives, in the directory at a cluster.
abbrev pub arrived : ℕ → Search → Walked
arrived cluster (entry_at e i) = at_entry e cluster
arrived cluster not_found = no_entry
arrived cluster search_failed = broken
arrived cluster search_fuel = walk_fuel

-- The walk goes on from an entry.
abbrev pub follow : (List ℕ → Outcome Walked) → Search → Outcome Walked
follow next (entry_at e i) = next e
follow next not_found = done no_entry
follow next search_failed = done broken
follow next search_fuel = done walk_fuel

-- The search for a component that was copied to the buffer. A copy of 256 bytes or more leaves no end
-- in it or goes past it.
abbrev pub search_part : Volume → ℕ → List ℕ → ℕ → ℕ → ℕ → Outcome Search
search_part v fuel part start iterator cluster =
    if ltb (iterator - start) 256 then directory_search v part fuel cluster else halted

-- The loop over the characters left, with the component read so far, `start`, which wraps around in
-- 16 bits, `iterator` and the active cluster. Where `start` has wrapped, the copy is too long.
unfoldable pub walk_path : Volume → ℕ → List ℕ → List ℕ → ℕ → ℕ → ℕ → Outcome Walked
walk_path v fuel [] part start iterator cluster =
    search_part v fuel part start iterator cluster >>= λ r. done (arrived cluster r)
walk_path v fuel (c ∷ path) part start iterator cluster =
    let found = search_part v fuel part start iterator cluster in
    let stop = found >>= λ r. done (arrived cluster r) in
    let deeper = found >>= λ r.
    follow (λ e. walk_path v fuel path [] (u16 (iterator + 1)) (iterator + 1) (cluster_of v.fat e))
      r in
    let longer = walk_path v fuel path (part ++ c ∷ []) start (iterator + 1) cluster in
    if c == 0 then stop else if c == b'\\' then deeper else longer

-- How `FAT_content_exists` ends: with 1, with 0 or with -1.
pub data Existence : Type 0 where
  present : Existence
  absent : Existence
  unsupported : Existence
  existence_fuel : Existence

abbrev pub existence : Walked → Existence
existence (at_entry e cluster) = present
existence no_entry = absent
existence broken = absent
existence walk_fuel = existence_fuel

unfoldable pub content_exists : Volume → ℕ → List ℕ → Outcome Existence
content_exists v fuel path =
    if v.fat.fat_type == 32
    then (walk_path v fuel path [] 0 0 v.fat.ext_root_cluster >>= λ w. done (existence w))
    else done unsupported

-- `FAT_change_meta` past the walk: the entry found is renamed in its directory, where -2 of the
-- edit is passed on as -1.
unfoldable pub renamed : Volume → (ℕ → Datetime) → List ℕ → ℕ → Walked → Outcome Change
renamed v clock new_name fuel (at_entry e cluster) =
    directory_edit v clock e new_name fuel cluster >>= λ r. elim r [
      | changed w ↦ done (changed w)
      | missing ↦ done (failed v)
      | failed w ↦ done (failed w)
      | change_fuel ↦ done change_fuel
    ]
renamed v clock new_name fuel no_entry = done missing
renamed v clock new_name fuel broken = done (failed v)
renamed v clock new_name fuel walk_fuel = done change_fuel

-- `FAT_change_meta` for a path that is not empty. For the empty path the source edits a cluster 0
-- with an entry of which it has set a part.
unfoldable pub change_meta : Volume → (ℕ → Datetime) → List ℕ → List ℕ → ℕ → Outcome Change
change_meta v clock path new_name fuel =
    if v.fat.fat_type == 32
    then (walk_path v fuel path [] 0 0 v.fat.ext_root_cluster >>= λ w.
        renamed v clock new_name fuel w)
    else done (failed v)

-- A component of a path: it has no separator and no end.
abbrev pub IsComponent : List ℕ → Type 0
IsComponent [] = Unit
IsComponent (c ∷ cs) = ((c == 0) ≡ false) × ((c == b'\\') ≡ false) × IsComponent cs

-- The components have room in the buffer.
abbrev pub AreComponents : List (List ℕ) → Type 0
AreComponents [] = Unit
AreComponents (p ∷ ps) = IsComponent p × (length p < 256) × AreComponents ps

-- Components with a separator before each of them.
abbrev pub joined : List (List ℕ) → List ℕ
joined [] = []
joined (p ∷ ps) = b'\\' ∷ (p ++ joined ps)

-- One search for each component, each in the directory that the one before has found.
unfoldable pub resolve : Volume → ℕ → ℕ → List ℕ → List (List ℕ) → Outcome Walked
resolve v fuel cluster p [] = directory_search v p fuel cluster >>= λ r. done (arrived cluster r)
resolve v fuel cluster p (q ∷ qs) = directory_search v p fuel cluster >>= λ r.
    follow (λ e. resolve v fuel (cluster_of v.fat e) q qs) r

-- The characters of a component are collected.
walk-component :
    (v : Volume) (fuel start iterator cluster : ℕ) (p part path : List ℕ)
    → IsComponent p
    → walk_path v fuel (p ++ path) part start iterator cluster
      ≡ walk_path v fuel path (part ++ p) start (iterator + length p) cluster
unfolding walk_path
walk-component v fuel start iterator cluster [] part path h =
    ap₂ (λ l n. walk_path v fuel path l start n cluster) (sym (append-nil part)) (omega arith)
walk-component v fuel start iterator cluster (c ∷ p) part path (not_end, not_cut, h) =
    rw (not_end, not_cut)
      (walk-component v fuel start (iterator + 1) cluster p (part ++ c ∷ []) path h
        ∙ ap₂ (λ l n. walk_path v fuel path l start n cluster) (append_assoc part (c ∷ []) p)
            (omega arith))

follow_ext :
    (f g : List ℕ → Outcome Walked) (o : Outcome Search)
    → ((e : List ℕ) → f e ≡ g e)
    → (o >>= λ r. follow f r) ≡ (o >>= λ r. follow g r)
follow_ext f g (done (entry_at e i)) h = h e
follow_ext f g (done not_found) h = refl
follow_ext f g (done search_failed) h = refl
follow_ext f g (done search_fuel) h = refl
follow_ext f g halted h = refl

-- The end of a component that has room and whose start has not wrapped.
search_part-room :
    (v : Volume) (fuel start cluster : ℕ) (p : List ℕ)
    → length p < 256
    → search_part v fuel p start (start + length p) cluster ≡ directory_search v p fuel cluster
search_part-room v fuel start cluster p short =
    let room : ltb (start + length p - start) 256 ≡ true = ground arith in rw room refl

walk-separator :
    (v : Volume) (fuel start cluster : ℕ) (p path : List ℕ) (g : List ℕ → Outcome Walked)
    → length p < 256
    → start + length p + 1 < 2 ^ 16
    → ((e : List ℕ)
        → walk_path v fuel path []
            (start + length p + 1)
            (start + length p + 1)
            (cluster_of v.fat e)
          ≡ g e)
    → walk_path v fuel (b'\\' ∷ path) p start (start + length p) cluster
      ≡ (directory_search v p fuel cluster >>= λ r. follow g r)
unfolding walk_path
walk-separator v fuel start cluster p path g short fits h =
    let next = start + length p + 1 in
    let kept : u16 next ≡ next = mod-eq_of_lt fits in
    rw (search_part-room v fuel start cluster p short, kept)
      (follow_ext (λ e. walk_path v fuel path [] next next (cluster_of v.fat e)) g
        (directory_search v p fuel cluster) h)

walk_path_from :
    (v : Volume) (fuel start cluster : ℕ) (p : List ℕ) (ps : List (List ℕ))
    → AreComponents (p ∷ ps)
    → start + length (p ++ joined ps) < 2 ^ 16
    → walk_path v fuel (p ++ joined ps) [] start start cluster ≡ resolve v fuel cluster p ps
unfolding resolve walk_path
walk_path_from v fuel start cluster p [] (h, short, hs) fits =
    walk-component v fuel start start cluster p [] [] h
    ∙ ap (λ m. m >>= λ r. done (arrived cluster r)) (search_part-room v fuel start cluster p short)
walk_path_from v fuel start cluster p (q ∷ qs) (h, short, hs) fits =
    let room : start + length p + 1 + length (q ++ joined qs) < 2 ^ 16 =
      omega (arith, fits, length-append p (joined (q ∷ qs))) in
    walk-component v fuel start start cluster p [] (joined (q ∷ qs)) h
    ∙ walk-separator v fuel start cluster p (q ++ joined qs)
        (λ e. resolve v fuel (cluster_of v.fat e) q qs) short (omega arith)
        (λ e. walk_path_from v fuel (start + length p + 1) (cluster_of v.fat e) q qs hs room)

-- The walk along a path of less than 65536 bytes whose components have less than 256 bytes, no
-- separator and no end in them, is one search for each component, the first in the directory where
-- the walk begins and each other in the directory that the one before it has found; a search that
-- finds nothing ends it.
pub walk_path_lem :
    (v : Volume) (fuel cluster : ℕ) (p : List ℕ) (ps : List (List ℕ))
    → AreComponents (p ∷ ps)
    → length (p ++ joined ps) < 2 ^ 16
    → walk_path v fuel (p ++ joined ps) [] 0 0 cluster ≡ resolve v fuel cluster p ps
walk_path_lem v fuel cluster p ps components fits =
    walk_path_from v fuel 0 cluster p ps components (omega arith)
