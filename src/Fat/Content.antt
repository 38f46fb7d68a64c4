-- ===== src/Fat/Content.antt =====
-- The functions of src/kernel/filesystems/fat.c that walk the cluster chain of a file: the loops of
-- `FAT_open_content` and `FAT_delete_content`, and `_content_cluster_at` with its cache.
use cordell_os.Base.{
  ℕ, zero, suc, ◌+◌, ◌-◌, ◌^◌, Bool, true, false, ◌&&◌, ◌||◌, not, Option, none, some, List, [],
  ◌∷◌, ltb, leb, ◌==◌, if◌then◌else◌, get_or,
}
use cordell_os.Fat.Volume.{
  Volume, Outcome, done, ◌>>=◌, minus_one, end_cluster_32, bad_cluster_32, read_fat, is_cluster_end,
  cluster_deallocate,
}

-- `file_t`; a NULL `cluster_table` is `none`.
pub record File : Type 0 where
  pub data_size : ℕ
  pub first_cluster : ℕ
  pub cached_cluster_index : ℕ
  pub cached_cluster : ℕ
  pub cluster_table : Option (List ℕ)
  pub cluster_table_size : ℕ

-- `(int)x < 0`
abbrev pub is_negative : ℕ → Bool
is_negative x = leb (2 ^ 31) x

-- How the counting loop of `FAT_open_content` ends.
pub data Walk : Type 0 where
  counted : ℕ → Walk
  bad_cluster : Walk
  read_error : Walk
  out_of_fuel : Walk

-- `while (cluster < END_CLUSTER_32)` on an `int`: count, step, check.
unfoldable pub count_clusters : Volume → ℕ → ℕ → ℕ → Outcome Walk
count_clusters v zero cluster size = done out_of_fuel
count_clusters v (suc fuel) cluster size =
    let rest = read_fat v cluster >>= λ next.
    if next == bad_cluster_32
    then done bad_cluster
    else if next == minus_one
    then done read_error
    else count_clusters v fuel next (size + 1) in
    if is_negative cluster || ltb cluster end_cluster_32 then rest else done (counted size)

-- The loop that fills `cluster_table`, over the entries left.
unfoldable pub fill_table : Volume → ℕ → ℕ → Outcome (List ℕ)
fill_table v zero cluster = done []
fill_table v (suc left) cluster =
    read_fat v cluster >>= λ next. fill_table v left next >>= λ rest. done (cluster ∷ rest)

-- What `FAT_open_content` stores for a file that starts at `cluster`, or how the walk failed. The
-- table is `none` where `malloc` returns NULL.
pub data Opened : Type 0 where
  opened : File → Opened
  failed : Walk → Opened

unfoldable pub open_file : Volume → Bool → ℕ → ℕ → Outcome Opened
open_file v has_memory fuel cluster = count_clusters v fuel cluster 0 >>= λ walk. elim walk [
  | counted size ↦
      let file : Option (List ℕ) → File = λ table. record {
        data_size = size;
        first_cluster = cluster;
        cached_cluster_index = 0;
        cached_cluster = cluster;
        cluster_table = table;
        cluster_table_size = size;
      } in
      if ltb 0 size && has_memory
      then fill_table v size cluster >>= (λ table. done (opened (file (some table))))
      else done (opened (file none))
  | bad_cluster ↦ done (failed bad_cluster)
  | read_error ↦ done (failed read_error)
  | out_of_fuel ↦ done (failed out_of_fuel)
]

-- The loop of `FAT_delete_content`. `none` means that the fuel ran out; `false` is the result -1.
unfoldable pub delete_clusters : Volume → ℕ → ℕ → Outcome (Option (Bool × Volume))
delete_clusters v zero cluster = done none
delete_clusters v (suc fuel) cluster =
    let rest = read_fat v cluster >>= λ next. cluster_deallocate v cluster >>= λ (ok, w).
    if ok then delete_clusters w fuel next else done (some (false, w)) in
    if ltb cluster end_cluster_32 then rest else done (some (true, v))

-- The `for` of `_content_cluster_at` over the steps left; `none` is its early return -1.
unfoldable pub step_clusters : Volume → ℕ → ℕ → Outcome (Option ℕ)
step_clusters v zero cluster = done (some cluster)
step_clusters v (suc left) cluster = read_fat v cluster >>= λ next.
    let rest = step_clusters v left next in
    if is_negative next || is_cluster_end v.fat next then done none else rest

-- `_content_cluster_at` past the table. The early return leaves the cache alone.
unfoldable pub walk_from : Volume → File → ℕ → Outcome (Option (ℕ × File))
walk_from v f index =
    let cached = not (f.cached_cluster_index == minus_one) && leb f.cached_cluster_index index in
    let start = if cached then f.cached_cluster_index else 0 in
    let cluster = if cached then f.cached_cluster else f.first_cluster in
    step_clusters v (index - start) cluster >>= λ found. elim found [
      | none ↦ done none
      | some c ↦ done (some (c, record f { cached_cluster_index = index; cached_cluster = c }))
    ]

-- `_content_cluster_at` with the file's table as an argument.
unfoldable pub look_up : Volume → File → ℕ → Option (List ℕ) → Outcome (Option (ℕ × File))
look_up v f index none = walk_from v f index
look_up v f index (some table) =
    if ltb index f.cluster_table_size
    then (let c = get_or table index 0 in
        done (some (c, record f { cached_cluster_index = index; cached_cluster = c })))
    else walk_from v f index

unfoldable pub content_cluster_at : Volume → File → ℕ → Outcome (Option (ℕ × File))
unfolding look_up walk_from
content_cluster_at v f index = look_up v f index f.cluster_table
