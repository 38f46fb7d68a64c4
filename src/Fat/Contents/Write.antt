-- ===== src/Fat/Contents/Write.antt =====
-- The writing of a file in src/kernel/filesystems/fat.c: `_add_cluster_to_content`, `_cluster_writeoff`
-- and `FAT_write_buffer2content`. What is sent to the drive is a list of transfers.
use cordell_os.Base.{
  ℕ, zero, suc, ◌+◌, ◌-◌, ◌*◌, ◌/◌, ◌%◌, Bool, true, false, ◌&&◌, ◌||◌, Option, none, some, List,
  [], ◌++◌, ltb, leb, ◌==◌, if◌then◌else◌, drop, min, u32,
}
use cordell_os.Ata.{sector_size}
use cordell_os.Ata.Writeoff.{writeoff_sectors}
use cordell_os.Fat.Volume.{
  Volume, Outcome, done, halted, ◌>>=◌, minus_one, read_fat, write_fat, is_cluster_end,
  is_cluster_bad, cluster_allocate, cluster_lba,
}
use cordell_os.Fat.Content.{File, is_negative, content_cluster_at}
use cordell_os.Fat.Change.{cluster_of}
use cordell_os.Fat.ReadFile.{start_at}

-- The loop to the end mark of the chain; `none` means that the fuel ran out.
unfoldable pub chain_end : Volume → ℕ → ℕ → Outcome (Option ℕ)
chain_end v zero cluster = done none
chain_end v (suc fuel) cluster =
    let rest = read_fat v cluster >>= λ next. chain_end v fuel next in
    if is_cluster_end v.fat cluster
    then done (some cluster)
    else if is_cluster_bad v.fat cluster || cluster == minus_one
    then halted
    else rest

-- How `_add_cluster_to_content` ends: with a cluster, or with -3.
pub data ClusterGrowth : Type 0 where
  grown : ℕ → File → Volume → ClusterGrowth
  no_cluster : Volume → ClusterGrowth
  growth_fuel : ClusterGrowth

-- The file with one cluster more, without its table.
abbrev pub longer : File → File
longer f = record f {
  data_size = f.data_size + 1;
  cluster_table = none;
  cluster_table_size = elim f.cluster_table [ none ↦ f.cluster_table_size | some t ↦ 0 ];
}

-- The assertion that the new cluster was entered behind the last one.
abbrev pub entered_behind : ℕ → File → Bool × Volume → Outcome ClusterGrowth
entered_behind cluster f (true, w) = done (grown cluster f w)
entered_behind cluster f (false, w) = halted

abbrev pub grow_with : ℕ → File → ℕ × Volume → Outcome ClusterGrowth
grow_with last f (cluster, w) =
    let enter = write_fat w last cluster >>= λ r. entered_behind cluster (longer f) r in
    if cluster == minus_one
    then done (no_cluster w)
    else if is_cluster_bad w.fat cluster
    then halted
    else enter

abbrev pub grow_at : Volume → File → Option ℕ → Outcome ClusterGrowth
grow_at v f none = done growth_fuel
grow_at v f (some last) = cluster_allocate v >>= λ r. grow_with last f r

-- `_add_cluster_to_content` on an open file, whose entry is `e`.
unfoldable pub add_cluster : Volume → ℕ → List ℕ → File → Outcome ClusterGrowth
add_cluster v fuel e f = chain_end v fuel (cluster_of v.fat e) >>= λ o. grow_at v f o

-- `_cluster_writeoff`
unfoldable pub cluster_writeoff : Volume → List ℕ → ℕ → ℕ → ℕ → Outcome (List (ℕ × List ℕ) × Bool)
cluster_writeoff v data_bytes cluster offset size =
    if leb 2 cluster && ltb cluster v.fat.total_clusters
    then done (
        writeoff_sectors v.disk (cluster_lba v.fat cluster) data_bytes v.fat.sectors_per_cluster
          offset size)
    else halted

-- What a run over the clusters of a file has sent, the bytes that it has not, and the file.
pub record Progress : Type 0 where
  pub sent : List (ℕ × List ℕ)
  pub buffer : List ℕ
  pub size : ℕ
  pub file : File

-- The transfers of a round before those of the next ones. The result of `_cluster_writeoff` is not
-- looked at.
abbrev pub sent_before : List (ℕ × List ℕ) → Option Progress → Option Progress
sent_before first none = none
sent_before first (some p) = some (record p { sent = first ++ p.sent })

-- The loop of `FAT_write_buffer2content` over the clusters left; `none` is -1, where what was sent
-- before is not recorded.
unfoldable pub write_clusters :
    Volume → ℕ → File → ℕ → ℕ → List ℕ → ℕ → ℕ → Outcome (Option Progress)
write_clusters v zero f i cluster buffer offset size =
    done (some (record { sent = []; buffer = buffer; size = size; file = f }))
write_clusters v (suc left) f i cluster buffer offset size =
    let cached = record f { cached_cluster_index = i; cached_cluster = cluster } in
    let write_size = min size (v.fat.cluster_size - offset % v.fat.cluster_size) in
    let round = cluster_writeoff v buffer cluster offset write_size >>= λ (first, ok).
    read_fat v cluster >>= λ next.
    write_clusters v left cached (i + 1) next (drop write_size buffer) 0 (size - write_size)
    >>= λ r. done (sent_before first r) in
    if size == 0
    then done (some (record { sent = []; buffer = buffer; size = 0; file = f }))
    else if is_negative cluster
    then done none
    else round

-- How `FAT_write_buffer2content` ends: with 1, with -1 or with -3; and the transfers.
pub data Written : Type 0 where
  written : List (ℕ × List ℕ) → File → Volume → Written
  write_failed : Written
  no_room : List (ℕ × List ℕ) → Written
  write_fuel : Written

-- The result of the call that writes the rest.
abbrev pub and_before : List (ℕ × List ℕ) → Written → Written
and_before first (written sent f v) = written (first ++ sent) f v
and_before first write_failed = write_failed
and_before first (no_room sent) = no_room (first ++ sent)
and_before first write_fuel = write_fuel

-- Bytes that are left over need a new cluster, and a call for the rest.
abbrev pub write_rest :
    (Volume → File → List ℕ → ℕ → ℕ → Outcome Written)
    → ℕ
    → ℕ
    → Progress
    → ClusterGrowth
    → Outcome Written
write_rest again offset size p (grown cluster f w) =
    again w f p.buffer (u32 (offset + (size - p.size))) p.size >>= λ r. done (and_before p.sent r)
write_rest again offset size p (no_cluster w) = done (no_room p.sent)
write_rest again offset size p growth_fuel = done write_fuel

-- From the end of the loop on.
abbrev pub write_ended :
    (Volume → File → List ℕ → ℕ → ℕ → Outcome Written)
    → Volume
    → ℕ
    → List ℕ
    → ℕ
    → ℕ
    → Option Progress
    → Outcome Written
write_ended again v fuel e offset size none = done write_failed
write_ended again v fuel e offset size (some p) =
    let more = add_cluster v fuel e p.file >>= λ g. write_rest again offset size p g in
    if p.size == 0 then done (written p.sent p.file v) else more

-- `FAT_write_buffer2content` on an open file, over the calls that it may make of itself.
unfoldable pub write_buffer2content :
    ℕ → ℕ → List ℕ → Volume → File → List ℕ → ℕ → ℕ → Outcome Written
write_buffer2content zero fuel e v f buffer offset size = done write_fuel
write_buffer2content (suc calls) fuel e v f buffer offset size =
    let cluster_seek = offset / u32 (v.fat.sectors_per_cluster * sector_size) in
    content_cluster_at v f cluster_seek >>= λ found.
    write_clusters v (f.data_size - cluster_seek) (start_at f found).1 cluster_seek
      (start_at f found).0 buffer offset size
    >>= λ r. write_ended (write_buffer2content calls fuel e) v fuel e offset size r
