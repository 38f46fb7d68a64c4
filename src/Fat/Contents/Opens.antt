-- ===== src/Fat/Contents/Opens.antt =====
-- `FAT_open_content` of src/kernel/filesystems/fat.c at a path that leads to a file.
use cordell_os.Base.{
  ℕ, ◌<◌, ◌≡◌, ap, inl, inr, Bool, true, false, none, some, List, [], arith, length, set, ◌==◌,
}
use cordell_os.Fat.Volume.{Volume, done}
use cordell_os.Fat.Table.{IsMounted}
use cordell_os.Fat.Chain.{IsChain, file_of, open_file-chain}
use cordell_os.Fat.Change.{cluster_of}
use cordell_os.Fat.Names.Stored.{stored_name}
use cordell_os.Fat.Path.{at_entry, walk_path}
use cordell_os.Fat.Contents.{
  Content, Table, file_body, reset_content, allocate_content_slot, get_content, descriptor,
  store_entry, open_content, is_directory, parent_of,
}
use cordell_os.Fat.Contents.Slots.{Free, first_free_lem, set-set}

-- The content of a file: the chain `cs` of its clusters, its name and extension, its entry, and where it
-- was found.
abbrev pub content_of : Volume → Bool → List ℕ → List ℕ → ℕ → List ℕ → List ℕ × List ℕ → Content
content_of v has_memory path e cluster cs (name, extension) = record {
  body = file_body (file_of has_memory (cluster_of v.fat e) cs) name extension;
  parent_cluster = parent_of path cluster;
  meta = e;
}

-- On a mounted volume, where the walk along the path ends at the entry of a file, the text of its name
-- has room in 13 bytes and two tokens, the clusters of the file are a chain, the fuel is for one more
-- round than it has clusters and a descriptor is free, `FAT_open_content` succeeds: it gives the first
-- free descriptor, at which the table then has the file with the two tokens as its name and extension
-- and with exactly the clusters of the chain, and every other descriptor is as it was.
pub open_content-file :
    {v : Volume} (ok : IsMounted v) (has_memory : Bool) (fuel : ℕ) (path : List ℕ) (t : Table)
    (e : List ℕ) (cluster : ℕ) (cs : List ℕ) (names : List ℕ × List ℕ)
    → ((j : ℕ) × (j < length t) × (get_content t j ≡ none))
    → walk_path v fuel path [] 0 0 v.fat.ext_root_cluster ≡ done (at_entry e cluster)
    → is_directory e ≡ false
    → stored_name e ≡ some names
    → IsChain v (cluster_of v.fat e) cs
    → length cs < fuel
    → (fd : ℕ) × Free t fd
      × (open_content v has_memory fuel path t
          ≡ done (descriptor fd, set t fd (some (content_of v has_memory path e cluster cs names))))
unfolding open_content allocate_content_slot store_entry
open_content-file {v} ok has_memory fuel path t e cluster cs names (j, below, empty) walked file
      named chain enough =
    elim (first_free_lem t) [
      | inl (full, used) ↦ let (c, there) = used j below in absurd (ground arith)
      | inr (fd, first, free) ↦
          let fat32 : (v.fat.fat_type == 32) ≡ true = ground (arith, ok.fat32) in
          (
            fd,
            free,
            rw
                (
                  first,
                  fat32,
                  walked,
                  file,
                  open_file-chain ok has_memory fuel (cluster_of v.fat e) cs chain enough,
                  named,
                )
                (ap (λ t'. done (descriptor fd, t')) (set-set t fd (some reset_content) _)),
          )
    ]
