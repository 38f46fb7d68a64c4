-- ===== src/Fat/Contents.antt =====
-- The table of open contents in src/kernel/filesystems/fat.c and the calls that go through it. A
-- descriptor is an index into the table; each has its own storage, so that an entry of the table is
-- the content or NULL.
pub mod Slots
pub mod Opens
pub mod Calls
pub mod Write
pub mod Growth
pub mod Balance
mod Tests
use cordell_os.Base.{
  ℕ, zero, suc, ◌+◌, ◌-◌, ◌*◌, ◌/◌, ◌%◌, ◌^◌, Bool, true, false, not, ◌&&◌, ◌||◌, Option, none,
  some, List, [], ◌∷◌, ◌++◌, ltb, leb, ◌==◌, if◌then◌else◌, get_or, set, replicate, bit_and, u32,
  min,
}
use cordell_os.Fat.Volume.{
  Volume, Outcome, done, halted, ◌>>=◌, minus_one, end_cluster_32, read_fat, write_fat,
  is_cluster_end, is_cluster_bad, cluster_allocate,
}
use cordell_os.Fat.Content.{
  File, Walk, counted, bad_cluster, read_error, out_of_fuel, Opened, opened, failed, open_file,
  delete_clusters,
}
use cordell_os.Text.{strncpy}
use cordell_os.Fat.Names.Stored.{stored_name}
use cordell_os.Fat.Change.{cluster_of, Change, changed, directory_remove}
use cordell_os.Fat.Path.{Walked, at_entry, no_entry, broken, walk_fuel, walk_path}

abbrev pub content_table_size : ℕ
content_table_size = 50

-- The union of `content_t` with its tag, a file with its name and extension, a directory with its
-- name; after a reset the pointer is NULL.
pub data Body : Type 0 where
  no_body : Body
  file_body : File → List ℕ → List ℕ → Body
  directory_body : List ℕ → Body

-- `content_t`
pub record Content : Type 0 where
  pub body : Body
  pub parent_cluster : ℕ
  pub meta : List ℕ

-- `_reset_content`
abbrev pub reset_content : Content
reset_content = record { body = no_body; parent_cluster = minus_one; meta = replicate 32 0 }

-- `_content_table`
abbrev pub Table : Type 0
Table = List (Option Content)

-- The loop of `_allocate_content_slot`: the first entry that is NULL.
unfoldable pub first_free : Table → Option ℕ
first_free [] = none
first_free (none ∷ t) = some 0
first_free (some c ∷ t) = elim (first_free t) [ none ↦ none | some i ↦ some (i + 1) ]

abbrev pub claimed : Table → Option ℕ → Option (ℕ × Table)
claimed t none = none
claimed t (some i) = some (i, set t i (some reset_content))

unfoldable pub allocate_content_slot : Table → Option (ℕ × Table)
allocate_content_slot t = claimed t (first_free t)

-- `_release_content_slot`
unfoldable pub release_content_slot : Table → ℕ → Table
release_content_slot t fd = set t fd none

-- `FAT_get_content_from_table`
unfoldable pub get_content : Table → ℕ → Option Content
get_content t ci = get_or t ci none

-- `_remove_content_from_table` and `FAT_close_content`: the result is 1 or -1.
abbrev pub remove_found : Table → ℕ → Option Content → Bool × Table
remove_found t ci none = (false, t)
remove_found t ci (some c) = (true, release_content_slot t ci)

unfoldable pub close_content : Table → ℕ → Bool × Table
close_content t ci = remove_found t ci (get_content t ci)

-- How `FAT_open_content` ends: with a descriptor, or with -1, -2, -3, -4, -7 or -8.
pub data Open : Type 0 where
  descriptor : ℕ → Open
  no_slot : Open
  unsupported : Open
  no_such_path : Open
  search_error : Open
  bad_chain : Open
  chain_error : Open
  open_fuel : Open

-- `(attributes & FILE_DIRECTORY) == FILE_DIRECTORY`
abbrev pub is_directory : List ℕ → Bool
is_directory e = bit_and (get_or e 11 0) 16 == 16

-- Whether the path goes through a directory: the parent is set behind each separator alone.
unfoldable pub has_separator : List ℕ → Bool
has_separator [] = false
has_separator (c ∷ path) =
    let rest = has_separator path in if c == 0 then false else c == b'\\' || rest

abbrev pub parent_of : List ℕ → ℕ → ℕ
parent_of path cluster = if has_separator path then cluster else minus_one

-- The end of a call that gives the descriptor back.
abbrev pub give_back : Table → ℕ → Open → Outcome (Open × Table)
give_back t fd result = done (result, release_content_slot t fd)

-- A file is stored with its name and extension. Without a second token, or without room for the copy
-- of the name, what follows is not defined.
abbrev pub store_named :
    Table → ℕ → ℕ → List ℕ → File → Option (List ℕ × List ℕ) → Outcome (Open × Table)
store_named t fd parent e f none = halted
store_named t fd parent e f (some (name, extension)) = done (
  descriptor fd,
  set t fd (some (record { body = file_body f name extension; parent_cluster = parent; meta = e })),
)

-- The end of `FAT_open_content` for a file, by how its chain was walked.
abbrev pub store_file : Table → ℕ → ℕ → List ℕ → Opened → Outcome (Open × Table)
store_file t fd parent e (opened f) = store_named t fd parent e f (stored_name e)
store_file t fd parent e (failed bad_cluster) = give_back t fd bad_chain
store_file t fd parent e (failed read_error) = give_back t fd chain_error
store_file t fd parent e (failed _) = give_back t fd open_fuel

-- From the entry of the content on.
unfoldable pub store_entry : Volume → Bool → ℕ → Table → ℕ → ℕ → List ℕ → Outcome (Open × Table)
store_entry v has_memory fuel t fd parent e =
    let file =
      open_file v has_memory fuel (cluster_of v.fat e) >>= λ o. store_file t fd parent e o in
    let name = strncpy (replicate 11 0) e 10 in
    let directory : Content = record {
      body = directory_body name;
      parent_cluster = parent;
      meta = e;
    } in
    if is_directory e then done (descriptor fd, set t fd (some directory)) else file

abbrev pub open_walked : Volume → Bool → ℕ → Table → ℕ → List ℕ → Walked → Outcome (Open × Table)
open_walked v has_memory fuel t fd path (at_entry e cluster) =
    store_entry v has_memory fuel t fd (parent_of path cluster) e
open_walked v has_memory fuel t fd path no_entry = give_back t fd no_such_path
open_walked v has_memory fuel t fd path broken = give_back t fd search_error
open_walked v has_memory fuel t fd path walk_fuel = give_back t fd open_fuel

abbrev pub open_in :
    Volume → Bool → ℕ → List ℕ → Table → Option (ℕ × Table) → Outcome (Open × Table)
open_in v has_memory fuel path t none = done (no_slot, t)
open_in v has_memory fuel path t (some (fd, t')) =
    if v.fat.fat_type == 32
    then (walk_path v fuel path [] 0 0 v.fat.ext_root_cluster >>= λ w.
        open_walked v has_memory fuel t' fd path w)
    else give_back t' fd unsupported

-- `FAT_open_content`; `has_memory` tells whether its `malloc` gives memory.
unfoldable pub open_content : Volume → Bool → ℕ → List ℕ → Table → Outcome (Open × Table)
open_content v has_memory fuel path t = open_in v has_memory fuel path t (allocate_content_slot t)

-- How `FAT_delete_content` ends: with 0 or with -1.
pub data Deletion : Type 0 where
  deleted : Volume → Deletion
  not_deleted : Volume → Deletion
  deletion_fuel : Deletion

-- The removal of the entry, after the clusters were freed.
abbrev pub entry_removed : Change → Volume → Deletion
entry_removed (changed w) v = deleted w
entry_removed _ v = not_deleted v

abbrev pub delete_entry :
    ℕ → Table → ℕ → Content → Option (Bool × Volume) → Outcome (Deletion × Table)
delete_entry fuel t ci c none = done (deletion_fuel, t)
delete_entry fuel t ci c (some (false, w)) = done (not_deleted w, release_content_slot t ci)
delete_entry fuel t ci c (some (true, w)) = directory_remove w c.meta fuel c.parent_cluster >>= λ r.
    done (entry_removed r w, release_content_slot t ci)

abbrev pub delete_found : Volume → ℕ → Table → ℕ → Option Content → Outcome (Deletion × Table)
delete_found v fuel t ci none = done (not_deleted v, t)
delete_found v fuel t ci (some c) =
    delete_clusters v fuel (cluster_of v.fat c.meta) >>= λ r. delete_entry fuel t ci c r

abbrev pub delete_opened : Volume → ℕ → Open × Table → Outcome (Deletion × Table)
delete_opened v fuel (descriptor ci, t) = delete_found v fuel t ci (get_content t ci)
delete_opened v fuel (open_fuel, t) = done (deletion_fuel, t)
delete_opened v fuel (_, t) = done (not_deleted v, t)

-- `FAT_delete_content`
unfoldable pub delete_content : Volume → Bool → ℕ → List ℕ → Table → Outcome (Deletion × Table)
delete_content v has_memory fuel path t =
    open_content v has_memory fuel path t >>= λ r. delete_opened v fuel r
