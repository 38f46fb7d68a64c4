-- ===== src/Fat/Contents/Calls.antt =====
-- The calls of src/kernel/filesystems/fat.c that list, put, write and describe an open content.
use cordell_os.Base.{
  ℕ, zero, suc, ◌+◌, ◌-◌, Bool, not, ◌&&◌, ◌||◌, Option, none, some, List, [], ◌∷◌, ltb, leb, ◌==◌,
  if◌then◌else◌, get_or, set, replicate, bit_and,
}
use cordell_os.Text.{strncmp, strncpy}
use cordell_os.Fat.Volume.{Volume, Outcome, done, halted, ◌>>=◌, load32}
use cordell_os.Fat.Boot.{load16}
use cordell_os.Fat.Directory.{
  Cursor, moved, finished, stuck, meta, cursor_open, cursor_next, is_end, is_zero, Search, entry_at,
  not_found, search_failed, search_fuel, directory_search,
}
use cordell_os.Fat.Change.{
  cluster_of, Change, changed, missing, failed, change_fuel, directory_add, Datetime,
}
use cordell_os.Fat.Contents.{
  Content, Table, directory_body, allocate_content_slot, release_content_slot, get_content, Open,
  descriptor, open_fuel, open_content,
}

-- How `FAT_directory_list` ends: with a descriptor, with -1 or with -2.
pub data Listing : Type 0 where
  listing : ℕ → Listing
  no_listing : Listing
  not_a_directory : Listing

-- The descriptor of a listing gets the name and the entry of the directory; its parent is 0.
abbrev pub list_in : Table → Content → List ℕ → Option (ℕ × Table) → Listing × Table
list_in t source name none = (no_listing, t)
list_in t source name (some (fd, t')) =
    let copy = strncpy (replicate 11 0) name 11 in
    (
      listing fd,
      set t' fd
          (some (record { body = directory_body copy; parent_cluster = 0; meta = source.meta })),
    )

abbrev pub list_found : Volume → Table → Option Content → Outcome (Listing × Table)
list_found v t none = done (no_listing, t)
list_found v t (some c) =
    let cluster = cluster_of v.fat c.meta in
    elim c.body [
      | directory_body name ↦
          if leb 2 cluster && ltb cluster v.fat.total_clusters
          then done (list_in t c name (allocate_content_slot t))
          else halted
      | _ ↦ done (not_a_directory, t)
    ]

-- `FAT_directory_list`
unfoldable pub directory_list : Volume → Table → ℕ → Outcome (Listing × Table)
directory_list v t ci = list_found v t (get_content t ci)

-- The entries that `FAT_directory_entry_name` passes over.
unfoldable pub skip_entry : List ℕ → Bool
skip_entry e =
    is_zero (strncmp e (b'.' ∷ b'.' ∷ 0 ∷ []) 2)
    || (is_zero (strncmp e (b'.' ∷ 0 ∷ []) 1)
        || (get_or e 0 0 == 0xe5
            || (bit_and (get_or e 11 0) 15 == 15 || not (bit_and (get_or e 11 0) 6 == 0))))

-- How the loop of `FAT_directory_entry_name` ends: at the entry whose name is stored, with -1, or out
-- of fuel.
pub data Step : Type 0 where
  step_at : List ℕ → Step
  no_step : Step
  step_fuel : Step

-- The loop with the number of entries still to pass.
unfoldable pub entry_loop : Volume → ℕ → ℕ → Cursor → Outcome Step
entry_loop v zero step c = done step_fuel
entry_loop v (suc fuel) step c =
    let go_on = λ (left : ℕ). cursor_next v c >>= λ move. elim move [
      | moved next ↦ entry_loop v fuel left next
      | finished last ↦ done no_step
      | stuck ↦ done no_step
    ] in
    if is_end (meta c)
    then done no_step
    else if skip_entry (meta c)
    then go_on step
    else if step == 0
    then done (step_at (meta c))
    else go_on (step - 1)

abbrev pub entry_from : Volume → ℕ → ℕ → Option Cursor → Outcome Step
entry_from v fuel step none = done no_step
entry_from v fuel step (some c) = entry_loop v fuel step c

-- `FAT_directory_entry_name` up to the text of the name.
unfoldable pub directory_entry : Volume → ℕ → ℕ → Option Content → Outcome Step
directory_entry v fuel step none = done no_step
directory_entry v fuel step (some c) = elim c.body [
  | directory_body name ↦ entry_from v fuel step (cursor_open v (cluster_of v.fat c.meta))
  | _ ↦ done no_step
]

-- The first loop of `_fatname2name` over the rounds left, with the dot behind the name: where the
-- dot is and the text.
unfoldable pub base_loop : ℕ → ℕ → List ℕ → List ℕ → ℕ × List ℕ
base_loop zero counter input output = (counter, set output counter b'.')
base_loop (suc left) counter input output =
    let c = get_or input counter 0 in
    let rest = base_loop left (counter + 1) input (set output counter c) in
    if c == 32 then (counter, set output counter b'.') else rest

-- The second loop, over the characters of the extension left: where it has stopped and the text.
unfoldable pub suffix_loop : ℕ → ℕ → ℕ → List ℕ → List ℕ → ℕ × List ℕ
suffix_loop zero counter2 counter input output = (counter, output)
suffix_loop (suc left) counter2 counter input output =
    let c = get_or input counter2 0 in
    let rest = suffix_loop left (counter2 + 1) (counter + 1) input (set output (counter + 1) c) in
    if c == 32 then ((if counter2 == 8 then counter - 1 else counter + 1), output) else rest

-- The blanks behind it, over the characters left, and the end.
unfoldable pub fill_loop : ℕ → ℕ → List ℕ → List ℕ
fill_loop zero counter output = set output 12 0
fill_loop (suc left) counter output = fill_loop left (counter + 1) (set output counter 32)

abbrev pub suffixed : List ℕ → ℕ × List ℕ → List ℕ
suffixed input (counter, output) =
    let (stop, text) = suffix_loop 3 8 counter input output in
    fill_loop (12 - (stop + 1)) (stop + 1) text

-- `_fatname2name` into a buffer of 13 bytes that are 0.
unfoldable pub fatname2name : List ℕ → List ℕ
fatname2name input =
    let converted = suffixed input (base_loop 8 0 input (replicate 13 0)) in
    if get_or input 0 0 == b'.'
    then (if get_or input 1 0 == b'.' then b'.' ∷ b'.' ∷ replicate 11 0 else b'.' ∷ replicate 12 0)
    else converted

-- How `FAT_put_content` ends: with 0, -1 or -3.
pub data Put : Type 0 where
  put : Volume → Put
  not_put : Volume → Put
  name_taken : Put
  put_fuel : Put

abbrev pub added : Volume → Change → Put
added v (changed w) = put w
added v missing = not_put v
added v (failed w) = not_put w
added v change_fuel = put_fuel

abbrev pub put_new : Volume → (ℕ → Datetime) → ℕ → List ℕ → ℕ → Search → Outcome Put
put_new v clock fuel e cluster (entry_at old i) = done name_taken
put_new v clock fuel e cluster search_failed = done (not_put v)
put_new v clock fuel e cluster search_fuel = done put_fuel
put_new v clock fuel e cluster not_found =
    directory_add v clock e fuel fuel cluster >>= λ r. done (added v r)

-- From the directory that was opened on; its descriptor is given back first.
abbrev pub put_found :
    Volume → (ℕ → Datetime) → ℕ → List ℕ → Table → ℕ → Option Content → Outcome (Put × Table)
put_found v clock fuel e t ci none = done (not_put v, t)
put_found v clock fuel e t ci (some c) =
    let cluster = cluster_of v.fat c.meta in
    directory_search v (fatname2name e) fuel cluster >>= λ found.
    put_new v clock fuel e cluster found >>= λ r. done (r, release_content_slot t ci)

abbrev pub put_opened : Volume → (ℕ → Datetime) → ℕ → List ℕ → Open × Table → Outcome (Put × Table)
put_opened v clock fuel e (descriptor ci, t) = put_found v clock fuel e t ci (get_content t ci)
put_opened v clock fuel e (open_fuel, t) = done (put_fuel, t)
put_opened v clock fuel e (_, t) = done (not_put v, t)

-- `FAT_put_content` for the entry `e` of a content.
unfoldable pub put_content :
    Volume → (ℕ → Datetime) → Bool → ℕ → List ℕ → List ℕ → Table → Outcome (Put × Table)
put_content v clock has_memory fuel path e t =
    open_content v has_memory fuel path t >>= λ r. put_opened v clock fuel e r

-- The types that `FAT_stat_content` reports.
pub data StatType : Type 0 where
  stat_dir : StatType
  stat_file : StatType

-- The numbers of `CInfo_t`; the texts are left out.
pub record Info : Type 0 where
  pub stat_type : StatType
  pub size : ℕ
  pub creation_time : ℕ
  pub creation_date : ℕ
  pub last_accessed : ℕ
  pub last_modification_time : ℕ
  pub last_modification_date : ℕ

abbrev pub info_of : StatType → ℕ → List ℕ → Info
info_of type size e = record {
  stat_type = type;
  size = size;
  creation_time = load16 e 14;
  creation_date = load16 e 16;
  last_accessed = load16 e 18;
  last_modification_time = load16 e 22;
  last_modification_date = load16 e 24;
}

abbrev pub stat_found : Option Content → Option Info
stat_found none = none
stat_found (some c) = elim c.body [
  | directory_body name ↦ some (info_of stat_dir 0 c.meta)
  | _ ↦ some (info_of stat_file (load32 c.meta 28) c.meta)
]

-- `FAT_stat_content`; `none` is -1.
unfoldable pub stat_content : Table → ℕ → Option Info
stat_content t ci = stat_found (get_content t ci)
