-- ===== src/Vfs.antt =====
-- The file systems of src/kernel/filesystems/vfs.c. A node is its index in the pool of eight; the list
-- of the nodes is in the order of their `next`. The calls through a node are those of the FAT driver,
-- which the nodes hold as function pointers.
mod Tests
use cordell_os.Base.{
  ℕ, zero, suc, ◌+◌, ◌-◌, Bool, true, false, Option, none, some, List, [], ◌∷◌, ◌++◌, ltb, ◌==◌,
  if◌then◌else◌, length, get_or, set, replicate,
}
use cordell_os.Ata.Detect.{Drive, device_switch}

abbrev pub max_nodes : ℕ
max_nodes = 8

abbrev pub fat_fs : ℕ
fat_fs = 0

-- The data of `vfs_node_t`.
pub record Node : Type 0 where
  pub fs_type : ℕ
  pub device : Drive

-- The pool's marks, the list of the nodes, and the position of `current_vfs` in it.
pub record Vfs : Type 0 where
  pub node_used : List Bool
  pub nodes : List Node
  pub current : ℕ

-- The loop of `_vfs_alloc_node`.
unfoldable pub free_node : List Bool → Option ℕ
free_node [] = none
free_node (false ∷ used) = some 0
free_node (true ∷ used) = elim (free_node used) [ none ↦ none | some i ↦ some (i + 1) ]

-- `VFS_initialize`: the pool is emptied first, so that there is a node.
unfoldable pub vfs_initialize : Drive → ℕ → Vfs
vfs_initialize dev fs_type = record {
  node_used = set (replicate max_nodes false) 0 true;
  nodes = record { fs_type = fs_type; device = dev } ∷ [];
  current = 0;
}

abbrev pub add_at : Vfs → Node → Option ℕ → Vfs
add_at v n none = v
add_at v n (some i) = record v { node_used = set v.node_used i true; nodes = v.nodes ++ n ∷ [] }

-- `VFS_add_node`, whose result is always 0.
unfoldable pub vfs_add_node : Vfs → Drive → ℕ → Vfs
vfs_add_node v dev fs_type =
    add_at v (record { fs_type = fs_type; device = dev }) (free_node v.node_used)

-- The loop of `VFS_switch_device` over the nodes behind the current one: the position that it ends at.
unfoldable pub walk_nodes : ℕ → ℕ → ℕ → ℕ → ℕ
walk_nodes zero current pos index = current
walk_nodes (suc left) current pos index =
    let rest = walk_nodes left (current + 1) (pos + 1) index in
    if pos == index then current + 1 else rest

-- What `VFS_switch_device` leaves: the node, the drive, and whether the FAT driver is started again.
pub record Switched : Type 0 where
  pub vfs : Vfs
  pub drive : Option Drive
  pub restarts_fat : Bool

abbrev pub has_fat : List Node → ℕ → Bool
has_fat [] i = false
has_fat (n ∷ ns) zero = n.fs_type == fat_fs
has_fat (n ∷ ns) (suc i) = has_fat ns i

unfoldable pub vfs_switch_device : Vfs → Option Drive → ℕ → Switched
vfs_switch_device v drive index =
    let current = walk_nodes (length v.nodes - 1 - v.current) v.current 0 index in
    record {
      vfs = record v { current = current };
      drive = device_switch index drive;
      restarts_fat = has_fat v.nodes current;
    }
