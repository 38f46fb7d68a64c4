-- ===== src/Vfs/Tests.antt =====
-- src/kernel/filesystems/vfs.c with three nodes.
use cordell_os.Base.{◌≡◌, refl, none, some, length}
use cordell_os.Ata.Detect.{primary_master, primary_slave, secondary_master, device_switch}
use cordell_os.Vfs.{Vfs, free_node, vfs_initialize, vfs_add_node, walk_nodes, vfs_switch_device}

abbrev three : Vfs
three =
    vfs_add_node (vfs_add_node (vfs_initialize primary_master 0) primary_slave 0) secondary_master 1

run : Unit {0}
unfolding free_node vfs_initialize vfs_add_node walk_nodes vfs_switch_device device_switch
run = tt

nodes_run : length three.nodes ≡ 3
unfolding run
nodes_run = refl

-- The switch goes on from the current node, by one node more than the index.
switch_runs : (vfs_switch_device three none 1).vfs.current ≡ 2
unfolding run
switch_runs = refl

drive_runs : (vfs_switch_device three none 1).drive ≡ some primary_master
unfolding run
drive_runs = refl
