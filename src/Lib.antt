-- ===== src/Lib.antt =====
-- A model of the core of CordellOS, an i386 kernel in C, and proofs about it. Paths are those of the
-- repository. The definitions are executable, and each file of tests runs them on concrete data.
--
-- Parts, from the bottom up:
--   * Pmm models src/kernel/memory/pmm.c: `PMM_map` is the record `PmmMap`, its bitmap a list of
--     32-bit words. `PMM_init` is `init`, and the other functions keep their names without the
--     prefix. Its children prove, in turn, what a block operation, a range of blocks, the search,
--     the regions and the allocation do.
--   * Vmm models src/kernel/memory/vmm.c over physical memory as a word at each address: `_map_page` is
--     `map_page`, and Space has the abstract address space, a frame or none for each page, that
--     Enter, Table and Translate show it to update. Setup has what frees tables and
--     directories, `VMM_copy_dir2dir` and `VMM_init`.
--   * Heap models src/kernel/memory/allocator.c: a `malloc_head_t` with its list of blocks is `Heap`,
--     pointers are addresses. `__kmalloc` is `kmalloc`, `__kfree` is `kfree`, `__mm_init` is
--     `mm_init`; new pages come from Pmm.
--   * Tasking models src/kernel/sys/tasking.c: the table and `TASK_task_switch` as `task_switch`.
--     The saved registers are an arbitrary type. Rounds has the timer ticks one after the other, and
--     Create the id, the stack and the registers of a new task with the start of the first one.
--   * Ata models the sector functions of src/kernel/arch/drivers/ata.c over a `Disk`, which stands
--     for the device behind the ports: the contents of the sectors and the sectors that fail. Poll has
--     the polling of the status port, Detect the probing and the choice of the drives, Stop the reads
--     that stop at a symbol, and Writeoff what the writes inside a sector send to the drive.
--   * Fat models src/kernel/filesystems/fat.c over such a disk: Boot has `FAT_initialize`, Volume
--     the cluster table from `__read_fat` to `_cluster_lba`, Content the walks along a chain that
--     open, seek in and delete a file, Read `_cluster_read_range` with its proof. Directory has the
--     cursor over the entries and the search, Names the forms of a name, with what
--     `FAT_open_content` stores of it in Names/Stored, Change what changes a directory, and Path
--     the walk along a path; a directory is the list of its places. ReadFile has
--     `FAT_read_content2buffer`, and ReadStop and ReadFileStop the reads that stop at a symbol.
--     Contents is the table of open contents with the calls through it: `FAT_open_content` and
--     `FAT_delete_content`; its children Calls and Write have those that list, put, describe and
--     write a content, and Slots, Opens, Balance and Growth the proofs. Geometry, Partition, Table,
--     Allocate, Chain, Delete, ChainBytes and Remove hold the other proofs.
--   * Text models the strings of src/libs/std/string.c and the characters of src/libs/std/ctype.c: a
--     string is the list of bytes from its pointer on. Token has `strtok` for one delimiter.
--   * Memory models memcpy, memmove, memset and memcmp of src/libs/std/memory.c, Network the byte
--     orders and the checksum of src/libs/std/netutils.c, and `IP_calculate_checksum` of
--     src/kernel/network/ip.c. Its children Arp, Udp and Dhcp have the address table, the buffer of
--     received packets and the search of an option in the files of those names in src/kernel/network.
--   * Vfs models src/kernel/filesystems/vfs.c, whose nodes name a drive and a file system.
--   * Elf models src/kernel/arch/i386/elf.c: `ELF_read` is `elf_read`, and the pages that a program gets
--     are a list. The reads of the file are a parameter.
--   * Clock models the decoding of src/kernel/arch/i386/datetime.c, and `FSLIB_get_date` of
--     src/libs/std/fslib.c, which reads the stamps of the directory entries.
--   * Base has the helpers: C tests, arrays, machine words with their wrap-around written out, the
--     bit operators, and the outcome of code that may run into a failing `assert`.
--
-- Numbers are natural numbers; an unsigned expression that can wrap around is written with `u32` or
-- `sub32`. A result -1 is `none`, `false` or `minus_one`, whichever the caller's test asks for.
--
-- A failing assertion is a result of its own, `halted` of Base/Asserts. It also stands for what C
-- leaves undefined where the code can reach it: the copies of names and components in
-- src/kernel/filesystems/fat.c that go past their arrays of 13 and 256 bytes, and the second token
-- of a name that has one alone.
--
-- Loops that a data structure does not bound run on fuel. The search for free blocks has fuel for
-- `max_blocks` rounds, each of which moves on by at least one block. The walks along a cluster
-- chain have fuel as an argument; a chain of n clusters needs n + 1 rounds. A scan of a directory
-- has fuel for one round per entry, and an addition fuel for the clusters that it may append. The
-- count of pages in `__kmalloc` has fuel for the size in pages and two more. `memcmp`, whose
-- 16-bit index may never reach the end, has fuel for the bytes that it compares. The loops that
-- poll a drive count their own timeout down. The search of a DHCP option, which may not end, and
-- the loop for two equal readings of the clock have fuel as an argument, and so has a write for
-- the calls that it makes of itself.
--
-- Not modelled: the text of a listed name, `FAT_create_object`, `FAT_copy_content` and
-- `_add_content2table` of src/kernel/filesystems/fat.c; the allocations of `TASK_create_task`; the
-- page fault handler; the packets that src/kernel/network puts together and sends; the system
-- calls (src/kernel/sys/syscalls.c), which pass their registers on; and the user libraries
-- (src/libs) other than the strings, the memory functions, the byte orders and the dates. Of the
-- strings strtok, the decimals, the encodings and the calls of malloc are left out. Graphics,
-- sound, keyboard, mouse, PCI and the network card are port and memory-mapped I/O.
pub mod Base
pub mod Memory
pub mod Text
pub mod Network
pub mod Pmm
pub mod Vmm
pub mod Ata
pub mod Fat
pub mod Heap
pub mod Tasking
pub mod Elf
pub mod Clock
pub mod Vfs
