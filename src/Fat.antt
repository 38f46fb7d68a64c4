-- ===== src/Fat.antt =====
-- The FAT driver, src/kernel/filesystems/fat.c.
pub mod Volume
pub mod Boot
pub mod Geometry
pub mod Partition
pub mod Table
pub mod Allocate
pub mod Content
pub mod Chain
pub mod Delete
pub mod Read
pub mod ChainBytes
pub mod ReadFile
pub mod ReadStop
pub mod ReadFileStop
pub mod Names
pub mod Directory
pub mod Change
pub mod Remove
pub mod Path
pub mod Contents
mod Tests
mod BootTests
mod DirectoryTests
