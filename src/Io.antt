-- ===== src/Io.antt =====
-- src/io: the simulated disk, on which the claims about durability are tested.
pub mod Disk
pub mod SimFile
pub mod Paths
pub mod SimDisk
mod Tests
