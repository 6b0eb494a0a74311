-- ===== src/Storage.antt =====
-- src/storage: the log on disk.
pub mod RecordBatch
pub mod SparseIndex
pub mod Batches
pub mod FileNames
pub mod Segment
pub mod Log
mod Tests
mod SegmentTests
mod LogTests
