-- ===== src/Base.antt =====
-- src/base: the primitives that every other part stands on.
pub mod Error
pub mod Endian
pub mod Crc32c
pub mod Buffer
mod Tests
