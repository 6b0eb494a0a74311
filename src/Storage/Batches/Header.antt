-- ===== src/Storage/Batches/Header.antt =====
-- src/storage/record_batch.cpp: a header is read from its first bytes, and says how long its batch is.
use log_engine.Prelude.{
  ℕ, zero, suc, ◌≤◌, ◌≡◌, refl, ap, List, [], ◌∷◌, arith, ltb, if◌then◌else◌, le→not-ltb, length,
  take, length-take_within,
}
use mathlib.Core.Path.{fun_ext}
use log_engine.Base.Endian.{
  byte_at, join_u16, join_u32, join_u64, load_u16_le, load_u32_le, load_u64_le,
}
use log_engine.Base.Error.{ok}
use log_engine.Storage.RecordBatch.{
  batch_header_bytes, max_batch_bytes, BatchHeader, total_bytes, load_batch_header, decode_header,
}

-- The header as a function of the bytes that are read.
header_from : (ℕ → ℕ) → BatchHeader
header_from f = record {
  base_offset = join_u64 (join_u32 (f 0) (f 1) (f 2) (f 3)) (join_u32 (f 4) (f 5) (f 6) (f 7));
  batch_length = join_u32 (f 8) (f 9) (f 10) (f 11);
  leader_epoch = join_u32 (f 16) (f 17) (f 18) (f 19);
  magic = f 20;
  attributes = f 21;
  crc = join_u32 (f 12) (f 13) (f 14) (f 15);
  last_offset_delta = join_u32 (f 22) (f 23) (f 24) (f 25);
  timestamp_ms =
      join_u64 (join_u32 (f 26) (f 27) (f 28) (f 29)) (join_u32 (f 30) (f 31) (f 32) (f 33));
  producer_id =
      join_u64 (join_u32 (f 34) (f 35) (f 36) (f 37)) (join_u32 (f 38) (f 39) (f 40) (f 41));
  producer_epoch = join_u16 (f 42) (f 43);
  base_sequence = join_u32 (f 44) (f 45) (f 46) (f 47);
  record_count = join_u32 (f 48) (f 49) (f 50) (f 51);
}

pub byte_at-take :
    (n : ℕ) (p : List ℕ) (i : ℕ) → byte_at (take n p) i ≡ (if ltb i n then byte_at p i else 0)
byte_at-take zero p i = ground arith
byte_at-take (suc n) [] i = ground arith
byte_at-take (suc n) (x ∷ p) zero = ground arith
byte_at-take (suc n) (x ∷ p) (suc i) = ground (arith, byte_at-take n p i)

load_batch_header-take :
    (p : List ℕ) → load_batch_header (take batch_header_bytes p) ≡ load_batch_header p
unfolding load_batch_header load_u16_le load_u32_le load_u64_le header_from
load_batch_header-take p = ap header_from (fun_ext (byte_at-take 52 p))

pub decode_header-take :
    (p : List ℕ)
    → batch_header_bytes ≤ length p
    → decode_header (take batch_header_bytes p) ≡ decode_header p
unfolding decode_header
decode_header-take p h =
    rw
      (
        le→not-ltb (length p) batch_header_bytes h,
        le→not-ltb (length (take batch_header_bytes p)) batch_header_bytes
            (omega (arith, length-take_within 52 p h)),
        load_batch_header-take p,
      )
      refl

-- A batch is at least its header, and at most what the format allows.
pub decode_header_bounds :
    (p : List ℕ) (h : BatchHeader)
    → decode_header p ≡ ok h
    → (batch_header_bytes ≤ total_bytes h)
      × (total_bytes h ≤ max_batch_bytes)
      × (batch_header_bytes ≤ length p)
unfolding decode_header
decode_header_bounds p h e = ground arith
