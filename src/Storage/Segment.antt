-- ===== src/Storage/Segment.antt =====
-- src/storage/segment.h and src/storage/segment.cpp: one file of framed batches and its index, over
-- the interface of the disk.
pub mod Valid
pub mod Append
pub mod Recover
pub mod Read
pub mod Cut
pub mod Walk
pub mod Start
pub mod Durable
pub mod Offsets
use log_engine.Storage.RecordBatch.{next_offset as offset_after}
use log_engine.Prelude.{
  ℕ, Bool, true, false, not, Option, none, some, List, ltb, ◌==◌, if◌then◌else◌, length, is_empty,
  to_u32, add_u32, sub_u32, sub_u64,
}
use log_engine.Base.Buffer.{Buffer, empty_buffer, contents}
use log_engine.Base.Error.{message_too_large, io_error, invalid_argument, Result, ok, fail}
use log_engine.Io.Disk.{mode_create, Disk, Run, pure, refuse, ◌>>=◌, ◌>>◌, attempt, perform, lift}
use log_engine.Storage.RecordBatch.{batch_header_bytes, BatchHeader, decode_header}
use log_engine.Storage.SparseIndex.{IndexEntry, maybe_add, encode_index}

pub record RecoveryReport : Type 0 where
  pub batches_scanned : ℕ
  pub bytes_truncated : ℕ
  pub valid_bytes : ℕ
  pub next_offset : ℕ
  pub index_was_usable : Bool
  pub truncated : Bool

abbrev pub no_report : RecoveryReport
no_report = record {
  batches_scanned = 0;
  bytes_truncated = 0;
  valid_bytes = 0;
  next_offset = 0;
  index_was_usable = false;
  truncated = false;
}

pub record Segment : Type 0 where
  pub base_offset : ℕ
  pub next_offset : ℕ
  pub max_bytes : ℕ
  pub index_interval_bytes : ℕ
  pub log_file : ℕ
  pub log_path : List ℕ
  pub index_path : List ℕ
  pub size_bytes : ℕ
  pub index : List IndexEntry
  pub recovery : RecoveryReport

-- What a read of a header's bytes gave: `none` is a short read, or bytes that are no header.
abbrev pub header_of : Result BatchHeader → Option BatchHeader
header_of (ok h) = some h
header_of (fail c) = none

unfoldable pub header_in : List ℕ → Option BatchHeader
header_in got = if ltb (length got) batch_header_bytes then none else header_of (decode_header got)

abbrev pub is_ok {ℓ} : {A : Type ℓ} → Result A → Bool
is_ok (ok a) = true
is_ok (fail c) = false

-- `static_cast<u32>(offset - base_offset_)`
abbrev pub relative : Segment → ℕ → ℕ
relative g offset = to_u32 (sub_u64 offset g.base_offset)

module _ (D : Disk) where
  -- The segment after the append. One that fails leaves the segment as it was.
  unfoldable pub append_batch : List ℕ → BatchHeader → Segment → Run D.State Segment
  append_batch framed header g =
      if not (header.base_offset == g.next_offset)
      then refuse invalid_argument
      else if ltb (sub_u32 g.max_bytes g.size_bytes) (length framed)
      then refuse message_too_large
      else do
        written ← D.pwrite g.log_file framed g.size_bytes
        if not (written == length framed)
            then refuse io_error
            else pure (record g {
              index =
                  maybe_add g.index (relative g header.base_offset) g.size_bytes
                    g.index_interval_bytes;
              size_bytes = add_u32 g.size_bytes (to_u32 (length framed));
              next_offset = offset_after header;
            })

  unfoldable pub sync_segment : Segment → Run D.State (Unit {0})
  sync_segment g = D.fsync g.log_file

  -- The index is written, when there is something to write.
  unfoldable pub write_index : ℕ → Buffer → Run D.State (Unit {0})
  write_index id out = do
    D.truncate id 0
    if is_empty (contents out) then pure tt else D.pwrite id (contents out) 0 >>= λ n. pure tt

  unfoldable pub flush_index : Segment → Run D.State (Unit {0})
  unfolding write_index
  flush_index g =
      let out = encode_index g.index empty_buffer in
      do
        id ← D.open_file g.index_path mode_create
        st ← attempt (write_index id out)
        perform (D.close id)
        lift st
