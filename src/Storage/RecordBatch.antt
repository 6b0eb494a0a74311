-- ===== src/Storage/RecordBatch.antt =====
-- src/storage/record_batch.h and src/storage/record_batch.cpp: a batch of records, which is one entry
-- of the log. A timestamp, an i64, is its 64 bits as an unsigned number.
pub mod Records
pub mod Build
pub mod Accept
pub mod Framing
use log_engine.Prelude.{
  ℕ, zero, suc, ◌+◌, ◌-◌, ◌*◌, Bool, not, Option, none, some, List, ◌++◌, ltb, ◌==◌, if◌then◌else◌,
  length, take, drop, to_u32, add_u32, add_u64, sub_u32,
}
use Prim.Native.Nat.{bit_and}
use log_engine.Base.Buffer.{
  Buffer, contents, size, clear, append, append_u32_le, append_uninitialized,
}
use log_engine.Base.Crc32c.{crc32c}
use log_engine.Base.Endian.{
  byte_at, store_u16_le, store_u32_le, store_u64_le, load_u16_le, load_u32_le, load_u64_le,
  store_u8,
}
use log_engine.Base.Error.{corrupt_record, message_too_large, Result, ok, fail, Status}

abbrev pub batch_header_bytes : ℕ
batch_header_bytes = 52

abbrev pub batch_length_prefix_bytes : ℕ
batch_length_prefix_bytes = 12

abbrev pub crc_field_offset : ℕ
crc_field_offset = 12

abbrev pub crc_covered_from : ℕ
crc_covered_from = 16

abbrev pub max_batch_bytes : ℕ
max_batch_bytes = 8 * 1024 * 1024

abbrev pub attr_compressed : ℕ
attr_compressed = 1

abbrev pub attr_control : ℕ
attr_control = 2

pub record BatchHeader : Type 0 where
  pub base_offset : ℕ
  pub batch_length : ℕ
  pub leader_epoch : ℕ
  pub magic : ℕ
  pub attributes : ℕ
  pub crc : ℕ
  pub last_offset_delta : ℕ
  pub timestamp_ms : ℕ
  pub producer_id : ℕ
  pub producer_epoch : ℕ
  pub base_sequence : ℕ
  pub record_count : ℕ

abbrev pub is_control : BatchHeader → Bool
is_control h = not (bit_and h.attributes attr_control == 0)

abbrev pub total_bytes : BatchHeader → ℕ
total_bytes h = batch_length_prefix_bytes + h.batch_length

abbrev pub last_offset : BatchHeader → ℕ
last_offset h = add_u64 h.base_offset h.last_offset_delta

abbrev pub next_offset : BatchHeader → ℕ
next_offset h = add_u64 (last_offset h) 1

pub record BatchMeta : Type 0 where
  pub leader_epoch : ℕ
  pub control : Bool
  pub timestamp_ms : ℕ
  pub producer_id : ℕ
  pub producer_epoch : ℕ
  pub base_sequence : ℕ

unfoldable pub encode_header : List ℕ → BatchHeader → List ℕ
unfolding store_u8 store_u16_le store_u32_le store_u64_le
encode_header p0 h =
    let p1 = store_u64_le p0 0 h.base_offset in
    let p2 = store_u32_le p1 8 h.batch_length in
    let p3 = store_u32_le p2 12 h.crc in
    let p4 = store_u32_le p3 16 h.leader_epoch in
    let p5 = store_u8 p4 20 h.magic in
    let p6 = store_u8 p5 21 h.attributes in
    let p7 = store_u32_le p6 22 h.last_offset_delta in
    let p8 = store_u64_le p7 26 h.timestamp_ms in
    let p9 = store_u64_le p8 34 h.producer_id in
    let p10 = store_u16_le p9 42 h.producer_epoch in
    let p11 = store_u32_le p10 44 h.base_sequence in store_u32_le p11 48 h.record_count

unfoldable pub load_batch_header : List ℕ → BatchHeader
unfolding load_u16_le load_u32_le load_u64_le
load_batch_header p = record {
  base_offset = load_u64_le p 0;
  batch_length = load_u32_le p 8;
  leader_epoch = load_u32_le p 16;
  magic = byte_at p 20;
  attributes = byte_at p 21;
  crc = load_u32_le p 12;
  last_offset_delta = load_u32_le p 22;
  timestamp_ms = load_u64_le p 26;
  producer_id = load_u64_le p 34;
  producer_epoch = load_u16_le p 42;
  base_sequence = load_u32_le p 44;
  record_count = load_u32_le p 48;
}

unfoldable pub decode_header : List ℕ → Result BatchHeader
decode_header bytes =
    if ltb (length bytes) batch_header_bytes
    then fail corrupt_record
    else (let h = load_batch_header bytes in
        if not (h.magic == 0)
        then fail corrupt_record
        else if ltb (total_bytes h) batch_header_bytes
        then fail corrupt_record
        else if ltb max_batch_bytes (total_bytes h)
        then fail corrupt_record
        else ok h)

unfoldable pub compute_crc : List ℕ → ℕ → ℕ
compute_crc framed total = crc32c (take (total - crc_covered_from) (drop crc_covered_from framed))

-- The loop over the records: the position after `count` of them, if they all fit.
unfoldable pub walk_records : List ℕ → ℕ → ℕ → ℕ → Option ℕ
walk_records framed total zero pos = some pos
walk_records framed total (suc count) pos =
    let len = load_u32_le framed pos in
    let rest = walk_records framed total count (pos + 4 + len) in
    if ltb (total - pos) 4 then none else if ltb (total - (pos + 4)) len then none else rest

abbrev pub ends_at : ℕ → Option ℕ → Status
ends_at total none = fail corrupt_record
ends_at total (some pos) = if not (pos == total) then fail corrupt_record else ok tt

unfoldable pub validate_body : List ℕ → BatchHeader → Status
unfolding compute_crc walk_records
validate_body framed h =
    if ltb (length framed) (total_bytes h)
    then fail corrupt_record
    else if not (compute_crc framed (total_bytes h) == h.crc)
    then fail corrupt_record
    else if h.record_count == 0
    then fail corrupt_record
    else if not (h.last_offset_delta == h.record_count - 1)
    then fail corrupt_record
    else if not (bit_and h.attributes attr_compressed == 0)
    then fail corrupt_record
    else ends_at (total_bytes h)
        (walk_records framed (total_bytes h) h.record_count batch_header_bytes)

abbrev pub validate_decoded : List ℕ → Result BatchHeader → Status
validate_decoded framed (fail c) = fail c
validate_decoded framed (ok h) = validate_body framed h

unfoldable pub validate_batch : List ℕ → Status
validate_batch framed = validate_decoded framed (decode_header framed)

pub record BatchBuilder : Type 0 where
  pub buf : Buffer
  pub record_count : ℕ

-- `clear()`, and the constructor.
unfoldable pub clear_builder : BatchBuilder → BatchBuilder
unfolding clear append_uninitialized
clear_builder b = record {
  buf = append_uninitialized batch_header_bytes (clear b.buf);
  record_count = 0;
}

unfoldable pub add_record : List ℕ → BatchBuilder → Status × BatchBuilder
add_record value b =
    let added = 4 + length value in
    if ltb max_batch_bytes (size b.buf + added)
    then (fail message_too_large, b)
    else if ltb max_batch_bytes (length value)
    then (fail message_too_large, b)
    else (
      ok tt,
      record {
        buf = append value (append_u32_le (to_u32 (length value)) b.buf);
        record_count = add_u32 b.record_count 1;
      },
    )

unfoldable pub header_for : ℕ → BatchMeta → BatchBuilder → BatchHeader
header_for base meta b = record {
  base_offset = base;
  batch_length = to_u32 (size b.buf - batch_length_prefix_bytes);
  leader_epoch = meta.leader_epoch;
  magic = 0;
  attributes = if meta.control then attr_control else 0;
  crc = 0;
  last_offset_delta = sub_u32 b.record_count 1;
  timestamp_ms = meta.timestamp_ms;
  producer_id = meta.producer_id;
  producer_epoch = meta.producer_epoch;
  base_sequence = meta.base_sequence;
  record_count = b.record_count;
}

-- The framed bytes that the call returns; they also are what the buffer then holds.
unfoldable pub framed_batch : ℕ → BatchMeta → BatchBuilder → List ℕ
unfolding compute_crc
framed_batch base meta b =
    let p = encode_header (contents b.buf) (header_for base meta b) in
    store_u32_le p crc_field_offset (compute_crc p (size b.buf))

unfoldable pub finish : ℕ → BatchMeta → BatchBuilder → List ℕ × BatchBuilder
finish base meta b =
    let framed = framed_batch base meta b in
    (framed, record b { buf = record b.buf { bytes = take b.buf.read_pos b.buf.bytes ++ framed } })

pub record RecordIterator : Type 0 where
  pub framed : List ℕ
  pub pos : ℕ
  pub end_pos : ℕ

unfoldable pub record_iterator : List ℕ → RecordIterator
record_iterator framed =
    if ltb (length framed) batch_header_bytes
    then record { framed = framed; pos = batch_header_bytes; end_pos = batch_header_bytes }
    else (let declared = batch_length_prefix_bytes + load_u32_le framed 8 in
        let total = if ltb declared batch_header_bytes then batch_header_bytes else declared in
        record {
          framed = framed;
          pos = batch_header_bytes;
          end_pos = if ltb total (length framed) then total else length framed;
        })

unfoldable pub next_record : RecordIterator → Option (List ℕ) × RecordIterator
next_record it =
    if ltb (it.end_pos - it.pos) 4
    then (none, it)
    else (let len = load_u32_le it.framed it.pos in
        let at : RecordIterator = record it { pos = it.pos + 4 } in
        if ltb (at.end_pos - at.pos) len
        then (none, at)
        else (some (take len (drop at.pos it.framed)), record at { pos = at.pos + len }))
