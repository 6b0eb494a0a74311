-- ===== src/Storage/RecordBatch/Framing.antt =====
-- src/storage/record_batch.cpp: what the builder frames is accepted and read back, record by record.
use log_engine.Prelude.{
  ℕ, ◌+◌, ◌-◌, ◌≤◌, ◌≡◌, refl, sym, ap, ◌∙◌, Bool, true, false, some, List, [], ◌++◌, arith,
  if◌then◌else◌, le→not-ltb, length, take, drop, replicate, length-append, take-whole, take_front,
  IsU16, IsU32, IsU64, to_u8, to_u32, add_u64, sub_u32,
}
use mathlib.Core.List.{append-nil}
use mathlib.Core.Path.{ap₂}
use native.Mathlib.Nat.{le_refl}
use Prim.Native.Nat.{bit_and}
use log_engine.Base.Buffer.{contents, size}
use log_engine.Base.Crc32c.{crc32c}
use log_engine.Base.Crc32c.Detection.{crc32c-lt}
use log_engine.Base.Endian.{store_u32_le, load_u16_le, load_u32_le, load_u64_le}
use log_engine.Base.Endian.RoundTrip.{join_u16-split, join_u32-split, join_u64-stored}
use log_engine.Base.Error.{ok}
use log_engine.Storage.RecordBatch.{
  batch_header_bytes, batch_length_prefix_bytes, crc_field_offset, crc_covered_from,
  max_batch_bytes, attr_compressed, attr_control, BatchHeader, total_bytes, next_offset, BatchMeta,
  encode_header, load_batch_header, decode_header, compute_crc, walk_records, validate_decoded,
  validate_batch, BatchBuilder, header_for, framed_batch, record_iterator,
}
use log_engine.Storage.RecordBatch.Accept.{body_accepted, iterator_accepted}
use log_engine.Storage.RecordBatch.Build.{Holds, count_small}
use log_engine.Storage.RecordBatch.Records.{body, read_records, walk_records_lem, read_records_lem}

-- The numbers of the batch fit their fields.
pub record IsMeta (base : ℕ) (meta : BatchMeta) : Type 0 where
  pub offset : IsU64 base
  pub epoch : IsU32 meta.leader_epoch
  pub time : IsU64 meta.timestamp_ms
  pub producer : IsU64 meta.producer_id
  pub producer_epoch : IsU16 meta.producer_epoch
  pub sequence : IsU32 meta.base_sequence

no_compression : (c : Bool) → bit_and (if c then attr_control else 0) attr_compressed ≡ 0
no_compression true = refl
no_compression false = refl

attributes_fit :
    (c : Bool) → to_u8 (if c then attr_control else 0) ≡ (if c then attr_control else 0)
attributes_fit true = refl
attributes_fit false = refl

module _ (vs : List (List ℕ)) (b : BatchBuilder) (base : ℕ) (meta : BatchMeta) (h : Holds vs b)
    (w : IsMeta base meta) (some_record : 1 ≤ length vs) where
  abbrev zeros : List ℕ
  zeros = replicate batch_header_bytes 0

  abbrev header : BatchHeader
  header = header_for base meta b

  -- What the CRC covers, and the CRC.
  abbrev covered : List ℕ
  covered = drop crc_covered_from (encode_header zeros header) ++ body vs

  abbrev checksum : ℕ
  checksum = crc32c covered

  -- The header as it is stored, its CRC included.
  abbrev stamped : List ℕ
  stamped = store_u32_le (encode_header zeros header) crc_field_offset checksum

  contents_lem : contents b.buf ≡ zeros ++ body vs
  contents_lem = rw (h.front, h.bytes) refl

  size_lem : size b.buf ≡ batch_header_bytes + length (body vs)
  size_lem = rw (h.front, h.bytes) (omega arith)

  measured : batch_header_bytes + length (body vs) - crc_covered_from ≡ length covered
  unfolding encode_header
  measured = omega arith

  crc_unstamped :
      compute_crc (encode_header (zeros ++ body vs) header) (batch_header_bytes + length (body vs))
      ≡ checksum
  unfolding compute_crc encode_header
  crc_unstamped = ap crc32c (ap (λ n. take n covered) measured ∙ take-whole covered)

  framed_lem : framed_batch base meta b ≡ stamped ++ body vs
  unfolding framed_batch encode_header store_u32_le
  framed_lem =
      ap₂
        (λ c n.
          store_u32_le (encode_header c header) crc_field_offset
            (compute_crc (encode_header c header) n))
        contents_lem size_lem
      ∙ ap (store_u32_le (encode_header (zeros ++ body vs) header) crc_field_offset) crc_unstamped

  -- The framed batch with whatever follows it in the read buffer.
  module _ (rest : List ℕ) where
    abbrev framed : List ℕ
    framed = stamped ++ body vs ++ rest

    crc_stamped : compute_crc framed (batch_header_bytes + length (body vs)) ≡ checksum
    unfolding compute_crc encode_header store_u32_le
    crc_stamped = ap crc32c (ap (λ n. take n (covered ++ rest)) measured ∙ take_front covered rest)

    delta : sub_u32 (length vs) 1 ≡ length vs - 1
    delta = omega (arith, count_small vs, h.small)

    loaded : load_batch_header framed ≡ record header { crc = checksum }
    unfolding load_batch_header load_u16_le load_u32_le load_u64_le encode_header store_u32_le
        header_for
    loaded =
        rw
          (
            join_u64-stored base w.offset,
            join_u32-split (to_u32 (size b.buf - batch_length_prefix_bytes)) (omega arith),
            join_u32-split meta.leader_epoch w.epoch,
            join_u32-split checksum (crc32c-lt covered),
            join_u32-split (sub_u32 b.record_count 1) (omega arith),
            join_u64-stored meta.timestamp_ms w.time,
            join_u64-stored meta.producer_id w.producer,
            join_u16-split meta.producer_epoch w.producer_epoch,
            join_u32-split meta.base_sequence w.sequence,
            join_u32-split b.record_count (omega (arith, h.count, count_small vs, h.small)),
            attributes_fit meta.control,
          )
          refl

    total_lem :
        batch_length_prefix_bytes + to_u32 (size b.buf - batch_length_prefix_bytes)
        ≡ batch_header_bytes + length (body vs)
    total_lem = omega (arith, size_lem, h.small)

    total_header :
        total_bytes (record header { crc = checksum }) ≡ batch_header_bytes + length (body vs)
    unfolding header_for
    total_header = total_lem

    length-framed : length framed ≡ batch_header_bytes + length (body vs) + length rest
    unfolding encode_header store_u32_le
    length-framed = omega (arith, length-append (body vs) rest)

    magic_lem : header.magic ≡ 0
    unfolding header_for
    magic_lem = refl

    decoded : decode_header framed ≡ ok (record header { crc = checksum })
    unfolding decode_header
    decoded =
        rw
          (
            le→not-ltb (length framed) batch_header_bytes (omega (arith, length-framed)),
            loaded,
            magic_lem,
            le→not-ltb (total_bytes (record header { crc = checksum })) batch_header_bytes
                (omega (arith, total_header)),
            le→not-ltb max_batch_bytes (total_bytes (record header { crc = checksum }))
                (omega (arith, total_header, h.small)),
          )
          refl

    at_body : drop batch_header_bytes framed ≡ body vs ++ rest
    unfolding encode_header store_u32_le
    at_body = refl

    walked :
        walk_records framed (batch_header_bytes + length (body vs)) (length vs) batch_header_bytes
        ≡ some (batch_header_bytes + length (body vs))
    walked =
        walk_records_lem framed rest vs batch_header_bytes (batch_header_bytes + length (body vs))
          h.sizes at_body refl

    -- What was framed is accepted.
    validated : validate_batch framed ≡ ok tt
    unfolding validate_batch header_for
    validated =
        ap (validate_decoded framed) decoded
        ∙ body_accepted framed (record header { crc = checksum })
            (omega (arith, total_header, length-framed))
            (ap (compute_crc framed) total_header ∙ crc_stamped) (omega (arith, h.count))
            (ap (λ n. sub_u32 n 1) h.count ∙ delta ∙ ap (λ n. n - 1) (sym h.count))
            (no_compression meta.control)
            (ap₂ (λ t n. walk_records framed t n batch_header_bytes) total_header h.count
              ∙ walked
              ∙ ap some (sym total_header))

    declared :
        batch_length_prefix_bytes + load_u32_le framed 8 ≡ batch_header_bytes + length (body vs)
    unfolding load_batch_header header_for
    declared = ap (λ g. batch_length_prefix_bytes + g.batch_length) loaded ∙ total_lem

    iterated : read_records (length vs) (record_iterator framed) ≡ vs
    iterated =
        ap (read_records (length vs)) (
          iterator_accepted framed (batch_header_bytes + length (body vs)) declared (omega arith)
            (omega (arith, length-framed)))
        ∙ read_records_lem framed rest vs (length vs) batch_header_bytes
            (batch_header_bytes + length (body vs)) (le_refl _) h.sizes at_body refl

-- A batch that the builder frames, whatever follows it in the read buffer, is accepted, and its
-- records are read back in the order in which they were added. The builder was cleared and holds at
-- least one record, and the numbers of the batch fit their fields.
pub framed_batch-RoundTrip :
    (vs : List (List ℕ)) (b : BatchBuilder) (base : ℕ) (meta : BatchMeta) (rest : List ℕ)
    → Holds vs b
    → IsMeta base meta
    → 1 ≤ length vs
    → (validate_batch (framed_batch base meta b ++ rest) ≡ ok tt)
      × (read_records (length vs) (record_iterator (framed_batch base meta b ++ rest)) ≡ vs)
framed_batch-RoundTrip vs b base meta rest h w n =
    rw (framed_lem vs b base meta h w n)
      (validated vs b base meta h w n rest, iterated vs b base meta h w n rest)

-- The header of a framed batch is read back: it starts at the offset that was given, and ends behind
-- its records.
pub framed_batch-decoded :
    (vs : List (List ℕ)) (b : BatchBuilder) (base : ℕ) (meta : BatchMeta)
    → Holds vs b
    → IsMeta base meta
    → 1 ≤ length vs
    → (h : BatchHeader) × (decode_header (framed_batch base meta b) ≡ ok h)
      × (h.base_offset ≡ base)
      × (next_offset h ≡ add_u64 base (length vs))
unfolding header_for
framed_batch-decoded vs b base meta h w some_record = (
  record (header_for base meta b) { crc = checksum vs b base meta h w some_record },
  ap decode_header (
        framed_lem vs b base meta h w some_record
        ∙ sym (append-nil (stamped vs b base meta h w some_record ++ body vs)))
      ∙ decoded vs b base meta h w some_record [],
  refl,
  omega (arith, w.offset, h.count, h.small, count_small vs),
)
