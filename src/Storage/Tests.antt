-- ===== src/Storage/Tests.antt =====
-- Batches and index files at concrete inputs.
use log_engine.Prelude.{ℕ, ◌≡◌, refl, false, List, [], ◌∷◌, ◌++◌, arith, take, replicate, All}
use log_engine.Base.Buffer.{
  empty_buffer, contents, clear, append, append_fixed, append_u32_le, append_uninitialized,
}
use log_engine.Base.Endian.{store_u32_le}
use log_engine.Base.Error.{ok}
use log_engine.Storage.FileNames.{
  put_digits, offset_to_name, log_name, parse_digits, parse_log_name,
}
use log_engine.Storage.FileNames.RoundTrip.{parse_log_name-log_name}
use log_engine.Storage.RecordBatch.{
  BatchMeta, validate_batch, BatchBuilder, clear_builder, add_record, framed_batch, record_iterator,
}
use log_engine.Storage.RecordBatch.Build.{Holds}
use log_engine.Storage.RecordBatch.Framing.{IsMeta, framed_batch-RoundTrip}
use log_engine.Storage.RecordBatch.Records.{read_records}
use log_engine.Storage.SparseIndex.{IndexEntry, encode_index, decode_index}
use log_engine.Storage.SparseIndex.File.{decode_index_sound, IsEntry, decode_index-encode_index}
use log_engine.Storage.SparseIndex.Sorted.{IsIndex, PointsBelow}

abbrev pub nothing : BatchBuilder
nothing = record { buf = empty_buffer; record_count = 0 }

abbrev pub value : List ℕ
value = 10 ∷ 20 ∷ 30 ∷ []

abbrev pub one_record : BatchBuilder
one_record = (add_record value (clear_builder nothing)).1

abbrev pub plain_meta : BatchMeta
plain_meta = record {
  leader_epoch = 3;
  control = false;
  timestamp_ms = 1000;
  producer_id = 1;
  producer_epoch = 0;
  base_sequence = 0;
}

pub plain_meta-IsMeta : IsMeta 12 plain_meta
plain_meta-IsMeta = record {
  offset = omega arith;
  epoch = omega arith;
  time = omega arith;
  producer = omega arith;
  producer_epoch = omega arith;
  sequence = omega arith;
}

pub one_record-Holds : Holds (value ∷ []) one_record
unfolding clear_builder clear append_uninitialized add_record append append_u32_le append_fixed
    store_u32_le
one_record-Holds = record {
  front = refl;
  bytes = refl;
  count = refl;
  small = omega arith;
  sizes = (omega arith, tt);
}

framed_batch-RoundTrip_example :
    (validate_batch (framed_batch 12 plain_meta one_record ++ value) ≡ ok tt)
    × (read_records 1 (record_iterator (framed_batch 12 plain_meta one_record ++ value))
        ≡ value ∷ [])
framed_batch-RoundTrip_example =
    framed_batch-RoundTrip (value ∷ []) one_record 12 plain_meta value one_record-Holds
      plain_meta-IsMeta (omega arith)

abbrev entry : ℕ → ℕ → IndexEntry
entry rel pos = record { rel_offset = rel; file_pos = pos }

abbrev index : List IndexEntry
index = entry 0 0 ∷ entry 40 5000 ∷ []

index-IsIndex : IsIndex index
index-IsIndex = (refl, (refl, tt))

index-IsEntry : All IsEntry index
index-IsEntry = ((omega arith, omega arith), ((omega arith, omega arith), tt))

index-PointsBelow : PointsBelow 6000 index
index-PointsBelow = (omega arith, (omega arith, tt))

decode_index_sound_example :
    IsIndex (decode_index value 6000) × PointsBelow 6000 (decode_index value 6000)
decode_index_sound_example = decode_index_sound value 6000

decode_index-encode_index_example :
    decode_index (contents (encode_index index empty_buffer)) 6000 ≡ index
decode_index-encode_index_example =
    decode_index-encode_index index empty_buffer 6000 (omega arith) refl index-IsEntry index-IsIndex
      index-PointsBelow

parse_log_name-log_name_example : parse_log_name (log_name 1204) ≡ ok 1204
parse_log_name-log_name_example = parse_log_name-log_name 1204 (omega arith)

-- The zeros stand in front.
name_of_1204 : take 20 (log_name 1204) ≡ replicate 16 48 ++ (49 ∷ 50 ∷ 48 ∷ 52 ∷ [])
unfolding log_name offset_to_name put_digits
name_of_1204 = refl

-- 2^64 is no offset, and its name is taken for that of the first segment.
above_the_offsets :
    parse_digits
      (49 ∷ 56 ∷ 52 ∷ 52 ∷ 54 ∷ 55 ∷ 52 ∷ 52 ∷ 48 ∷ 55 ∷ 51 ∷ 55 ∷ 48 ∷ 57 ∷ 53 ∷ 53 ∷ 49 ∷ 54 ∷ 49
        ∷ 54 ∷ [])
      0
    ≡ ok 0
unfolding parse_digits
above_the_offsets = refl
