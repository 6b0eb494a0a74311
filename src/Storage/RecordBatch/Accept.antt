-- ===== src/Storage/RecordBatch/Accept.antt =====
-- src/storage/record_batch.cpp: what validation and the iterator accept.
use log_engine.Prelude.{
  ℕ, ◌+◌, ◌-◌, ◌≤◌, ◌≡◌, refl, ap, false, some, List, arith, ltb, ◌==◌, if◌then◌else◌, le→not-ltb,
  ==_self, length,
}
use Prim.Native.Nat.{bit_and}
use log_engine.Base.Endian.{load_u32_le}
use log_engine.Base.Error.{ok}
use log_engine.Storage.RecordBatch.{
  batch_header_bytes, batch_length_prefix_bytes, attr_compressed, BatchHeader, total_bytes,
  compute_crc, walk_records, validate_body, record_iterator,
}

-- What a batch has to be, to be accepted.
pub body_accepted :
    (framed : List ℕ) (h : BatchHeader)
    → total_bytes h ≤ length framed
    → compute_crc framed (total_bytes h) ≡ h.crc
    → 1 ≤ h.record_count
    → h.last_offset_delta ≡ h.record_count - 1
    → bit_and h.attributes attr_compressed ≡ 0
    → walk_records framed (total_bytes h) h.record_count batch_header_bytes ≡ some (total_bytes h)
    → validate_body framed h ≡ ok tt
unfolding validate_body
body_accepted framed h l c n d a k =
    rw
      (
        le→not-ltb (length framed) (total_bytes h) l,
        c,
        ==_self h.crc,
        positive,
        d,
        ==_self (h.record_count - 1),
        a,
        k,
        ==_self (total_bytes h),
      )
      refl
  where
    positive : (h.record_count == 0) ≡ false
    positive = ground arith

pub iterator_accepted :
    (framed : List ℕ) (total : ℕ)
    → batch_length_prefix_bytes + load_u32_le framed 8 ≡ total
    → batch_header_bytes ≤ total
    → total ≤ length framed
    → record_iterator framed ≡ record { framed = framed; pos = batch_header_bytes; end_pos = total }
unfolding record_iterator
iterator_accepted framed total e p q =
    rw
      (
        le→not-ltb (length framed) batch_header_bytes (omega arith),
        e,
        le→not-ltb total batch_header_bytes p,
      )
      (ap (λ t. record { framed = framed; pos = batch_header_bytes; end_pos = t }) last)
  where
    last : (if ltb total (length framed) then total else length framed) ≡ total
    last = ground arith
