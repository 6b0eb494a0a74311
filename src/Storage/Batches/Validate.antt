-- ===== src/Storage/Batches/Validate.antt =====
-- src/storage/record_batch.cpp: validation looks at the bytes of the batch, and at none behind it.
use log_engine.Prelude.{
  ℕ, zero, suc, ◌+◌, ◌-◌, ◌≤◌, ◌≡◌, refl, sym, ap, ◌∙◌, inl, inr, List, arith, ltb, lt→ltb,
  le→not-ltb, Bool-cases, length, take, drop, length-take_within, take_inside, take-take,
}
use log_engine.Base.Endian.{load_u32_le}
use log_engine.Base.Error.{ok}
use log_engine.Storage.Batches.Header.{byte_at-take, decode_header-take, decode_header_bounds}
use log_engine.Storage.RecordBatch.{
  batch_header_bytes, crc_covered_from, BatchHeader, total_bytes, decode_header, compute_crc,
  walk_records, validate_body, validate_decoded, validate_batch,
}

load_u32_le-take :
    (n : ℕ) (p : List ℕ) (pos : ℕ) → pos + 4 ≤ n → load_u32_le (take n p) pos ≡ load_u32_le p pos
unfolding load_u32_le
load_u32_le-take n p pos h =
    rw
      (
        byte_at-take n p pos,
        byte_at-take n p (pos + 1),
        byte_at-take n p (pos + 2),
        byte_at-take n p (pos + 3),
        lt→ltb pos n (omega arith),
        lt→ltb (pos + 1) n (omega arith),
        lt→ltb (pos + 2) n (omega arith),
        lt→ltb (pos + 3) n (omega arith),
      )
      refl

walk_records-take :
    (p : List ℕ) (total count pos : ℕ)
    → walk_records (take total p) total count pos ≡ walk_records p total count pos
unfolding walk_records
walk_records-take p total zero pos = refl
walk_records-take p total (suc count) pos = elim (Bool-cases (ltb (total - pos) 4)) [
  | inl h ↦ rw h refl
  | inr h ↦
      rw
        (
          h,
          load_u32_le-take total p pos (ground arith),
          walk_records-take p total count (pos + 4 + load_u32_le p pos),
        )
        refl
]

validate_body-take :
    (p : List ℕ) (h : BatchHeader)
    → batch_header_bytes ≤ total_bytes h
    → total_bytes h ≤ length p
    → validate_body (take (total_bytes h) p) h ≡ validate_body p h
unfolding validate_body compute_crc
validate_body-take p h m l =
    rw
      (
        le→not-ltb (length p) (total_bytes h) l,
        le→not-ltb (length (take (total_bytes h) p)) (total_bytes h)
            (omega (arith, length-take_within (total_bytes h) p l)),
        crc,
        walk_records-take p (total_bytes h) h.record_count batch_header_bytes,
      )
      refl
  where
    crc :
        take (total_bytes h - crc_covered_from) (drop crc_covered_from (take (total_bytes h) p))
        ≡ take (total_bytes h - crc_covered_from) (drop crc_covered_from p)
    crc = take_inside (total_bytes h) 16 (total_bytes h - 16) p (omega arith)

-- The batch at the front of some bytes is valid exactly as it is alone.
pub validate_batch-take :
    (p : List ℕ) (h : BatchHeader)
    → decode_header p ≡ ok h
    → total_bytes h ≤ length p
    → validate_batch (take (total_bytes h) p) ≡ validate_batch p
unfolding validate_batch
validate_batch-take p h d l =
    let t = decode_header_bounds p h d in
    ap (validate_decoded (take (total_bytes h) p)) (alone ∙ d)
    ∙ validate_body-take p h t.0 l
    ∙ sym (ap (validate_decoded p) d)
  where
    alone : decode_header (take (total_bytes h) p) ≡ decode_header p
    alone =
        let t = decode_header_bounds p h d in
        sym (
          decode_header-take (take (total_bytes h) p)
            (omega (arith, length-take_within (total_bytes h) p l)))
        ∙ ap decode_header (take-take (total_bytes h) 52 p (omega arith))
        ∙ decode_header-take p (omega arith)
