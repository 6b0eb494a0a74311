-- ===== src/Storage/Batches.antt =====
-- The bytes of a segment as src/storage/segment.cpp means them: batches one after the other, the
-- offsets of each continuing those of the one before.
pub mod Header
pub mod Extend
pub mod Longest
pub mod Validate
use log_engine.Storage.RecordBatch.{next_offset as offset_after}
use log_engine.Prelude.{ℕ, ◌+◌, ◌≤◌, ◌≡◌, List, arith, length, take, drop}
use log_engine.Base.Error.{ok}
use log_engine.Storage.RecordBatch.{
  batch_header_bytes, BatchHeader, total_bytes, decode_header, validate_batch,
}

-- A whole and valid batch stands at `pos`, and its first offset is `expect`.
pub record BatchAt (b : List ℕ) (pos expect : ℕ) (h : BatchHeader) : Type 0 where
  pub decodes : decode_header (take batch_header_bytes (drop pos b)) ≡ ok h
  pub inside : pos + total_bytes h ≤ length b
  pub validates : validate_batch (take (total_bytes h) (drop pos b)) ≡ ok tt
  pub continues : h.base_offset ≡ expect

-- The first `pos` bytes are batches, of the offsets from `base` up to `expect`.
pub data Batches (b : List ℕ) (base : ℕ) : ℕ → ℕ → Type 0 where
  no_batch : {pos expect : ℕ} → pos ≡ 0 → expect ≡ base → Batches b base pos expect
  one_more :
      {pos expect pos' expect' : ℕ}
      → Batches b base pos expect
      → (h : BatchHeader) → BatchAt b pos expect h
      → pos' ≡ pos + total_bytes h
      → expect' ≡ offset_after h
      → Batches b base pos' expect'

-- No batch follows.
abbrev pub Ends : List ℕ → ℕ → ℕ → Type 0
Ends b pos expect = (h : BatchHeader) → ¬ BatchAt b pos expect h

pub Batches-le : {b : List ℕ} {base pos expect : ℕ} → Batches b base pos expect → pos ≤ length b
Batches-le (no_batch p e) = omega arith
Batches-le (one_more r h a p e) = omega (arith, a.inside)
