-- ===== src/Storage/Log.antt =====
-- src/storage/log.h and src/storage/log.cpp: the segments of one directory, which together are a log.
-- The segments are listed newest first, so that `segments_.back()` is the head, which is a field of its
-- own, since a log that is open has one.
pub mod Open
pub mod Cut
pub mod Read
pub mod Chain
pub mod Appends
pub mod Assigns
pub mod Truncates
pub mod Opens
pub mod Serves
use log_engine.Storage.RecordBatch.{next_offset as offset_after}
use log_engine.Prelude.{ℕ, Bool, not, ◌&&◌, List, ◌∷◌, ltb, ◌==◌, if◌then◌else◌, length, sub_u32}
use log_engine.Base.Buffer.{size}
use log_engine.Base.Error.{
  corrupt_record, message_too_large, invalid_request, invalid_argument, Result, ok, fail,
}
use log_engine.Io.Disk.{Disk, Run, pure, refuse, ◌>>=◌, ◌>>◌}
use log_engine.Storage.RecordBatch.{
  BatchHeader, total_bytes, BatchMeta, decode_header, validate_batch, BatchBuilder, finish,
}
use log_engine.Storage.Segment.{Segment, is_ok, append_batch, sync_segment, flush_index}
use log_engine.Storage.Segment.Recover.{open_segment}

pub record LogRecoveryReport : Type 0 where
  pub segments_opened : ℕ
  pub segments_discarded : ℕ
  pub batches_scanned : ℕ
  pub bytes_truncated : ℕ
  pub truncated : Bool

pub record Log : Type 0 where
  pub dir : List ℕ
  pub segment_max_bytes : ℕ
  pub index_interval_bytes : ℕ
  pub active : Segment
  pub older : List Segment
  pub start_offset : ℕ
  pub next_offset : ℕ
  pub recovery : LogRecoveryReport

-- The log and the disk that it is on: an operation that fails may leave both changed.
pub record Store (D : Disk) : Type 0 where
  pub disk : D.State
  pub log : Log

-- `active->empty()`
abbrev pub is_unused : Segment → Bool
is_unused g = g.size_bytes == 0

abbrev pub needs_roll : ℕ → Log → Bool
needs_roll n l = not (is_unused l.active) && ltb (sub_u32 l.segment_max_bytes l.active.size_bytes) n

-- `segments_.push_back`
abbrev pub push_segment : Segment → Log → Log
push_segment g l = record l { active = g; older = l.active ∷ l.older }

module _ (D : Disk) where
  abbrev pub on_disk : {A : Type 0} → Run D.State A → Run (Store D) A
  on_disk m w = let r = m w.disk in (r.0, record { disk = r.1; log = w.log })

  abbrev pub log_of : Run (Store D) Log
  log_of w = (ok w.log, w)

  abbrev pub update_log : (Log → Log) → Run (Store D) (Unit {0})
  update_log f w = (ok tt, record { disk = w.disk; log = f w.log })

  -- An operation of the active segment, which takes its place.
  abbrev pub on_active : (Segment → Run D.State Segment) → Run (Store D) (Unit {0})
  on_active f = do l ← log_of; g ← on_disk (f l.active); update_log (λ m. record m { active = g })

  unfoldable pub add_segment : ℕ → Run (Store D) (Unit {0})
  add_segment base_offset = do
    l ← log_of
    g ← on_disk (open_segment D l.dir base_offset l.segment_max_bytes l.index_interval_bytes)
    update_log (push_segment g)

  unfoldable pub roll : Run (Store D) (Unit {0})
  unfolding add_segment
  roll = do
    l ← log_of
    on_disk (sync_segment D l.active)
    on_disk (flush_index D l.active)
    add_segment l.next_offset

  -- The active segment, once there is room in it.
  unfoldable pub make_room : ℕ → Run (Store D) (Unit {0})
  unfolding roll
  make_room n = do l ← log_of; if needs_roll n l then roll else pure tt

  unfoldable pub append_active : List ℕ → BatchHeader → Run (Store D) (Unit {0})
  append_active framed header = do
    on_active (append_batch D framed header)
    update_log (λ l. record l { next_offset = offset_after header })

  abbrev pub with_header : List ℕ → Result BatchHeader → Run (Store D) (Unit {0})
  with_header framed (fail c) = refuse c
  with_header framed (ok h) = append_active framed h

  -- The offset that the batch gets, and the builder, whose bytes are stamped.
  unfoldable pub append_log : BatchBuilder → BatchMeta → Run (Store D) (ℕ × BatchBuilder)
  unfolding make_room append_active
  append_log builder meta = if builder.record_count == 0 then refuse invalid_request else do
    l ← log_of
    if ltb l.segment_max_bytes (size builder.buf) then refuse message_too_large else (do
      make_room (size builder.buf)
      m ← log_of
      with_header (finish m.next_offset meta builder).0
          (decode_header (finish m.next_offset meta builder).0)
      pure (m.next_offset, (finish m.next_offset meta builder).1))

  -- The tests of a batch that a leader sent.
  unfoldable pub append_checked : List ℕ → BatchHeader → Run (Store D) (Unit {0})
  unfolding make_room append_active
  append_checked framed h = do
    l ← log_of
    if not (length framed == total_bytes h)
        then refuse invalid_request
        else if not (h.base_offset == l.next_offset)
        then refuse invalid_argument
        else if not (is_ok (validate_batch framed))
        then refuse corrupt_record
        else if ltb l.segment_max_bytes (length framed)
        then refuse message_too_large
        else make_room (length framed) >> append_active framed h

  abbrev pub append_decoded : List ℕ → Result BatchHeader → Run (Store D) (Unit {0})
  append_decoded framed (fail c) = refuse c
  append_decoded framed (ok h) = append_checked framed h

  unfoldable pub append_replicated : List ℕ → Run (Store D) (Unit {0})
  unfolding append_checked
  append_replicated framed = append_decoded framed (decode_header framed)

  unfoldable pub sync_log : Run (Store D) (Unit {0})
  sync_log = do l ← log_of; on_disk (sync_segment D l.active)
