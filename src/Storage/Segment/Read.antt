-- ===== src/Storage/Segment/Read.antt =====
-- src/storage/segment.cpp: Segment::read and Segment::scan_headers. A read returns the bytes that it
-- leaves in the buffer, whole batches.
pub mod Serve
pub mod Found
pub mod Whole
pub mod Reads
use log_engine.Storage.RecordBatch.{next_offset as offset_after}
use log_engine.Prelude.{
  ℕ, zero, suc, ◌+◌, ◌-◌, min, Bool, not, Option, none, some, List, [], ltb, leb, if◌then◌else◌,
  length, take, drop, to_u32, add_u32,
}
use log_engine.Base.Error.{corrupt_record, message_too_large, Result, ok, fail}
use log_engine.Io.Disk.{Disk, Run, pure, refuse, ◌>>=◌, lift}
use log_engine.Storage.RecordBatch.{
  batch_header_bytes, BatchHeader, total_bytes, decode_header, validate_batch,
}
use log_engine.Storage.Segment.{Segment, header_in, is_ok, relative}
use log_engine.Storage.SparseIndex.{lookup_index}

-- The body of the loop over the bytes that were read, and `again`, the turns after it.
unfoldable pub whole_turn : List ℕ → ℕ → (ℕ → Result ℕ) → Result BatchHeader → Result ℕ
whole_turn got whole again (fail c) = fail corrupt_record
whole_turn got whole again (ok h) =
    if ltb (length got) (whole + total_bytes h)
    then ok whole
    else if not (is_ok (validate_batch (drop whole got)))
    then fail corrupt_record
    else again (whole + total_bytes h)

-- How many of the bytes are whole batches, each of them valid. A turn passes over a batch, so that as
-- many turns as there are bytes are enough.
unfoldable pub whole_batches : ℕ → List ℕ → ℕ → Result ℕ
unfolding whole_turn
whole_batches zero got whole = ok whole
whole_batches (suc turns) got whole =
    let rest = whole_turn got whole (whole_batches turns got) (decode_header (drop whole got)) in
    if not (leb (whole + batch_header_bytes) (length got)) then ok whole else rest

-- What the caller gets of the bytes that were read.
abbrev pub served : List ℕ → Result ℕ → Result (List ℕ)
served got (fail c) = fail c
served got (ok whole) = ok (take whole got)

module _ (D : Disk) where
  -- The body of the walk behind the header, and `again`, the turns after it.
  unfoldable pub find_turn :
      ℕ → ℕ → (ℕ → Run D.State (ℕ × ℕ)) → Option BatchHeader → Run D.State (ℕ × ℕ)
  find_turn want pos again none = refuse corrupt_record
  find_turn want pos again (some h) =
      if ltb want (offset_after h)
      then pure (pos, total_bytes h)
      else again (add_u32 pos (to_u32 (total_bytes h)))

  -- The walk to the batch that contains `want`: its position and its length, or the end of the
  -- segment and 0. As many turns as the segment has bytes are enough.
  unfoldable pub find_batch : Segment → ℕ → ℕ → ℕ → Run D.State (ℕ × ℕ)
  unfolding find_turn
  find_batch g want zero pos = pure (pos, 0)
  find_batch g want (suc turns) pos = if not (ltb pos g.size_bytes) then pure (pos, 0) else do
    got ← D.pread g.log_file batch_header_bytes pos
    find_turn want pos (find_batch g want turns) (header_in got)

  -- The bulk read from the batch that was found.
  unfoldable pub read_batches : Segment → ℕ → ℕ × ℕ → Run D.State (List ℕ)
  unfolding whole_batches
  read_batches g out_size (pos, first_total) =
      if leb g.size_bytes pos
      then pure []
      else if ltb out_size first_total
      then refuse message_too_large
      else do
        got ← D.pread g.log_file (min (g.size_bytes - pos) out_size) pos
        lift (served got (whole_batches (length got) got 0))

  unfoldable pub read_segment : Segment → ℕ → ℕ → Run D.State (List ℕ)
  unfolding find_batch read_batches
  read_segment g offset out_size =
      if leb g.next_offset offset
      then pure []
      else (let want = if ltb offset g.base_offset then g.base_offset else offset in
          find_batch g want g.size_bytes (lookup_index g.index (relative g want)).file_pos
          >>= read_batches g out_size)

  -- The walk over the headers from `pos`; `visit` is the caller's, over a state of its own, and says
  -- whether to go on.
  unfoldable pub visit_turn :
      {A : Type 0}
      → (BatchHeader → A → A × Bool)
      → ℕ
      → A
      → (ℕ → A → Run D.State A)
      → Option BatchHeader
      → Run D.State A
  visit_turn visit pos a again none = refuse corrupt_record
  visit_turn visit pos a again (some h) =
      if not (visit h a).1
      then pure (visit h a).0
      else again (add_u32 pos (to_u32 (total_bytes h))) (visit h a).0

  unfoldable pub scan_headers :
      {A : Type 0} → Segment → (BatchHeader → A → A × Bool) → ℕ → ℕ → A → Run D.State A
  unfolding visit_turn
  scan_headers g visit zero pos a = pure a
  scan_headers g visit (suc turns) pos a = if not (ltb pos g.size_bytes) then pure a else do
    got ← D.pread g.log_file batch_header_bytes pos
    visit_turn visit pos a (scan_headers g visit turns) (header_in got)
