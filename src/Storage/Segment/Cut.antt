-- ===== src/Storage/Segment/Cut.antt =====
-- src/storage/segment.cpp: Segment::truncate_to.
pub mod Boundary
use log_engine.Prelude.{
  ℕ, zero, suc, not, Option, none, some, ltb, leb, ◌==◌, if◌then◌else◌, to_u32, add_u32,
}
use log_engine.Base.Error.{corrupt_record, invalid_argument}
use log_engine.Io.Disk.{Disk, Run, pure, refuse, ◌>>=◌, ◌>>◌}
use log_engine.Storage.RecordBatch.{batch_header_bytes, BatchHeader, total_bytes, next_offset}
use log_engine.Storage.Segment.{Segment, header_in, relative}
use log_engine.Storage.SparseIndex.{lookup_index, truncate_index}

module _ (D : Disk) where
  -- The body of the walk behind the header, and `again`, the turns after it.
  unfoldable pub cut_turn : ℕ → ℕ → (ℕ → Run D.State ℕ) → Option BatchHeader → Run D.State ℕ
  cut_turn offset pos again none = refuse corrupt_record
  cut_turn offset pos again (some h) =
      if h.base_offset == offset
      then pure pos
      else if ltb offset h.base_offset
      then refuse invalid_argument
      else again (add_u32 pos (to_u32 (total_bytes h)))

  -- The walk to the batch that begins at `offset`. As many turns as the segment has bytes are enough.
  unfoldable pub find_cut : Segment → ℕ → ℕ → ℕ → Run D.State ℕ
  unfolding cut_turn
  find_cut g offset zero pos = refuse invalid_argument
  find_cut g offset (suc turns) pos =
      if not (ltb pos g.size_bytes) then refuse invalid_argument else do
        got ← D.pread g.log_file batch_header_bytes pos
        cut_turn offset pos (find_cut g offset turns) (header_in got)

  unfoldable pub cut_at : Segment → ℕ → ℕ → Run D.State Segment
  cut_at g offset cut = do
    D.truncate g.log_file cut
    pure (record g { size_bytes = cut; next_offset = offset; index = truncate_index g.index cut })

  unfoldable pub truncate_to : Segment → ℕ → Run D.State Segment
  unfolding find_cut cut_at
  truncate_to g offset =
      if leb g.next_offset offset
      then pure g
      else if leb offset g.base_offset
      then cut_at g offset 0
      else find_cut g offset g.size_bytes (lookup_index g.index (relative g offset)).file_pos
        >>= cut_at g offset
