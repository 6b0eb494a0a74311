-- ===== src/Storage/Log/Read.antt =====
-- src/storage/log.cpp: what reads the log: Log::read, Log::scan_epochs, Log::flush_indexes.
use log_engine.Prelude.{ℕ, Bool, true, List, [], ◌∷◌, ltb, leb, ◌==◌, if◌then◌else◌, length}
use mathlib.Core.List.{reverse}
use log_engine.Base.Error.{offset_out_of_range, ok, Status}
use log_engine.Io.Disk.{Disk, Run, pure, refuse, ◌>>=◌, attempt, lift}
use log_engine.Storage.Log.{Log}
use log_engine.Storage.RecordBatch.{BatchHeader}
use log_engine.Storage.Segment.{Segment, is_ok, flush_index}
use log_engine.Storage.Segment.Read.{read_segment, scan_headers}

pub record EpochBoundary : Type 0 where
  pub epoch : ℕ
  pub start_offset : ℕ

-- The segments from the one that owns the offset, oldest first; `later` are those newer than the rest.
-- When every one starts past the offset, that is all of them.
unfoldable pub owners : ℕ → List Segment → List Segment → List Segment
owners offset [] later = later
owners offset (g ∷ gs) later =
    let rest = owners offset gs (g ∷ later) in if leb g.base_offset offset then g ∷ later else rest

-- What the caller of scan_headers does with a header; it never stops. The boundaries are listed newest
-- first.
unfoldable pub note_epoch : BatchHeader → List EpochBoundary → List EpochBoundary × Bool
note_epoch h [] = (record { epoch = h.leader_epoch; start_offset = h.base_offset } ∷ [], true)
note_epoch h (e ∷ es) = (
  if e.epoch == h.leader_epoch
      then e ∷ es
      else record { epoch = h.leader_epoch; start_offset = h.base_offset } ∷ e ∷ es,
  true,
)

module _ (D : Disk) where
  -- The segments in turn, until one gives something.
  unfoldable pub read_owners : ℕ → ℕ → List Segment → Run D.State (List ℕ)
  read_owners offset out_size [] = pure []
  read_owners offset out_size (g ∷ gs) = do
    got ← read_segment D g offset out_size
    if ltb 0 (length got) then pure got else read_owners offset out_size gs

  unfoldable pub read_log : Log → ℕ → ℕ → Run D.State (List ℕ)
  unfolding owners read_owners
  read_log l offset out_size =
      if leb l.next_offset offset
      then pure []
      else if ltb offset l.start_offset
      then refuse offset_out_of_range
      else read_owners offset out_size (owners offset (l.active ∷ l.older) [])

  -- The segments oldest first. A walk over a segment has as many turns as the segment has bytes.
  unfoldable pub scan_segments :
      List Segment → List EpochBoundary → Run D.State (List EpochBoundary)
  unfolding note_epoch
  scan_segments [] es = pure es
  scan_segments (g ∷ gs) es = scan_headers D g note_epoch g.size_bytes 0 es >>= scan_segments gs

  unfoldable pub scan_epochs : Log → Run D.State (List EpochBoundary)
  unfolding scan_segments
  scan_epochs l = scan_segments (reverse (l.active ∷ l.older)) []

  -- Every index is written; the last failure is the result. The segments oldest first.
  unfoldable pub flush_segments : List Segment → Status → Run D.State (Unit {0})
  flush_segments [] result = lift result
  flush_segments (g ∷ gs) result = do
    st ← attempt (flush_index D g)
    flush_segments gs (if is_ok st then result else st)

  unfoldable pub flush_indexes : Log → Run D.State (Unit {0})
  unfolding flush_segments
  flush_indexes l = flush_segments (reverse (l.active ∷ l.older)) (ok tt)
