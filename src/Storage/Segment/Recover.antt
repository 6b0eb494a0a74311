-- ===== src/Storage/Segment/Recover.antt =====
-- src/storage/segment.cpp: Segment::open and Segment::recover. The index only says where the scan may
-- start; the scan keeps the batches that follow one another and cuts the file behind them.
pub mod Scan
pub mod Choose
pub mod Index
pub mod Whole
use log_engine.Storage.RecordBatch.{next_offset as offset_after}
use log_engine.Prelude.{
  ℕ, zero, suc, Bool, true, false, not, Option, none, some, List, [], ltb, ◌==◌, if◌then◌else◌,
  length, to_u32, add_u32, add_u64, sub_u32,
}
use log_engine.Base.Error.{corrupt_record, Result, ok, fail}
use log_engine.Io.Disk.{
  mode_read, mode_create, Disk, Run, pure, refuse, ◌>>=◌, ◌>>◌, attempt, ask, perform,
}
use log_engine.Io.Paths.{is_found}
use log_engine.Storage.FileNames.{log_name, index_name, join}
use log_engine.Storage.RecordBatch.{
  batch_header_bytes, BatchHeader, total_bytes, next_offset, validate_batch,
}
use log_engine.Storage.RecordBatch.Records.{body}
use log_engine.Storage.Segment.{no_report, Segment, header_in, is_ok, relative}
use log_engine.Storage.SparseIndex.{IndexEntry, back, maybe_add, truncate_index, decode_index}

-- The variables of the scan.
pub record ScanState : Type 0 where
  pub pos : ℕ
  pub expect_offset : ℕ
  pub index : List IndexEntry
  pub scanned : ℕ

-- The last entry of the index whose claim holds, and the entries up to it.
pub record Start : Type 0 where
  pub index : List IndexEntry
  pub usable : Option IndexEntry

abbrev pub or_none : Result (List IndexEntry) → List IndexEntry
or_none (ok es) = es
or_none (fail c) = []

abbrev pub claims : ℕ → IndexEntry → Option BatchHeader → Bool
claims base e none = false
claims base e (some h) = h.base_offset == add_u64 base e.rel_offset

abbrev pub claim_of : ℕ → IndexEntry → Result (List ℕ) → Bool
claim_of base e (fail c) = false
claim_of base e (ok got) = claims base e (header_in got)

abbrev pub scan_from : Segment → Start → ScanState
scan_from g start = record {
  pos = elim start.usable [ none ↦ 0 | some e ↦ e.file_pos ];
  expect_offset = elim start.usable [
    | none ↦ g.base_offset
    | some e ↦ add_u64 g.base_offset e.rel_offset
  ];
  index = start.index;
  scanned = 0;
}

-- The variables after the batch of this header.
abbrev pub past_batch : Segment → BatchHeader → ScanState → ScanState
past_batch g h st = record {
  pos = add_u32 st.pos (to_u32 (total_bytes h));
  expect_offset = offset_after h;
  index = maybe_add st.index (relative g h.base_offset) st.pos g.index_interval_bytes;
  scanned = add_u64 st.scanned 1;
}

unfoldable pub recovered : Segment → ScanState → Bool → Bool → ℕ → Segment
recovered g st usable truncated cut = record g {
  index = if truncated then truncate_index st.index st.pos else st.index;
  size_bytes = st.pos;
  next_offset = st.expect_offset;
  recovery = record {
    batches_scanned = st.scanned;
    bytes_truncated = cut;
    valid_bytes = st.pos;
    next_offset = st.expect_offset;
    index_was_usable = usable;
    truncated = truncated;
  };
}

-- The segment before it is recovered.
abbrev pub new_segment : List ℕ → ℕ → ℕ → ℕ → ℕ → Segment
new_segment dir base_offset max_bytes interval file = record {
  base_offset = base_offset;
  next_offset = base_offset;
  max_bytes = max_bytes;
  index_interval_bytes = interval;
  log_file = file;
  log_path = join dir (log_name base_offset);
  index_path = join dir (index_name base_offset);
  size_bytes = 0;
  index = [];
  recovery = no_report;
}

module _ (D : Disk) where
  -- What the index file holds; none of its failures is an error.
  unfoldable pub read_entries : ℕ → ℕ → ℕ → Run D.State (List IndexEntry)
  read_entries id file_size index_size =
      if index_size == 0
      then pure []
      else do got ← D.pread id index_size 0; pure (decode_index got file_size)

  unfoldable pub read_open_index : ℕ → ℕ → Run D.State (List IndexEntry)
  unfolding read_entries
  read_open_index id file_size = do
    entries ← attempt (ask (D.file_size id) >>= read_entries id file_size)
    perform (D.close id)
    pure (or_none entries)

  abbrev pub index_of : ℕ → Result ℕ → Run D.State (List IndexEntry)
  index_of file_size (fail c) = pure []
  index_of file_size (ok id) = read_open_index id file_size

  unfoldable pub read_index : List ℕ → ℕ → Run D.State (List IndexEntry)
  unfolding read_open_index
  read_index index_path file_size =
      attempt (D.open_file index_path mode_read) >>= index_of file_size

  -- The body of the loop over the index, for its last entry, and `again`, the turns after it.
  unfoldable pub choose_last :
      Segment
      → (List IndexEntry → Run D.State Start)
      → List IndexEntry
      → Option IndexEntry
      → Run D.State Start
  choose_last g again es none = pure (record { index = es; usable = none })
  choose_last g again es (some e) = do
    got ← attempt (D.pread g.log_file batch_header_bytes e.file_pos)
    if claim_of g.base_offset e got
        then pure (record { index = es; usable = some e })
        else again (truncate_index es e.file_pos)

  -- The loop over the index from its end; as many turns as it has entries are enough.
  unfoldable pub choose_start : Segment → ℕ → List IndexEntry → Run D.State Start
  unfolding choose_last
  choose_start g zero es = pure (record { index = es; usable = none })
  choose_start g (suc turns) es = choose_last g (choose_start g turns) es (back es)

  -- The tests of a batch that was read, and `again`, the turns after it.
  unfoldable pub scan_body :
      Segment
      → (ScanState → Run D.State ScanState)
      → ScanState
      → BatchHeader
      → List ℕ
      → Run D.State ScanState
  scan_body g again st h body =
      if ltb (length body) (total_bytes h)
      then pure st
      else if not (is_ok (validate_batch body))
      then pure st
      else if not (h.base_offset == st.expect_offset)
      then pure st
      else again (past_batch g h st)

  -- The body of the loop behind the header.
  unfoldable pub scan_batch :
      Segment
      → ℕ
      → (ScanState → Run D.State ScanState)
      → ScanState
      → Option BatchHeader
      → Run D.State ScanState
  unfolding scan_body
  scan_batch g file_size again st none = pure st
  scan_batch g file_size again st (some h) =
      if ltb (sub_u32 file_size st.pos) (total_bytes h)
      then pure st
      else D.pread g.log_file (total_bytes h) st.pos >>= scan_body g again st h

  -- A turn passes over a whole batch, so that as many turns as the file has bytes are enough.
  unfoldable pub scan : Segment → ℕ → ℕ → ScanState → Run D.State ScanState
  unfolding scan_batch
  scan g file_size zero st = pure st
  scan g file_size (suc turns) st = if not (ltb st.pos file_size) then pure st else do
    got ← D.pread g.log_file batch_header_bytes st.pos
    scan_batch g file_size (scan g file_size turns) st (header_in got)

  -- The tail behind the last batch is cut off.
  unfoldable pub cut_tail : Segment → ℕ → Bool → ScanState → Run D.State Segment
  unfolding recovered
  cut_tail g file_size usable st =
      if ltb st.pos file_size
      then (do
        D.truncate g.log_file st.pos
        pure (recovered g st usable true (sub_u32 file_size st.pos)))
      else pure (recovered g st usable false 0)

  -- Steps 2 and 3, with the entries that the index file held.
  unfoldable pub recover_from : Segment → ℕ → List IndexEntry → Run D.State Segment
  unfolding choose_start scan cut_tail
  recover_from g file_size entries = do
    start ← choose_start g (length entries) entries
    st ← scan g file_size file_size (scan_from g start)
    cut_tail g file_size (is_found start.usable) st

  unfoldable pub recover_sized : Segment → ℕ → Run D.State Segment
  unfolding read_index recover_from
  recover_sized g size =
      if ltb g.max_bytes size
      then refuse corrupt_record
      else do entries ← read_index g.index_path (to_u32 size); recover_from g (to_u32 size) entries

  unfoldable pub recover : Segment → Run D.State Segment
  unfolding recover_sized
  recover g = ask (D.file_size g.log_file) >>= recover_sized g

  -- A segment that is not recovered is destroyed, and its file closed.
  abbrev pub or_close : ℕ → Result Segment → Run D.State Segment
  or_close file (ok g) = pure g
  or_close file (fail c) = perform (D.close file) >>= λ u. refuse c

  unfoldable pub open_segment : List ℕ → ℕ → ℕ → ℕ → Run D.State Segment
  unfolding recover
  open_segment dir base_offset max_bytes interval = do
    file ← D.open_file (join dir (log_name base_offset)) mode_create
    g ← attempt (recover (new_segment dir base_offset max_bytes interval file))
    or_close file g
