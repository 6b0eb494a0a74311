-- ===== src/Storage/Log/Open.antt =====
-- src/storage/log.cpp: Log::open, Log::recover and the destructor.
use log_engine.Prelude.{ℕ, Bool, false, not, ◌||◌, List, [], ◌∷◌, ltb, ◌==◌, if◌then◌else◌, add_u64}
use mathlib.Core.List.{reverse}
use log_engine.Base.Error.{io_error, Result, ok, fail, Status}
use log_engine.Io.Disk.{Disk, Run, pure, refuse, ◌>>=◌, ◌>>◌, attempt, ask, perform}
use log_engine.Storage.FileNames.{parse_log_name}
use log_engine.Storage.Log.{LogRecoveryReport, Log}
use log_engine.Storage.Log.Cut.{remove_segment_files}
use log_engine.Storage.Log.Read.{flush_segments}
use log_engine.Storage.Segment.{Segment}
use log_engine.Storage.Segment.Recover.{open_segment}

-- The log while it is recovered: it may have no segment yet. The segments are listed newest first.
pub record Opening (D : Disk) : Type 0 where
  pub disk : D.State
  pub segments : List Segment
  pub report : LogRecoveryReport

-- `std::sort`, ascending
unfoldable pub insert_offset : ℕ → List ℕ → List ℕ
insert_offset x [] = x ∷ []
insert_offset x (y ∷ ys) = if ltb y x then y ∷ insert_offset x ys else x ∷ y ∷ ys

unfoldable pub sort_offsets : List ℕ → List ℕ
unfolding insert_offset
sort_offsets [] = []
sort_offsets (x ∷ xs) = insert_offset x (sort_offsets xs)

abbrev pub take_parsed : Result ℕ → List ℕ → List ℕ
take_parsed (ok offset) rest = offset ∷ rest
take_parsed (fail c) rest = rest

unfoldable pub parse_names : List (List ℕ) → List ℕ
parse_names [] = []
parse_names (name ∷ names) = take_parsed (parse_log_name name) (parse_names names)

-- `!segments_.empty() && bases[kept] != segments_.back()->next_offset()`
abbrev pub is_hole : ℕ → List Segment → Bool
is_hole base [] = false
is_hole base (g ∷ gs) = not (base == g.next_offset)

abbrev pub no_log_report : LogRecoveryReport
no_log_report = record {
  segments_opened = 0;
  segments_discarded = 0;
  batches_scanned = 0;
  bytes_truncated = 0;
  truncated = false;
}

abbrev pub count_opened : LogRecoveryReport → LogRecoveryReport
count_opened r = record r { segments_opened = add_u64 r.segments_opened 1 }

-- The report after a segment was opened.
abbrev pub count_segment : Segment → LogRecoveryReport → LogRecoveryReport
count_segment g r = record r {
  segments_opened = add_u64 r.segments_opened 1;
  batches_scanned = add_u64 r.batches_scanned g.recovery.batches_scanned;
  bytes_truncated = add_u64 r.bytes_truncated g.recovery.bytes_truncated;
  truncated = r.truncated || g.recovery.truncated;
}

-- `segments_.front()`, of a list whose last element is given when it is empty
abbrev pub oldest : Segment → List Segment → Segment
oldest g [] = g
oldest g (h ∷ hs) = oldest h hs

module _ (D : Disk) (dir : List ℕ) (max_bytes interval : ℕ) where
  abbrev pub opening_disk : {A : Type 0} → Run D.State A → Run (Opening D) A
  opening_disk m w =
      let r = m w.disk in (r.0, record { disk = r.1; segments = w.segments; report = w.report })

  abbrev pub open_next : ℕ → Run (Opening D) Segment
  open_next base = do
    g ← opening_disk (open_segment D dir base max_bytes interval)
    perform (λ w. record w { segments = g ∷ w.segments })
    pure g

  unfoldable pub existing_segment_offsets : Run D.State (List ℕ)
  unfolding sort_offsets parse_names
  existing_segment_offsets =
      ask (D.list_directory dir) >>= λ names. pure (sort_offsets (parse_names names))

  -- The loop over the offsets; what is left are the segments that are dropped.
  unfoldable pub keep_segments : List ℕ → Run (Opening D) (List ℕ)
  keep_segments [] = pure []
  keep_segments (base ∷ bases) = do
    w ← (λ w. (ok w, w))
    if is_hole base w.segments then pure (base ∷ bases) else (do
      g ← open_next base
      perform (λ v. record v { report = count_segment g v.report })
      if g.recovery.truncated then pure bases else keep_segments bases)

  unfoldable pub discard_segments : List ℕ → Run (Opening D) (Unit {0})
  unfolding remove_segment_files
  discard_segments [] = pure tt
  discard_segments (base ∷ bases) = do
    opening_disk (remove_segment_files D dir base)
    perform (λ w. record w {
      report = record w.report { segments_discarded = add_u64 w.report.segments_discarded 1 };
    })
    discard_segments bases

  -- A log has at least one segment.
  abbrev pub or_first : List Segment → Run (Opening D) (Unit {0})
  or_first (g ∷ gs) = pure tt
  or_first [] = open_next 0 >>= λ g. perform (λ w. record w { report = count_opened w.report })

  unfoldable pub recover_log : Run (Opening D) (Unit {0})
  unfolding existing_segment_offsets keep_segments discard_segments
  recover_log = do
    bases ← opening_disk existing_segment_offsets
    rest ← keep_segments bases
    discard_segments rest
    w ← (λ w. (ok w, w))
    or_first w.segments

  -- The destructor: the indexes are written, with no regard for a failure, and the files closed.
  unfoldable pub close_segments : List Segment → Run D.State (Unit {0})
  close_segments [] = pure tt
  close_segments (g ∷ gs) = perform (D.close g.log_file) >> close_segments gs

  unfoldable pub destroy_log : List Segment → Run D.State (Unit {0})
  unfolding close_segments
  destroy_log gs =
      attempt (flush_segments D (reverse gs) (ok tt)) >>= λ st. close_segments (reverse gs)

  abbrev pub log_from : Segment → List Segment → LogRecoveryReport → Log
  log_from g gs r = record {
    dir = dir;
    segment_max_bytes = max_bytes;
    index_interval_bytes = interval;
    active = g;
    older = gs;
    start_offset = (oldest g gs).base_offset;
    next_offset = g.next_offset;
    recovery = r;
  }

  -- The log, or what is left of one that was not recovered.
  abbrev pub opened_log : Status → List Segment → LogRecoveryReport → Run D.State Log
  opened_log (ok u) (g ∷ gs) r = pure (log_from g gs r)
  opened_log (ok u) [] r = refuse io_error
  opened_log (fail c) gs r = destroy_log gs >>= λ u. refuse c

  abbrev pub finish_open : Status × Opening D → Result Log × D.State
  finish_open (st, w) = opened_log st w.segments w.report w.disk

  unfoldable pub open_log : Run D.State Log
  unfolding recover_log destroy_log
  open_log = (λ s. ((D.make_directories dir s).0, (D.make_directories dir s).1)) >>= λ u s.
      finish_open (recover_log (record { disk = s; segments = []; report = no_log_report }))
