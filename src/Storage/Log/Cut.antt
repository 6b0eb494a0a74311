-- ===== src/Storage/Log/Cut.antt =====
-- src/storage/log.cpp: Log::truncate_to.
use log_engine.Prelude.{ℕ, not, List, [], ◌∷◌, ltb, leb, ◌==◌, if◌then◌else◌}
use log_engine.Base.Error.{invalid_argument}
use log_engine.Io.Disk.{Disk, Run, pure, refuse, ◌>>=◌, ◌>>◌, perform}
use log_engine.Storage.FileNames.{log_name, index_name, join}
use log_engine.Storage.Log.{Log, Store, on_disk, log_of, update_log, on_active}
use log_engine.Storage.Segment.{Segment}
use log_engine.Storage.Segment.Cut.{truncate_to}

module _ (D : Disk) where
  -- Removing a file may fail, and nobody asks.
  unfoldable pub remove_segment_files : List ℕ → ℕ → Run D.State (Unit {0})
  remove_segment_files dir base_offset = do
    perform (λ s. (D.remove (join dir (log_name base_offset)) s).1)
    perform (λ s. (D.remove (join dir (index_name base_offset)) s).1)

  -- `segments_.pop_back()`: the segment is destroyed, its file closed, and its files are removed.
  abbrev pub pop_segment : Segment → List Segment → Log → Log
  pop_segment g gs l = record l { active = g; older = gs }

  -- The loop over the segments from the newest; the turns are those before the oldest.
  unfoldable pub drop_segments : ℕ → List Segment → Run (Store D) (Unit {0})
  unfolding remove_segment_files
  drop_segments offset [] = pure tt
  drop_segments offset (g ∷ gs) = do
    l ← log_of D
    if not (leb offset l.active.base_offset) then pure tt else (do
      on_disk D (perform (D.close l.active.log_file))
      on_disk D (remove_segment_files l.dir l.active.base_offset)
      update_log D (pop_segment g gs)
      drop_segments offset gs)

  unfoldable pub truncate_log : ℕ → Run (Store D) (Unit {0})
  unfolding drop_segments
  truncate_log offset = do
    l ← log_of D
    if ltb l.next_offset offset
        then refuse invalid_argument
        else if ltb offset l.start_offset
        then refuse invalid_argument
        else if offset == l.next_offset
        then pure tt
        else (do
          drop_segments offset l.older
          on_active D (λ g. truncate_to D g offset)
          update_log D (λ m. record m { next_offset = m.active.next_offset }))
