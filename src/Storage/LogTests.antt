-- ===== src/Storage/LogTests.antt =====
-- A log of one segment on a simulated disk.
use log_engine.Prelude.{refl, [], ◌∷◌, arith}
use log_engine.Io.SimDisk.AsDisk.{sim_disk}
use log_engine.Storage.Log.{Log, Store, append_log, append_replicated}
use log_engine.Storage.Log.Appends.{Replicates, append_replicated-Replicates}
use log_engine.Storage.Log.Assigns.{Assigns, append_log-Assigns}
use log_engine.Storage.Log.Chain.{IsChained}
use log_engine.Storage.Log.Cut.{truncate_log}
use log_engine.Storage.Log.Open.{no_log_report, open_log}
use log_engine.Storage.Log.Opens.{OpensChained, open_log-OpensChained}
use log_engine.Storage.Log.Read.{read_log}
use log_engine.Storage.Log.Serves.{ServesLog, read_log-ServesLog}
use log_engine.Storage.Log.Truncates.{Shortens, truncate_log-Shortens}
use log_engine.Storage.Segment.{Segment}
use log_engine.Storage.SegmentTests.{framed, directory, disk, segment, blank}
use log_engine.Storage.Tests.{value, one_record, plain_meta, plain_meta-IsMeta, one_record-Holds}

abbrev log_with : Segment → Log
log_with g = record {
  dir = directory;
  segment_max_bytes = 1000;
  index_interval_bytes = 4096;
  active = g;
  older = [];
  start_offset = 12;
  next_offset = g.next_offset;
  recovery = no_log_report;
}

abbrev store_with : Segment → Store sim_disk
store_with g = record { disk = disk; log = log_with g }

blank-IsChained : IsChained (log_with blank)
blank-IsChained = record { chain = tt; start = refl }

segment-IsChained : IsChained (log_with segment)
segment-IsChained = record { chain = tt; start = refl }

append_replicated-Replicates_example :
    Replicates sim_disk framed
      (log_with blank)
      (append_replicated sim_disk framed (store_with blank))
append_replicated-Replicates_example =
    append_replicated-Replicates sim_disk framed (store_with blank) blank-IsChained refl

append_log-Assigns_example :
    Assigns sim_disk
      (value ∷ [])
      (log_with blank)
      (append_log sim_disk one_record plain_meta (store_with blank))
append_log-Assigns_example =
    append_log-Assigns sim_disk (value ∷ []) one_record plain_meta (store_with blank)
      blank-IsChained refl one_record-Holds plain_meta-IsMeta (omega arith)

truncate_log-Shortens_example :
    Shortens sim_disk 12 (log_with segment) (truncate_log sim_disk 12 (store_with segment))
truncate_log-Shortens_example =
    truncate_log-Shortens sim_disk 12 (store_with segment) segment-IsChained refl

open_log-OpensChained_example :
    OpensChained sim_disk directory 1000 4096 (open_log sim_disk directory 1000 4096 disk)
open_log-OpensChained_example = open_log-OpensChained sim_disk directory 1000 4096 disk

read_log-ServesLog_example :
    ServesLog sim_disk (log_with segment) 12 disk (read_log sim_disk (log_with segment) 12 100 disk)
read_log-ServesLog_example = read_log-ServesLog sim_disk (log_with segment) 12 100 disk
