-- ===== src/Storage/SegmentTests.antt =====
-- A segment of one batch on a simulated disk.
use log_engine.Prelude.{ℕ, ◌≡◌, refl, sym, ◌∙◌, false, some, List, [], ◌∷◌, arith, All, lookup}
use mathlib.Core.List.{append-nil}
use log_engine.Base.Crc32c.{
  crc_round, crc_rounds, table_from, crc_table, crc_byte, crc_loop, crc32c_software, crc32c,
}
use log_engine.Base.Endian.{join_u16, join_u32, join_u64, load_u16_le, load_u32_le, load_u64_le}
use log_engine.Base.Error.{Result, ok}
use log_engine.Io.Disk.{mode_create}
use log_engine.Io.Paths.{same_path, normalize, has_path, find_path, change_path}
use log_engine.Io.Paths.Find.{same_path_self}
use log_engine.Io.SimDisk.{
  SimDisk, new_disk, resolve, open_file, fsync, crash_files, crash, power_on,
}
use log_engine.Io.SimDisk.AsDisk.{sim_disk, IsOpen, HoldsBytes, sim_view}
use log_engine.Io.SimDisk.Lawful.{sim_disk-IsDisk}
use log_engine.Io.SimDisk.Reopen.{after_power_cut}
use log_engine.Io.SimDisk.Sound.{IsSound}
use log_engine.Io.SimFile.{
  File, DiskRandom, resize, apply_bytes, apply_writes, crash_writes, crash_file,
}
use log_engine.Storage.Batches.{BatchAt, Batches, no_batch, one_more}
use log_engine.Storage.Batches.Extend.{BatchAt-here}
use log_engine.Storage.FileNames.{put_digits, offset_to_name, log_name, index_name, join}
use log_engine.Storage.RecordBatch.{
  BatchHeader, load_batch_header, decode_header, compute_crc, walk_records, validate_body,
  validate_batch,
}
use log_engine.Storage.Segment.{no_report, Segment, append_batch, sync_segment}
use log_engine.Storage.Segment.Append.{IsFramed, AppendsBatch, append_batch-Appends}
use log_engine.Storage.Segment.Cut.{truncate_to}
use log_engine.Storage.Segment.Cut.Boundary.{Truncates, truncate_to-Truncates}
use log_engine.Storage.Segment.Durable.{log_place, opened_on, Reopens, synced-Reopens}
use log_engine.Storage.Segment.Read.{read_segment}
use log_engine.Storage.Segment.Read.Reads.{ReadsFrom, read_segment-Reads}
use log_engine.Storage.Segment.Recover.{new_segment, read_index, recover, open_segment}
use log_engine.Storage.Segment.Recover.Choose.{IsTrusted}
use log_engine.Storage.Segment.Recover.Whole.{Recovers, recover-Recovers}
use log_engine.Storage.Segment.Valid.{IsSegment}
use log_engine.Storage.SparseIndex.{IndexEntry}

-- A batch of one record at offset 12.
abbrev pub framed : List ℕ
framed =
    12 ∷ 0 ∷ 0 ∷ 0 ∷ 0 ∷ 0 ∷ 0 ∷ 0 ∷ 47 ∷ 0 ∷ 0 ∷ 0 ∷ 150 ∷ 108 ∷ 195 ∷ 51 ∷ 3 ∷ 0 ∷ 0 ∷ 0 ∷ 0 ∷ 0
    ∷ 0 ∷ 0 ∷ 0 ∷ 0 ∷ 232 ∷ 3 ∷ 0 ∷ 0 ∷ 0 ∷ 0 ∷ 0 ∷ 0 ∷ 1 ∷ 0 ∷ 0 ∷ 0 ∷ 0 ∷ 0 ∷ 0 ∷ 0 ∷ 0 ∷ 0 ∷ 0
    ∷ 0 ∷ 0 ∷ 0 ∷ 1 ∷ 0 ∷ 0 ∷ 0 ∷ 3 ∷ 0 ∷ 0 ∷ 0 ∷ 10 ∷ 20 ∷ 30 ∷ []

abbrev header : BatchHeader
header = record {
  base_offset = 12;
  batch_length = 47;
  leader_epoch = 3;
  magic = 0;
  attributes = 0;
  crc = 868445334;
  last_offset_delta = 0;
  timestamp_ms = 1000;
  producer_id = 1;
  producer_epoch = 0;
  base_sequence = 0;
  record_count = 1;
}

framed-decodes : decode_header framed ≡ ok header
unfolding decode_header load_batch_header load_u16_le load_u32_le load_u64_le join_u16 join_u32
    join_u64
framed-decodes = refl

framed-validates : validate_batch framed ≡ ok tt
unfolding validate_batch validate_body decode_header load_batch_header load_u16_le load_u32_le
    load_u64_le compute_crc crc32c walk_records join_u16 join_u32 join_u64 crc32c_software crc_loop
    crc_byte crc_table table_from crc_rounds crc_round
framed-validates = refl

framed-IsFramed : IsFramed framed header
framed-IsFramed = record { decodes = framed-decodes; whole = refl; validates = framed-validates }

framed-BatchAt : BatchAt framed 0 12 header
framed-BatchAt =
    BatchAt-here framed framed [] 0 12 header (sym (append-nil framed)) (omega arith) framed-decodes
      refl framed-validates refl

framed-Batches : Batches framed 12 59 13
framed-Batches = one_more (no_batch refl refl) header framed-BatchAt refl refl

abbrev pub directory : List ℕ
directory = 100 ∷ []

abbrev pub place : List ℕ
place = log_place directory 12

abbrev pub calm : DiskRandom
calm = record { flip = λ i c. false; draw = λ i b. 0; position = 0 }

abbrev pub unsynced_file : File
unsynced_file = record {
  durable = [];
  visible = framed;
  pending = record { offset = 0; bytes = framed } ∷ [];
}

abbrev pub disk : SimDisk
disk = record (new_disk calm) {
  files = (place, unsynced_file) ∷ [];
  open_files = (0, record { path = place; mode = mode_create }) ∷ [];
  next_id = 1;
}

abbrev pub segment : Segment
segment = record {
  base_offset = 12;
  next_offset = 13;
  max_bytes = 1000;
  index_interval_bytes = 4096;
  log_file = 0;
  log_path = join directory (log_name 12);
  index_path = join directory (index_name 12);
  size_bytes = 59;
  index = record { rel_offset = 0; file_pos = 0 } ∷ [];
  recovery = no_report;
}

disk-found : find_path place disk.files ≡ some unsynced_file
unfolding find_path
disk-found = rw (same_path_self place) refl

disk-IsOpen : IsOpen disk 0 place
unfolding lookup
disk-IsOpen = record {
  handle = record { path = place; mode = mode_create };
  opened = refl;
  place = refl;
  writes = refl;
  numbered = omega arith;
}

disk-Holds : HoldsBytes disk place framed
disk-Holds = record { file = unsynced_file; found = disk-found; reads = refl }

segment-IsSegment : IsSegment sim_view disk segment place framed
segment-IsSegment = record {
  opened = disk-IsOpen;
  stored = disk-Holds;
  batches = framed-Batches;
  within = omega arith;
  small = omega arith;
  sorted = (refl, tt);
  placed = ((no_batch refl refl, omega arith), tt);
  rises = omega arith;
  narrow = omega arith;
  bounded = omega arith;
}

disk-IsSound : IsSound disk
unfolding apply_writes apply_bytes resize
disk-IsSound = (refl, tt)

-- The segment as it is before it is recovered.
abbrev unread : Segment
unread = new_segment directory 12 1000 4096 0

no_index : (read_index sim_disk (join directory (index_name 12)) 59 disk).0 ≡ ok []
unfolding read_index open_file has_path same_path normalize join index_name offset_to_name
    put_digits find_path log_name
no_index = refl

nothing-IsTrusted :
    (es : List IndexEntry)
    → ◌≡◌ {A = Result (List IndexEntry)} (ok []) (ok es)
    → All (IsTrusted framed 12) es
nothing-IsTrusted [] e = tt
nothing-IsTrusted (x ∷ es) e = absurd (ground arith)

recover-Recovers_example :
    Recovers sim_disk-IsDisk unread place framed disk (recover sim_disk unread disk)
recover-Recovers_example =
    recover-Recovers sim_disk-IsDisk unread place framed disk (omega arith) (omega arith)
      disk-IsOpen disk-Holds (λ es e. nothing-IsTrusted es (sym no_index ∙ e))

-- A segment with nothing in it, whose file has a tail.
abbrev pub blank : Segment
blank = record segment { next_offset = 12; size_bytes = 0; index = [] }

blank-IsSegment : IsSegment sim_view disk blank place framed
blank-IsSegment = record {
  opened = disk-IsOpen;
  stored = disk-Holds;
  batches = no_batch refl refl;
  within = omega arith;
  small = omega arith;
  sorted = tt;
  placed = tt;
  rises = omega arith;
  narrow = omega arith;
  bounded = omega arith;
}

append_batch-Appends_example :
    AppendsBatch sim_view disk blank place framed framed header
      (append_batch sim_disk framed header blank disk)
append_batch-Appends_example =
    append_batch-Appends sim_view sim_disk-IsDisk disk blank place framed framed header
      blank-IsSegment framed-IsFramed (omega arith) (omega arith) (omega arith)

read_segment-Reads_example :
    ReadsFrom sim_disk-IsDisk segment place framed 12 100 disk
      (read_segment sim_disk segment 12 100 disk)
read_segment-Reads_example =
    read_segment-Reads sim_disk-IsDisk segment place framed 12 100 disk segment-IsSegment
      (omega arith)

truncate_to-Truncates_example :
    Truncates sim_disk-IsDisk segment place framed 12 disk (truncate_to sim_disk segment 12 disk)
truncate_to-Truncates_example =
    truncate_to-Truncates sim_disk-IsDisk segment place framed 12 disk segment-IsSegment
      (omega arith)

disk_synced : (sync_segment sim_disk segment disk).0 ≡ ok tt
unfolding sync_segment fsync resolve lookup find_path
disk_synced = rw (same_path_self place) refl

abbrev after_cut : SimDisk
after_cut = after_power_cut (sync_segment sim_disk segment disk).1

no_index_then :
    (read_index sim_disk (join directory (index_name 12)) 59 (opened_on directory 12 after_cut)).0
    ≡ ok []
unfolding read_index open_file has_path same_path normalize join index_name offset_to_name
    put_digits find_path log_name sync_segment fsync resolve lookup crash power_on crash_files
    crash_file crash_writes change_path
no_index_then = refl

no_directory : has_path place disk.dirs ≡ false
unfolding has_path same_path normalize join log_name offset_to_name put_digits
no_directory = refl

synced-Reopens_example :
    Reopens place framed 12 59 after_cut (open_segment sim_disk directory 12 1000 4096 after_cut)
synced-Reopens_example =
    synced-Reopens disk segment framed directory 4096 segment-IsSegment disk-IsSound (omega arith)
      (omega arith) no_directory disk_synced (λ es e. nothing-IsTrusted es (sym no_index_then ∙ e))
