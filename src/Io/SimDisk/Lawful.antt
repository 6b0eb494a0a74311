-- ===== src/Io/SimDisk/Lawful.antt =====
-- src/io/sim/sim_disk.cpp: the simulated disk does what the storage relies on.
use log_engine.Io.Disk.Laws.{IsDisk}
use log_engine.Io.SimDisk.{close}
use log_engine.Io.SimDisk.AsDisk.{sim_view}
use log_engine.Io.SimDisk.Names.{
  open_file-Opened_lem, open_file-Created_lem, remove-Removes_lem, make_directories-Keeps_lem,
  list_directory-Answers_lem,
}
use log_engine.Io.SimDisk.Opens.{close-opens_lem, open_file-Keeps_lem, open_file-fresh}
use log_engine.Io.SimDisk.Reads.{
  pread-Keeps_lem, pread-Reads_lem, file_size-Measures_lem, fsync-Keeps_lem, fsync-Answers_lem,
  truncate-Cuts_lem,
}
use log_engine.Io.SimDisk.Writes.{pwrite-Writes_lem}

-- The simulated disk keeps the laws of the interface, where the ids do not wrap. On a file that is
-- open for writing, a read that succeeds gives its bytes, and none changes anything; its size,
-- where it is given, is its length; a write that starts in it and ends within the limit puts its
-- bytes there or, where it fails or stops early, leaves what stands before it; an fsync changes
-- nothing that is read; a truncation that does not lengthen it cuts it, or fails and changes
-- nothing; none of them changes another file. Opening, closing and making directories change no
-- file that was there, a removal that succeeds changes no other and one that fails changes none,
-- none of these calls but a close ends a handle, and a new handle is none of the open ones. On a
-- powered disk with no faults to come and no file too long, none of these calls on an open file
-- fails; nor does opening for writing a file that is there, where no directory has its name,
-- creating an empty one that is not, in a directory that is, removing a file that is there, or
-- listing a directory that is there.
pub sim_disk-IsDisk : IsDisk sim_view
unfolding close
sim_disk-IsDisk = record {
  open-Keeps = open_file-Keeps_lem;
  open_fresh = λ path mode d id j p r e o. open_file-fresh path mode d id j p e o;
  open-Opened = open_file-Opened_lem;
  open-Created = open_file-Created_lem;
  close-stores = λ id d p b h. record { file = h.file; found = h.found; reads = h.reads };
  close-opens = λ id j d p n o. close-opens_lem id j d p n o;
  close-health = λ id d s. record { powered = s.powered; faultless = s.faultless; small = s.small };
  pread-Keeps = pread-Keeps_lem;
  pread-Reads = pread-Reads_lem;
  file_size-Measures = file_size-Measures_lem;
  pwrite-Writes = pwrite-Writes_lem;
  fsync-Keeps = fsync-Keeps_lem;
  fsync-Answers = fsync-Answers_lem;
  truncate-Cuts = truncate-Cuts_lem;
  remove-Removes = remove-Removes_lem;
  make_directories-Keeps = make_directories-Keeps_lem;
  list_directory-Answers = list_directory-Answers_lem;
}
