-- ===== src/Io/SimDisk/Calls.antt =====
-- src/io/disk.h and src/io/sim/sim_disk.cpp: the calls of the disk as values, and sequences
-- of them.
use log_engine.Prelude.{ℕ, ◌≡◌, refl, List, [], ◌∷◌, map}
use log_engine.Base.Error.{io_error, Result, ok, fail, Status}
use log_engine.Io.Paths.{erase_key}
use log_engine.Io.SimDisk.{
  OpenMode, SimDisk, resolve, open_file, close, pwrite, pread, fsync, truncate, file_size, remove,
  make_directories, list_directory, crash,
}

-- A method of the disk, with its arguments.
pub data Call : Type 0 where
  open_call : List ℕ → OpenMode → Call
  close_call : ℕ → Call
  pwrite_call : ℕ → List ℕ → ℕ → Call
  pread_call : ℕ → ℕ → ℕ → Call
  fsync_call : ℕ → Call
  truncate_call : ℕ → ℕ → Call
  size_call : ℕ → Call
  remove_call : List ℕ → Call
  make_call : List ℕ → Call
  list_call : List ℕ → Call

-- How a call went, without what it returned.
abbrev pub outcome : {A : Type 0} → Result A → Status
outcome (ok a) = ok tt
outcome (fail c) = fail c

unfoldable pub perform : Call → SimDisk → Status × SimDisk
perform (open_call path mode) d = (outcome (open_file path mode d).0, (open_file path mode d).1)
perform (close_call file) d = (ok tt, close file d)
perform (pwrite_call file bytes offset) d =
    (outcome (pwrite file bytes offset d).0, (pwrite file bytes offset d).1)
perform (pread_call file count offset) d =
    (outcome (pread file count offset d).0, (pread file count offset d).1)
perform (fsync_call file) d = fsync file d
perform (truncate_call file size) d = truncate file size d
perform (size_call file) d = (outcome (file_size file d), d)
perform (remove_call path) d = remove path d
perform (make_call path) d = make_directories path d
perform (list_call path) d = (outcome (list_directory path d), d)

unfoldable pub perform_all : List Call → SimDisk → List Status × SimDisk
perform_all [] d = ([], d)
perform_all (c ∷ cs) d =
    let rest = perform_all cs (perform c d).1 in ((perform c d).0 ∷ rest.0, rest.1)

-- What a call says without power: a close says nothing, all others fail.
unfoldable pub refusal : Call → Status
refusal (close_call file) = ok tt
refusal _ = fail io_error

perform_dark : (c : Call) (d : SimDisk) → perform c (crash d) ≡ (refusal c, crash d)
unfolding perform refusal crash open_file close erase_key pwrite pread fsync truncate file_size
    remove make_directories list_directory resolve
perform_dark (open_call path mode) d = refl
perform_dark (close_call file) d = refl
perform_dark (pwrite_call file bytes offset) d = refl
perform_dark (pread_call file count offset) d = refl
perform_dark (fsync_call file) d = refl
perform_dark (truncate_call file size) d = refl
perform_dark (size_call file) d = refl
perform_dark (remove_call path) d = refl
perform_dark (make_call path) d = refl
perform_dark (list_call path) d = refl

pub dark_lem : (cs : List Call) (d : SimDisk) → perform_all cs (crash d) ≡ (map refusal cs, crash d)
unfolding perform_all
dark_lem [] d = refl
dark_lem (c ∷ cs) d = rw (perform_dark c d, dark_lem cs d) refl
