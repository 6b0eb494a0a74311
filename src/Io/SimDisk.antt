-- ===== src/Io/SimDisk.antt =====
-- src/io/disk.h and src/io/sim/sim_disk.cpp: the simulated disk of one node. A path is the list of its
-- characters; the files stand in the order of their paths, as in the map.
pub mod Sound
pub mod AsDisk
pub mod Reads
pub mod Writes
pub mod Opens
pub mod Names
pub mod Calls
pub mod Stale
pub mod Lawful
pub mod Reopen
pub mod Power
pub mod Rot
use log_engine.Prelude.{
  ℕ, zero, suc, ◌+◌, ◌^◌, Bool, true, false, not, ◌&&◌, ◌||◌, Option, none, some, List, [], ◌∷◌,
  ltb, ◌==◌, if◌then◌else◌, length, is_empty, get_or, take, add_u64, lookup, assign,
}
use log_engine.Base.Error.{io_error, not_found, invalid_argument, Result, ok, fail, Status}
use log_engine.Io.Disk.{OpenMode, mode_read, mode_create}
use log_engine.Io.Paths.{
  slash, same_path, normalize, parent_of, basename_of, has_path, insert_path, is_found, find_path,
  put_path, change_path, erase_path, erase_key,
}
use log_engine.Io.SimFile.{
  File, empty_file, error_chance, DiskRandom, next_flip, write_file, sync_file, truncate_file,
  write_bytes, crash_file, read_file,
}

abbrev pub max_file_bytes : ℕ
max_file_bytes = 2 ^ 30

pub record Handle : Type 0 where
  pub path : List ℕ
  pub mode : OpenMode

pub record SimDisk : Type 0 where
  pub rng : DiskRandom
  pub files : List (List ℕ × File)
  pub dirs : List (List ℕ)
  pub open_files : List (ℕ × Handle)
  pub next_id : ℕ
  pub powered : Bool
  pub bytes_lost : ℕ
  pub crashes : ℕ

abbrev pub new_disk : DiskRandom → SimDisk
new_disk rng = record {
  rng = rng;
  files = [];
  dirs = [] ∷ (slash ∷ []) ∷ [];
  open_files = [];
  next_id = 0;
  powered = true;
  bytes_lost = 0;
  crashes = 0;
}

abbrev pub forbids_write : OpenMode → Bool
forbids_write mode_read = true
forbids_write _ = false

abbrev pub creates : OpenMode → Bool
creates mode_create = true
creates _ = false

-- The file that a handle names.
abbrev pub named_file : List ℕ → Option File → Result (List ℕ × File)
named_file p none = fail not_found
named_file p (some f) = ok (p, f)

abbrev pub find_open : SimDisk → Handle → Result (List ℕ × File)
find_open d h = named_file h.path (find_path h.path d.files)

abbrev pub permit : SimDisk → Bool → Option Handle → Result (List ℕ × File)
permit d for_write none = fail not_found
permit d for_write (some h) =
    if for_write && forbids_write h.mode then fail io_error else find_open d h

unfoldable pub resolve : ℕ → Bool → SimDisk → Result (List ℕ × File)
resolve file for_write d =
    if not d.powered then fail io_error else permit d for_write (lookup file d.open_files)

abbrev pub open_as : List ℕ → OpenMode → SimDisk → Result ℕ × SimDisk
open_as p mode d = (
  ok d.next_id,
  record d {
    next_id = add_u64 d.next_id 1;
    open_files = assign d.next_id (record { path = p; mode = mode }) d.open_files;
  },
)

abbrev pub open_absent : List ℕ → OpenMode → SimDisk → Result ℕ × SimDisk
open_absent p mode d =
    if not (creates mode)
    then (fail not_found, d)
    else if not (has_path (parent_of p) d.dirs)
    then (fail not_found, d)
    else open_as p mode (record d { files = put_path p empty_file d.files })

abbrev pub open_found : List ℕ → OpenMode → SimDisk → Option File → Result ℕ × SimDisk
open_found p mode d none = open_absent p mode d
open_found p mode d (some f) = open_as p mode d

unfoldable pub open_file : List ℕ → OpenMode → SimDisk → Result ℕ × SimDisk
open_file path mode d =
    let p = normalize path in
    if not d.powered
    then (fail io_error, d)
    else if has_path p d.dirs
    then (fail io_error, d)
    else open_found p mode d (find_path p d.files)

unfoldable pub close : ℕ → SimDisk → SimDisk
close file d = record d { open_files = erase_key file d.open_files }

-- The draw that each of the three calls makes.
abbrev pub faulty : SimDisk → Bool × SimDisk
faulty d =
    (d.rng.flip d.rng.position error_chance, record d { rng = (next_flip d.rng error_chance).1 })

abbrev pub change_file : List ℕ → (File → File) → SimDisk → SimDisk
change_file p g d = record d { files = change_path p g d.files }

abbrev pub pwrite_at : List ℕ → ℕ → SimDisk → Result (List ℕ × File) → Result ℕ × SimDisk
pwrite_at bytes offset d (fail c) = (fail c, d)
pwrite_at bytes offset d (ok (p, f)) =
    if (faulty d).0
    then (fail io_error, (faulty d).1)
    else if is_empty bytes
    then (ok 0, (faulty d).1)
    else if ltb (add_u64 offset (length bytes)) offset
        || ltb max_file_bytes (add_u64 offset (length bytes))
    then (fail invalid_argument, (faulty d).1)
    else (ok (length bytes), change_file p (write_file bytes offset) (faulty d).1)

unfoldable pub pwrite : ℕ → List ℕ → ℕ → SimDisk → Result ℕ × SimDisk
pwrite file bytes offset d = pwrite_at bytes offset d (resolve file true d)

abbrev pub pread_at : ℕ → ℕ → SimDisk → Result (List ℕ × File) → Result (List ℕ) × SimDisk
pread_at count offset d (fail c) = (fail c, d)
pread_at count offset d (ok (p, f)) =
    if (faulty d).0
    then (fail io_error, (faulty d).1)
    else (ok (read_file count offset f), (faulty d).1)

-- The bytes that are copied out; their count is what the call returns.
unfoldable pub pread : ℕ → ℕ → ℕ → SimDisk → Result (List ℕ) × SimDisk
pread file count offset d = pread_at count offset d (resolve file false d)

abbrev pub fsync_at : SimDisk → Result (List ℕ × File) → Status × SimDisk
fsync_at d (fail c) = (fail c, d)
fsync_at d (ok (p, f)) =
    if (faulty d).0
    then (fail io_error, (faulty d).1)
    else (ok tt, change_file p sync_file (faulty d).1)

unfoldable pub fsync : ℕ → SimDisk → Status × SimDisk
fsync file d = fsync_at d (resolve file false d)

abbrev pub truncate_at : ℕ → SimDisk → Result (List ℕ × File) → Status × SimDisk
truncate_at size d (fail c) = (fail c, d)
truncate_at size d (ok (p, f)) =
    if ltb max_file_bytes size
    then (fail invalid_argument, d)
    else (ok tt, change_file p (truncate_file size) d)

unfoldable pub truncate : ℕ → ℕ → SimDisk → Status × SimDisk
truncate file size d = truncate_at size d (resolve file true d)

abbrev pub visible_size : Result (List ℕ × File) → Result ℕ
visible_size (fail c) = fail c
visible_size (ok (p, f)) = ok (length f.visible)

unfoldable pub file_size : ℕ → SimDisk → Result ℕ
file_size file d = visible_size (resolve file false d)

abbrev pub remove_found : List ℕ → SimDisk → Option File → Status × SimDisk
remove_found p d none = (if has_path p d.dirs then fail io_error else fail not_found, d)
remove_found p d (some f) = (ok tt, record d { files = erase_path p d.files })

unfoldable pub remove : List ℕ → SimDisk → Status × SimDisk
remove path d =
    let p = normalize path in
    if not d.powered then (fail io_error, d) else remove_found p d (find_path p d.files)

-- The turns of the loop from position `i` on, `n` of them.
unfoldable pub make_prefixes : List ℕ → ℕ → ℕ → SimDisk → Status × SimDisk
make_prefixes p i zero d = (ok tt, d)
make_prefixes p i (suc n) d =
    let prefix = take (if i == 0 then 1 else i) p in
    let skipped = make_prefixes p (suc i) n d in
    let made = make_prefixes p (suc i) n (record d { dirs = insert_path prefix d.dirs }) in
    if not (i == length p) && not (get_or p i 0 == slash)
    then skipped
    else if is_found (find_path prefix d.files)
    then (fail io_error, d)
    else made

unfoldable pub make_directories : List ℕ → SimDisk → Status × SimDisk
make_directories path d =
    let p = normalize path in
    if not d.powered
    then (fail io_error, d)
    else if is_empty p
    then (ok tt, d)
    else make_prefixes p 0 (suc (length p)) d

abbrev pub file_names : List ℕ → List (List ℕ × File) → List (List ℕ) → List (List ℕ)
file_names p [] names = names
file_names p ((q, f) ∷ fs) names =
    file_names p fs (if same_path (parent_of q) p then insert_path (basename_of q) names else names)

abbrev pub dir_names : List ℕ → List (List ℕ) → List (List ℕ) → List (List ℕ)
dir_names p [] names = names
dir_names p (q ∷ qs) names = dir_names p qs (
    if not (is_empty q) && not (same_path q p) && same_path (parent_of q) p
    then insert_path (basename_of q) names
    else names)

unfoldable pub list_directory : List ℕ → SimDisk → Result (List (List ℕ))
list_directory path d =
    let p = normalize path in
    if not d.powered
    then fail io_error
    else if not (has_path p d.dirs)
    then (if is_found (find_path p d.files) then fail io_error else fail not_found)
    else ok (dir_names p d.dirs (file_names p d.files []))

-- The files after the cut, the bytes lost, and the generator.
unfoldable pub crash_files :
    List (List ℕ × File) → DiskRandom → List (List ℕ × File) × ℕ × DiskRandom
crash_files [] r = ([], 0, r)
crash_files ((p, f) ∷ fs) r =
    let c = crash_file f r in
    let rest = crash_files fs c.2 in ((p, c.0) ∷ rest.0, c.1 + rest.1, rest.2)

unfoldable pub crash : SimDisk → SimDisk
crash d =
    let c = crash_files d.files d.rng in
    record d {
      crashes = add_u64 d.crashes 1;
      files = c.0;
      bytes_lost = add_u64 d.bytes_lost c.1;
      rng = c.2;
      powered = false;
      open_files = [];
    }

unfoldable pub power_on : SimDisk → SimDisk
power_on d = record d { powered = true }

unfoldable pub unflushed_bytes : List (List ℕ × File) → ℕ
unflushed_bytes [] = 0
unflushed_bytes ((p, f) ∷ fs) = write_bytes f.pending + unflushed_bytes fs
