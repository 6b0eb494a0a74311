-- ===== src/Io/SimDisk/Sound.antt =====
-- src/io/sim/sim_disk.cpp: the whole disk keeps its images coherent.
use log_engine.Prelude.{
  ℕ, zero, suc, refl, true, false, not, ◌&&◌, ◌||◌, Option, none, some, List, [], ◌∷◌, ltb, ◌==◌,
  if◌then◌else◌, if_intro, length, is_empty, get_or, take, All, add_u64,
}
use log_engine.Base.Error.{Result, ok, fail}
use log_engine.Io.Paths.{
  slash, same_path, path_before, normalize, parent_of, has_path, is_found, find_path, put_path,
  change_path, erase_path,
}
use log_engine.Io.SimDisk.{
  OpenMode, max_file_bytes, SimDisk, creates, resolve, open_found, open_file, close, faulty,
  pwrite_at, pwrite, pread_at, pread, fsync_at, fsync, truncate_at, truncate, remove_found, remove,
  make_prefixes, make_directories, crash_files, crash, power_on,
}
use log_engine.Io.SimFile.{
  File, empty_file, DiskRandom, apply_writes, write_file, sync_file, truncate_file, crash_file,
}
use log_engine.Io.SimFile.Coherent.{IsCoherent, file-IsCoherent}

abbrev pub AllCoherent : List (List ℕ × File) → Type 0
AllCoherent fs = All (λ e. IsCoherent e.1) fs

put_path-AllCoherent :
    (p : List ℕ) (f : File) (fs : List (List ℕ × File))
    → IsCoherent f
    → AllCoherent fs
    → AllCoherent (put_path p f fs)
unfolding put_path
put_path-AllCoherent p f [] c h = (c, tt)
put_path-AllCoherent p f (e ∷ fs) c h =
    if_intro AllCoherent (path_before p e.0) _ _ (λ _. (c, h))
      λ _.
        if_intro AllCoherent (same_path e.0 p) _ _ (λ _. (c, h.1))
          (λ _. (h.0, put_path-AllCoherent p f fs c h.1))

change_path-AllCoherent :
    (p : List ℕ) (g : File → File) (fs : List (List ℕ × File))
    → ((f : File) → IsCoherent f → IsCoherent (g f))
    → AllCoherent fs
    → AllCoherent (change_path p g fs)
unfolding change_path
change_path-AllCoherent p g [] c h = tt
change_path-AllCoherent p g (e ∷ fs) c h =
    if_intro AllCoherent (same_path e.0 p) _ _ (λ _. (c e.1 h.0, h.1))
      (λ _. (h.0, change_path-AllCoherent p g fs c h.1))

erase_path-AllCoherent :
    (p : List ℕ) (fs : List (List ℕ × File)) → AllCoherent fs → AllCoherent (erase_path p fs)
unfolding erase_path
erase_path-AllCoherent p [] h = tt
erase_path-AllCoherent p (e ∷ fs) h =
    if_intro AllCoherent (same_path e.0 p) _ _ (λ _. h.1)
      (λ _. (h.0, erase_path-AllCoherent p fs h.1))

crash_files-AllCoherent :
    (fs : List (List ℕ × File)) (r : DiskRandom) → AllCoherent (crash_files fs r).0
unfolding crash_files crash_file apply_writes
crash_files-AllCoherent [] r = tt
crash_files-AllCoherent (e ∷ fs) r = (refl, crash_files-AllCoherent fs _)

-- Coherent with every file that the disk holds.
abbrev pub IsSound : SimDisk → Type 0
IsSound d = AllCoherent d.files

-- The disk that a call leaves is sound.
abbrev Leaves {ℓ} : {A : Type ℓ} → A × SimDisk → Type 0
Leaves r = IsSound r.1

empty_file-IsCoherent : IsCoherent empty_file
unfolding apply_writes
empty_file-IsCoherent = refl

open_found-IsSound :
    (p : List ℕ) (m : OpenMode) (d : SimDisk) (o : Option File)
    → IsSound d
    → Leaves (open_found p m d o)
open_found-IsSound p m d (some f) h = h
open_found-IsSound p m d none h =
    if_intro Leaves (not (creates m)) _ _ (λ _. h)
      λ _.
        if_intro Leaves (not (has_path (parent_of p) d.dirs)) _ _ (λ _. h)
          (λ _. put_path-AllCoherent p empty_file d.files empty_file-IsCoherent h)

open_file-IsSound :
    (p : List ℕ) (m : OpenMode) (d : SimDisk) → IsSound d → IsSound (open_file p m d).1
unfolding open_file
open_file-IsSound p m d h =
    if_intro Leaves (not d.powered) _ _ (λ _. h)
      λ _.
        if_intro Leaves (has_path (normalize p) d.dirs) _ _ (λ _. h)
          (λ _. open_found-IsSound (normalize p) m d (find_path (normalize p) d.files) h)

pwrite_at-IsSound :
    (bytes : List ℕ) (offset : ℕ) (d : SimDisk) (r : Result (List ℕ × File))
    → IsSound d
    → Leaves (pwrite_at bytes offset d r)
pwrite_at-IsSound bytes offset d (fail c) h = h
pwrite_at-IsSound bytes offset d (ok (p, f)) h =
    if_intro Leaves (faulty d).0 _ _ (λ _. h)
      λ _.
        if_intro Leaves (is_empty bytes) _ _ (λ _. h)
          λ _.
            if_intro Leaves
              (ltb (add_u64 offset (length bytes)) offset
                || ltb max_file_bytes (add_u64 offset (length bytes)))
              _ _ (λ _. h)
              (λ _.
                change_path-AllCoherent p (write_file bytes offset) d.files
                  (λ g c. (file-IsCoherent g c).0 bytes offset) h)

pread_at-IsSound :
    (count offset : ℕ) (d : SimDisk) (r : Result (List ℕ × File))
    → IsSound d
    → Leaves (pread_at count offset d r)
pread_at-IsSound count offset d (fail c) h = h
pread_at-IsSound count offset d (ok (p, f)) h = if_intro Leaves (faulty d).0 _ _ (λ _. h) (λ _. h)

fsync_at-IsSound : (d : SimDisk) (r : Result (List ℕ × File)) → IsSound d → Leaves (fsync_at d r)
fsync_at-IsSound d (fail c) h = h
fsync_at-IsSound d (ok (p, f)) h =
    if_intro Leaves (faulty d).0 _ _ (λ _. h)
      (λ _. change_path-AllCoherent p sync_file d.files (λ g c. (file-IsCoherent g c).1) h)

truncate_at-IsSound :
    (size : ℕ) (d : SimDisk) (r : Result (List ℕ × File))
    → IsSound d
    → Leaves (truncate_at size d r)
truncate_at-IsSound size d (fail c) h = h
truncate_at-IsSound size d (ok (p, f)) h =
    if_intro Leaves (ltb max_file_bytes size) _ _ (λ _. h)
      (λ _.
        change_path-AllCoherent p (truncate_file size) d.files (λ g c. (file-IsCoherent g c).2 size)
          h)

remove_found-IsSound :
    (p : List ℕ) (d : SimDisk) (o : Option File) → IsSound d → Leaves (remove_found p d o)
remove_found-IsSound p d none h = h
remove_found-IsSound p d (some f) h = erase_path-AllCoherent p d.files h

make_prefixes-IsSound :
    (p : List ℕ) (i n : ℕ) (d : SimDisk) → IsSound d → Leaves (make_prefixes p i n d)
unfolding make_prefixes
make_prefixes-IsSound p i zero d h = h
make_prefixes-IsSound p i (suc n) d h =
    if_intro Leaves (not (i == length p) && not (get_or p i 0 == slash)) _ _
      (λ _. make_prefixes-IsSound p (suc i) n d h)
      λ _.
        if_intro Leaves (is_found (find_path (take (if i == 0 then 1 else i) p) d.files)) _ _
          (λ _. h) (λ _. make_prefixes-IsSound p (suc i) n _ h)

-- Each call leaves the disk sound.
pub record KeepsSound (d : SimDisk) : Type 0 where
  pub opened : (p : List ℕ) (m : OpenMode) → IsSound (open_file p m d).1
  pub closed : (file : ℕ) → IsSound (close file d)
  pub written : (file : ℕ) (bytes : List ℕ) (offset : ℕ) → IsSound (pwrite file bytes offset d).1
  pub read : (file count offset : ℕ) → IsSound (pread file count offset d).1
  pub synced : (file : ℕ) → IsSound (fsync file d).1
  pub truncated : (file size : ℕ) → IsSound (truncate file size d).1
  pub removed : (p : List ℕ) → IsSound (remove p d).1
  pub made : (p : List ℕ) → IsSound (make_directories p d).1
  pub crashed : IsSound (crash d)
  pub powered : IsSound (power_on d)

-- On a disk where every file's durable image and pending writes make what is read of it, every call
-- leaves such a disk: opening, closing, writing, reading, syncing, truncating, removing, making
-- directories, losing power and getting it back.
pub disk-KeepsSound : (d : SimDisk) → IsSound d → KeepsSound d
unfolding close pwrite pread fsync truncate remove make_directories crash power_on
disk-KeepsSound d h = record {
  opened = λ p m. open_file-IsSound p m d h;
  closed = λ file. h;
  written = λ file bytes offset. pwrite_at-IsSound bytes offset d (resolve file true d) h;
  read = λ file count offset. pread_at-IsSound count offset d (resolve file false d) h;
  synced = λ file. fsync_at-IsSound d (resolve file false d) h;
  truncated = λ file size. truncate_at-IsSound size d (resolve file true d) h;
  removed = λ p.
      if_intro Leaves (not d.powered) _ _ (λ _. h)
        (λ _. remove_found-IsSound (normalize p) d (find_path (normalize p) d.files) h);
  made = λ p.
      if_intro Leaves (not d.powered) _ _ (λ _. h)
        λ _.
          if_intro Leaves (is_empty (normalize p)) _ _ (λ _. h)
            (λ _. make_prefixes-IsSound (normalize p) 0 (suc (length (normalize p))) d h);
  crashed = crash_files-AllCoherent d.files d.rng;
  powered = h;
}
