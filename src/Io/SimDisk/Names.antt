-- ===== src/Io/SimDisk/Names.antt =====
-- src/io/sim/sim_disk.cpp: opening, removing and listing by name, as the storage relies on it.
use log_engine.Prelude.{
  ℕ, zero, suc, ◌+◌, ◌^◌, ◌<◌, ◌≡◌, refl, sym, subst, ◌∙◌, ◌≢◌, true, false, not, ◌&&◌, Option,
  none, some, List, [], ◌∷◌, arith, ◌==◌, if◌then◌else◌, if_intro, length, is_empty, get_or, take,
  lookup-assign,
}
use log_engine.Base.Error.{Status}
use log_engine.Io.Disk.{OpenMode, mode_read, mode_read_write, mode_create}
use log_engine.Io.Disk.Laws.{Keeps, Answers, Opened, Created, Spares, Removes}
use log_engine.Io.Disk.Rules.{Keeps-refl, Keeps-trans}
use log_engine.Io.Paths.{
  slash, same_path, normalize, has_path, insert_path, is_found, find_path, put_path, erase_path,
}
use log_engine.Io.Paths.Find.{find-erase_other, find-put_self}
use log_engine.Io.SimDisk.{
  SimDisk, forbids_write, open_as, open_found, open_file, remove_found, remove, make_prefixes,
  make_directories, list_directory,
}
use log_engine.Io.SimDisk.AsDisk.{IsOpen, HoldsBytes, AllSmall, IsAbsent, sim_view}
use log_engine.Io.SimDisk.Reads.{unpowered}
use log_engine.Io.SimFile.{File, empty_file}

allows_write : (mode : OpenMode) → mode ≢ mode_read → forbids_write mode ≡ false
allows_write mode_read n = absurd (n refl)
allows_write mode_read_write n = refl
allows_write mode_create n = refl

open_as-handle :
    (p : List ℕ) (mode : OpenMode) (d : SimDisk)
    → d.next_id + 1 < 2 ^ 64
    → forbids_write mode ≡ false
    → IsOpen (open_as p mode d).1 d.next_id p
open_as-handle p mode d l w = record {
  handle = record { path = p; mode = mode };
  opened = lookup-assign d.next_id d.next_id _ d.open_files ∙ ground arith;
  place = refl;
  writes = w;
  numbered = omega arith;
}

pub open_file-Opened_lem :
    (path : List ℕ) (mode : OpenMode) (d : SimDisk) (b : List ℕ)
    → d.next_id + 1 < 2 ^ 64
    → mode ≢ mode_read
    → HoldsBytes d (normalize path) b
    → ¬ (has_path (normalize path) d.dirs ≡ true)
    → Opened sim_view d path (open_file path mode d)
unfolding open_file
open_file-Opened_lem path mode d b l m h n =
    if_intro (Opened sim_view d path) (not d.powered) _ _ (λ e. unpowered d (ground (arith, e)))
      (λ e.
        if_intro (Opened sim_view d path) (has_path (normalize path) d.dirs) _ _ (λ k. absurd (n k))
          (λ k.
            subst (λ o. Opened sim_view d path (open_found (normalize path) mode d o)) (sym h.found)
              (open_as-handle (normalize path) mode d l (allows_write mode m))))

pub open_file-Created_lem :
    (path : List ℕ) (d : SimDisk)
    → d.next_id + 1 < 2 ^ 64
    → IsAbsent d path
    → Created sim_view d path (open_file path mode_create d)
unfolding open_file
open_file-Created_lem path d l h =
    if_intro (Created sim_view d path) (not d.powered) _ _ (λ e. unpowered d (ground (arith, e)))
      (λ e.
        rw (h.no_directory, h.no_file, h.parent)
          (
            open_as-handle (normalize path) mode_create
                (record d { files = put_path (normalize path) empty_file d.files }) l refl,
            record {
              file = empty_file;
              found = find-put_self (normalize path) empty_file d.files;
              reads = refl;
            },
          ))

erase_path-AllSmall :
    (p : List ℕ) (fs : List (List ℕ × File)) → AllSmall fs → AllSmall (erase_path p fs)
unfolding erase_path
erase_path-AllSmall p [] a = tt
erase_path-AllSmall p ((q, f) ∷ fs) a =
    if_intro AllSmall (same_path q p) _ _ (λ _. a.1) (λ _. (a.0, erase_path-AllSmall p fs a.1))

erase-Spares :
    (p : List ℕ) (d : SimDisk) → Spares sim_view d (record d { files = erase_path p d.files }) p
erase-Spares p d = record {
  opens = λ id q o. record {
    handle = o.handle;
    opened = o.opened;
    place = o.place;
    writes = o.writes;
    numbered = o.numbered;
  };
  others = λ q c n k. record {
    file = k.file;
    found = find-erase_other p q d.files n ∙ k.found;
    reads = k.reads;
  };
  health = λ s. record {
    powered = s.powered;
    faultless = s.faultless;
    small = erase_path-AllSmall p d.files s.small;
  };
}

pub remove-Removes_lem : (path : List ℕ) (d : SimDisk) → Removes sim_view d path (remove path d)
unfolding remove
remove-Removes_lem path d =
    if_intro (Removes sim_view d path) (not d.powered) _ _
      (λ e. (Keeps-refl d, λ b h. unpowered d (ground (arith, e))))
      (λ e. found (find_path (normalize path) d.files) refl)
  where
    found :
        (o : Option File)
        → find_path (normalize path) d.files ≡ o
        → Removes sim_view d path (remove_found (normalize path) d o)
    found (some f) q = erase-Spares (normalize path) d
    found none q =
        if_intro (λ (x : Status). Removes sim_view d path (x, d)) (has_path (normalize path) d.dirs)
          _ _ (λ _. (Keeps-refl d, λ b h. absurd (ground (arith, q, h.found))))
          (λ _. (Keeps-refl d, λ b h. absurd (ground (arith, q, h.found))))

dirs-Keeps : (d : SimDisk) (ps : List (List ℕ)) → Keeps sim_view d (record d { dirs = ps })
dirs-Keeps d ps = record {
  opens = λ id q o. record {
    handle = o.handle;
    opened = o.opened;
    place = o.place;
    writes = o.writes;
    numbered = o.numbered;
  };
  stores = λ p b h. record { file = h.file; found = h.found; reads = h.reads };
  health = λ s. record { powered = s.powered; faultless = s.faultless; small = s.small };
}

make_prefixes-Keeps :
    (p : List ℕ) (i n : ℕ) (d : SimDisk) → Keeps sim_view d (make_prefixes p i n d).1
unfolding make_prefixes
make_prefixes-Keeps p i zero d = Keeps-refl d
make_prefixes-Keeps p i (suc n) d =
    if_intro (λ (x : Status × SimDisk). Keeps sim_view d x.1)
      (not (i == length p) && not (get_or p i 0 == slash)) _ _
      (λ _. make_prefixes-Keeps p (suc i) n d)
      (λ _.
        if_intro (λ (x : Status × SimDisk). Keeps sim_view d x.1)
          (is_found (find_path (take (if i == 0 then 1 else i) p) d.files)) _ _ (λ _. Keeps-refl d)
          (λ _.
            Keeps-trans (dirs-Keeps d (insert_path (take (if i == 0 then 1 else i) p) d.dirs))
              (make_prefixes-Keeps p (suc i) n _)))

pub make_directories-Keeps_lem :
    (path : List ℕ) (d : SimDisk) → Keeps sim_view d (make_directories path d).1
unfolding make_directories
make_directories-Keeps_lem path d =
    if_intro (λ (x : Status × SimDisk). Keeps sim_view d x.1) (not d.powered) _ _
      (λ _. Keeps-refl d)
      (λ _.
        if_intro (λ (x : Status × SimDisk). Keeps sim_view d x.1) (is_empty (normalize path)) _ _
          (λ _. Keeps-refl d)
          (λ _. make_prefixes-Keeps (normalize path) 0 (suc (length (normalize path))) d))

pub list_directory-Answers_lem :
    (path : List ℕ) (d : SimDisk)
    → has_path (normalize path) d.dirs ≡ true
    → Answers sim_view d (list_directory path d)
unfolding list_directory
list_directory-Answers_lem path d h =
    if_intro (Answers sim_view d) (not d.powered) _ _ (λ e. unpowered d (ground (arith, e)))
      (λ e. rw h tt)
