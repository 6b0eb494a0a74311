-- ===== src/Io/SimDisk/AsDisk.antt =====
-- src/io/sim/sim_disk.h: the simulated disk is one of the disks that the storage is written for.
use log_engine.Prelude.{
  ℕ, ◌+◌, ◌^◌, ◌≤◌, ◌<◌, ◌≡◌, refl, sym, subst, ◌∙◌, ◌⊎◌, inl, inr, Bool, true, false, ◌&&◌, none,
  some, List, [], ◌∷◌, arith, Bool-cases, if_intro, length, All, lookup,
}
use log_engine.Base.Error.{io_error, ok, fail}
use log_engine.Io.Disk.{Disk}
use log_engine.Io.Disk.Laws.{View, Keeps, Alters}
use log_engine.Io.Paths.{same_path, normalize, parent_of, has_path, find_path, change_path}
use log_engine.Io.Paths.Find.{same_path_eq, find-change_other, same_path_self}
use log_engine.Io.SimDisk.{
  max_file_bytes, Handle, SimDisk, forbids_write, resolve, open_file, close, faulty, change_file,
  pwrite, pread, fsync, truncate, file_size, remove, make_directories, list_directory,
}
use log_engine.Io.SimDisk.Power.{find-change_path}
use log_engine.Io.SimFile.{File, error_chance}

abbrev pub sim_disk : Disk
sim_disk = record {
  State = SimDisk;
  open_file = open_file;
  close = close;
  pwrite = pwrite;
  pread = pread;
  fsync = fsync;
  truncate = truncate;
  file_size = file_size;
  remove = remove;
  make_directories = make_directories;
  list_directory = list_directory;
}

-- The handle is open for writing, and its id was handed out.
pub record IsOpen (d : SimDisk) (id : ℕ) (p : List ℕ) : Type 0 where
  pub handle : Handle
  pub opened : lookup id d.open_files ≡ some handle
  pub place : handle.path ≡ p
  pub writes : forbids_write handle.mode ≡ false
  pub numbered : id < d.next_id

pub record HoldsBytes (d : SimDisk) (p b : List ℕ) : Type 0 where
  pub file : File
  pub found : find_path p d.files ≡ some file
  pub reads : file.visible ≡ b

abbrev pub AllSmall : List (List ℕ × File) → Type 0
AllSmall fs = All (λ e. length e.1.visible ≤ max_file_bytes) fs

-- Powered, without errors to come, and no file too long.
pub record IsSoundDisk (d : SimDisk) : Type 0 where
  pub powered : d.powered ≡ true
  pub faultless : (i : ℕ) → d.rng.flip i error_chance ≡ false
  pub small : AllSmall d.files

pub record IsAbsent (d : SimDisk) (path : List ℕ) : Type 0 where
  pub no_file : find_path (normalize path) d.files ≡ none
  pub no_directory : has_path (normalize path) d.dirs ≡ false
  pub parent : has_path (parent_of (normalize path)) d.dirs ≡ true

abbrev pub sim_view : View sim_disk
sim_view = record {
  Opens = IsOpen;
  Stores = HoldsBytes;
  IsHealthy = IsSoundDisk;
  CanOpen = λ d. d.next_id + 1 < 2 ^ 64;
  place = normalize;
  IsDirectory = λ d path. has_path (normalize path) d.dirs ≡ true;
  CanCreate = IsAbsent;
  limit = max_file_bytes;
}

-- The calls look at the disk, and draw once.
pub faulty-Keeps : (d : SimDisk) → Keeps sim_view d (faulty d).1
faulty-Keeps d = record {
  opens = λ id p o. record {
    handle = o.handle;
    opened = o.opened;
    place = o.place;
    writes = o.writes;
    numbered = o.numbered;
  };
  stores = λ p b h. record { file = h.file; found = h.found; reads = h.reads };
  health = λ s. record { powered = s.powered; faultless = s.faultless; small = s.small };
}

-- A handle that is open finds its file, unless the power is off.
pub resolved :
    (d : SimDisk) (id : ℕ) (w : Bool) (p b : List ℕ)
    → IsOpen d id p
    → HoldsBytes d p b
    → ((f : File) × (resolve id w d ≡ ok (p, f)) × (find_path p d.files ≡ some f) × (f.visible ≡ b))
      ⊎ ((d.powered ≡ false) × (resolve id w d ≡ fail io_error))
unfolding resolve
resolved d id w p b o h = elim (Bool-cases d.powered) [
  | inl q ↦
      let n : (w && forbids_write o.handle.mode) ≡ false = ground (arith, o.writes) in
      inl (h.file, rw (q, o.opened, n, o.place, h.found) refl, h.found, h.reads)
  | inr q ↦ inr (q, rw q refl)
]

-- What a change of one file leaves.
pub change-Alters :
    (d : SimDisk) (p b : List ℕ) (g : File → File) (f : File)
    → find_path p d.files ≡ some f
    → (g f).visible ≡ b
    → (AllSmall d.files → AllSmall (change_path p g d.files))
    → Alters sim_view d (change_file p g d) p b
change-Alters d p b g f h e a = record {
  opens = λ id q o. record {
    handle = o.handle;
    opened = o.opened;
    place = o.place;
    writes = o.writes;
    numbered = o.numbered;
  };
  others = λ q c n k. record {
    file = k.file;
    found = find-change_other p q g d.files n ∙ k.found;
    reads = k.reads;
  };
  stores = record { file = g f; found = find-change_path p g d.files f h; reads = e };
  health = λ s. record { powered = s.powered; faultless = s.faultless; small = a s.small };
}

pub change-AllSmall :
    (p : List ℕ) (g : File → File) (fs : List (List ℕ × File)) (f : File)
    → find_path p fs ≡ some f
    → (length (g f).visible ≤ max_file_bytes)
    → AllSmall fs
    → AllSmall (change_path p g fs)
unfolding find_path change_path
change-AllSmall p g [] f h l a = tt
change-AllSmall p g ((q, k) ∷ fs) f h l a = elim (Bool-cases (same_path q p)) [
  | inl e ↦
      let w : k ≡ f = ground (arith, rw e at h) in
      rw e (subst (λ x. length (g x).visible ≤ max_file_bytes) (sym w) l, a.1)
  | inr e ↦ rw e (a.0, change-AllSmall p g fs f (rw e at h) l a.1)
]

-- A change that no reader sees.
pub change-Keeps :
    (d : SimDisk) (p : List ℕ) (g : File → File)
    → ((f : File) → (g f).visible ≡ f.visible)
    → Keeps sim_view d (change_file p g d)
unfolding change_path
change-Keeps d p g e = record {
  opens = λ id q o. record {
    handle = o.handle;
    opened = o.opened;
    place = o.place;
    writes = o.writes;
    numbered = o.numbered;
  };
  stores = λ q c k. elim (Bool-cases (same_path q p)) [
    | inl h ↦
        let w = same_path_eq q p h in
        record {
          file = g k.file;
          found =
              subst (λ x. find_path x (change_path p g d.files) ≡ some (g k.file)) (sym w)
                (find-change_path p g d.files k.file
                  (subst (λ x. find_path x d.files ≡ some k.file) w k.found));
          reads = e k.file ∙ k.reads;
        }
    | inr h ↦ record {
      file = k.file;
      found =
          find-change_other p q g d.files (λ w.
            absurd (ground (arith, h, subst (λ x. same_path q x ≡ true) w (same_path_self q))))
          ∙ k.found;
      reads = k.reads;
    }
  ];
  health =
      λ s. record { powered = s.powered; faultless = s.faultless; small = unseen d.files s.small };
}
  where
    unseen : (fs : List (List ℕ × File)) → AllSmall fs → AllSmall (change_path p g fs)
    unseen [] a = tt
    unseen ((q, f) ∷ fs) a =
        if_intro AllSmall (same_path q p) _ _
          (λ _. (subst (λ l. length l ≤ max_file_bytes) (sym (e f)) a.0, a.1))
          (λ _. (a.0, unseen fs a.1))
