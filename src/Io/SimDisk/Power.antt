-- ===== src/Io/SimDisk/Power.antt =====
-- src/io/sim/sim_disk.cpp: what a power cut takes, and what it cannot take.
use log_engine.Prelude.{
  ℕ, ◌≡◌, ap, subst, inl, inr, Bool, false, not, ◌&&◌, Option, none, some, List, [], ◌∷◌, arith,
  Bool-cases, lookup,
}
use log_engine.Base.Error.{io_error, Result, ok, fail, Status}
use log_engine.Io.Paths.{same_path, find_path, change_path}
use log_engine.Io.SimDisk.{
  Handle, SimDisk, forbids_write, named_file, permit, resolve, faulty, fsync, crash_files, crash,
}
use log_engine.Io.SimDisk.Sound.{AllCoherent, IsSound}
use log_engine.Io.SimFile.{File, empty_file, DiskRandom, sync_file, crash_file}
use log_engine.Io.SimFile.Coherent.{IsCoherent}
use log_engine.Io.SimFile.Crash.{synced_survives}

map_option : (File → File) → Option File → Option File
map_option g none = none
map_option g (some f) = some (g f)

pub find-change_path :
    (p : List ℕ) (g : File → File) (fs : List (List ℕ × File)) (f : File)
    → find_path p fs ≡ some f
    → find_path p (change_path p g fs) ≡ some (g f)
unfolding find_path change_path map_option
find-change_path p g [] f e = ground arith
find-change_path p g (c ∷ fs) f e = elim (Bool-cases (same_path c.0 p)) [
  | inl s ↦ rw (s, s) (ap (λ o. map_option g o) (rw s at e))
  | inr s ↦ rw (s, s) (find-change_path p g fs f (rw s at e))
]

find-crash_files :
    (p : List ℕ) (fs : List (List ℕ × File)) (r : DiskRandom) (f : File)
    → find_path p fs ≡ some f
    → (q : DiskRandom) × (find_path p (crash_files fs r).0 ≡ some (crash_file f q).0)
unfolding find_path crash_files map_option
find-crash_files p [] r f e = ground arith
find-crash_files p (c ∷ fs) r f e = elim (Bool-cases (same_path c.0 p)) [
  | inl s ↦ (r, rw s (ap (λ o. map_option (λ g. (crash_file g r).0) o) (rw s at e)))
  | inr s ↦ let (q, h) = find-crash_files p fs (crash_file c.1 r).2 f (rw s at e) in (q, rw s h)
]

contents_of : Result (List ℕ × File) → List ℕ × File
contents_of (fail c) = ([], empty_file)
contents_of (ok r) = r

named_found :
    (q : List ℕ) (o : Option File) (p : List ℕ) (f : File)
    → named_file q o ≡ ok (p, f)
    → (q ≡ p) × (o ≡ some f)
unfolding contents_of
named_found q none p f e = ground arith
named_found q (some g) p f e = (ap (λ r. (contents_of r).0) e, ap (λ r. some (contents_of r).1) e)

permit_found :
    (d : SimDisk) (w : Bool) (o : Option Handle) (p : List ℕ) (f : File)
    → permit d w o ≡ ok (p, f)
    → find_path p d.files ≡ some f
permit_found d w none p f e = ground arith
permit_found d w (some h) p f e = elim (Bool-cases (w && forbids_write h.mode)) [
  | inl s ↦ absurd (refused (rw s at e))
  | inr s ↦
      let (q, g) = named_found h.path (find_path h.path d.files) p f (rw s at e) in
      subst (λ x. find_path x d.files ≡ some f) q g
]
  where
    refused : ◌≡◌ {A = Result (List ℕ × File)} (fail io_error) (ok (p, f)) → ⊥
    refused e = ground arith

resolve_found :
    (file : ℕ) (w : Bool) (d : SimDisk) (p : List ℕ) (f : File)
    → resolve file w d ≡ ok (p, f)
    → find_path p d.files ≡ some f
unfolding resolve
resolve_found file w d p f e = elim (Bool-cases (not d.powered)) [
  | inl s ↦ absurd (refused (rw s at e))
  | inr s ↦ permit_found d w (lookup file d.open_files) p f (rw s at e)
]
  where
    refused : ◌≡◌ {A = Result (List ℕ × File)} (fail io_error) (ok (p, f)) → ⊥
    refused e = ground arith

all_found :
    (p : List ℕ) (fs : List (List ℕ × File)) (f : File)
    → AllCoherent fs
    → find_path p fs ≡ some f
    → IsCoherent f
unfolding find_path
all_found p [] f h e = ground arith
all_found p (c ∷ fs) f h e = elim (Bool-cases (same_path c.0 p)) [
  | inl s ↦ subst (λ o. FoundCoherent o) (rw s at e) h.0
  | inr s ↦ all_found p fs f h.1 (rw s at e)
]
  where
    FoundCoherent : Option File → Type 0
    FoundCoherent none = Unit {0}
    FoundCoherent (some g) = IsCoherent g

-- What an fsync reported as done survives: on a sound disk, if a handle names a file and its fsync
-- succeeds, then after a power cut the file is there and reads as it did.
pub fsync-then-crash :
    (file : ℕ) (d : SimDisk) (p : List ℕ) (f : File)
    → IsSound d
    → resolve file false d ≡ ok (p, f)
    → (fsync file d).0 ≡ ok tt
    → (g : File) × (find_path p (crash (fsync file d).1).files ≡ some g) × (g.visible ≡ f.visible)
unfolding fsync crash
fsync-then-crash file d p f h r e = elim (Bool-cases (faulty d).0) [
  | inl s ↦ absurd (refused (rw (r, s) at e))
  | inr s ↦
      let found = resolve_found file false d p f r in
      let (q, k) =
        find-crash_files p (change_path p sync_file d.files) (faulty d).1.rng (sync_file f)
          (find-change_path p sync_file d.files f found) in
      (
        (crash_file (sync_file f) q).0,
        rw (r, s) k,
        synced_survives f q (all_found p d.files f h found),
      )
]
  where
    refused : ◌≡◌ {A = Status} (fail io_error) (ok tt) → ⊥
    refused e = ground arith
