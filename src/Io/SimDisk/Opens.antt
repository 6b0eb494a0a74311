-- ===== src/Io/SimDisk/Opens.antt =====
-- src/io/sim/sim_disk.cpp: opening and closing a file, as the storage relies on it.
use log_engine.Prelude.{
  ℕ, ◌+◌, ◌^◌, ◌<◌, ◌≡◌, refl, subst, ◌∙◌, ◌≢◌, inl, inr, false, not, Option, none, some, List, [],
  ◌∷◌, arith, ◌==◌, if◌then◌else◌, Bool-cases, if_intro, lookup, lookup-assign,
}
use log_engine.Base.Error.{Result, ok}
use log_engine.Io.Disk.{OpenMode}
use log_engine.Io.Disk.Laws.{Keeps}
use log_engine.Io.Disk.Rules.{Keeps-refl, Keeps-trans}
use log_engine.Io.Paths.{
  same_path, path_before, normalize, parent_of, has_path, find_path, put_path,
}
use log_engine.Io.Paths.Find.{find-put_absent, lookup-erase_key}
use log_engine.Io.SimDisk.{SimDisk, creates, open_as, open_found, open_file, close}
use log_engine.Io.SimDisk.AsDisk.{IsOpen, AllSmall, sim_view}
use log_engine.Io.SimFile.{File, empty_file}

pub close-opens_lem :
    (id j : ℕ) (d : SimDisk) (p : List ℕ) → j ≢ id → IsOpen d j p → IsOpen (close id d) j p
unfolding close
close-opens_lem id j d p n o = record {
  handle = o.handle;
  opened = lookup-erase_key id j d.open_files n ∙ o.opened;
  place = o.place;
  writes = o.writes;
  numbered = o.numbered;
}

open_as-Keeps :
    (p : List ℕ) (mode : OpenMode) (d : SimDisk)
    → d.next_id + 1 < 2 ^ 64
    → Keeps sim_view d (open_as p mode d).1
open_as-Keeps p mode d r = record {
  opens = λ id q o. record {
    handle = o.handle;
    opened = lookup-assign d.next_id id _ d.open_files ∙ kept id o;
    place = o.place;
    writes = o.writes;
    numbered = omega (arith, o.numbered);
  };
  stores = λ q c k. record { file = k.file; found = k.found; reads = k.reads };
  health = λ s. record { powered = s.powered; faultless = s.faultless; small = s.small };
}
  where
    kept :
        {q : List ℕ} (id : ℕ) (o : IsOpen d id q)
        → (if d.next_id == id
            then some (record { path = p; mode = mode })
            else lookup id d.open_files)
          ≡ some o.handle
    kept id o = let n : (d.next_id == id) ≡ false = ground (arith, o.numbered) in rw n o.opened

put_path-AllSmall :
    (p : List ℕ) (fs : List (List ℕ × File)) → AllSmall fs → AllSmall (put_path p empty_file fs)
unfolding put_path
put_path-AllSmall p [] a = (omega arith, tt)
put_path-AllSmall p ((q, f) ∷ fs) a =
    if_intro AllSmall (path_before p q) _ _ (λ _. (omega arith, a))
      (λ _.
        if_intro AllSmall (same_path q p) _ _ (λ _. (omega arith, a.1))
          (λ _. (a.0, put_path-AllSmall p fs a.1)))

-- A new file changes no other.
create-Keeps :
    (p : List ℕ) (d : SimDisk)
    → find_path p d.files ≡ none
    → Keeps sim_view d (record d { files = put_path p empty_file d.files })
create-Keeps p d n = record {
  opens = λ id q o. record {
    handle = o.handle;
    opened = o.opened;
    place = o.place;
    writes = o.writes;
    numbered = o.numbered;
  };
  stores = λ q c k. record {
    file = k.file;
    found =
        find-put_absent p q empty_file k.file d.files
          (λ e.
            absurd (ground (arith, n, subst (λ x. find_path x d.files ≡ some k.file) e k.found)))
          n k.found;
    reads = k.reads;
  };
  health = λ s. record {
    powered = s.powered;
    faultless = s.faultless;
    small = put_path-AllSmall p d.files s.small;
  };
}

open_found-Keeps :
    (p : List ℕ) (mode : OpenMode) (d : SimDisk) (o : Option File)
    → find_path p d.files ≡ o
    → d.next_id + 1 < 2 ^ 64
    → Keeps sim_view d (open_found p mode d o).1
open_found-Keeps p mode d (some f) e r = open_as-Keeps p mode d r
open_found-Keeps p mode d none e r =
    if_intro (λ (x : Result ℕ × SimDisk). Keeps sim_view d x.1) (not (creates mode)) _ _
      (λ _. Keeps-refl d)
      (λ _.
        if_intro (λ (x : Result ℕ × SimDisk). Keeps sim_view d x.1)
          (not (has_path (parent_of p) d.dirs)) _ _ (λ _. Keeps-refl d)
          (λ _.
            Keeps-trans (create-Keeps p d e)
              (open_as-Keeps p mode (record d { files = put_path p empty_file d.files }) r)))

-- The id that an open gives out is the next one.
next_handed :
    (p : List ℕ) (mode : OpenMode) (d : SimDisk) (o : Option File) (id : ℕ)
    → (open_found p mode d o).0 ≡ ok id
    → id ≡ d.next_id
next_handed p mode d (some f) id e = ground (arith, e)
next_handed p mode d none id e = ground (arith, e)

pub open_file-Keeps_lem :
    (path : List ℕ) (mode : OpenMode) (d : SimDisk)
    → d.next_id + 1 < 2 ^ 64
    → Keeps sim_view d (open_file path mode d).1
unfolding open_file
open_file-Keeps_lem path mode d r =
    if_intro (λ (x : Result ℕ × SimDisk). Keeps sim_view d x.1) (not d.powered) _ _
      (λ _. Keeps-refl d)
      (λ _.
        if_intro (λ (x : Result ℕ × SimDisk). Keeps sim_view d x.1)
          (has_path (normalize path) d.dirs) _ _ (λ _. Keeps-refl d)
          (λ _. open_found-Keeps (normalize path) mode d _ refl r))

pub open_file-fresh :
    (path : List ℕ) (mode : OpenMode) (d : SimDisk) (id j : ℕ) (p : List ℕ)
    → (open_file path mode d).0 ≡ ok id
    → IsOpen d j p
    → j ≢ id
unfolding open_file
open_file-fresh path mode d id j p e o q = let n = handed in absurd (omega (arith, o.numbered))
  where
    handed : id ≡ d.next_id
    handed = elim (Bool-cases (not d.powered)) [
      | inl h ↦ absurd (ground (arith, rw h at e))
      | inr h ↦ elim (Bool-cases (has_path (normalize path) d.dirs)) [
        | inl k ↦ absurd (ground (arith, rw (h, k) at e))
        | inr k ↦ next_handed (normalize path) mode d _ id (rw (h, k) at e)
      ]
    ]
