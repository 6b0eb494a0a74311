-- ===== src/Io/SimDisk/Stale.antt =====
-- src/io/sim/sim_disk.cpp: what a dying process can do to the disk, and what becomes of its handles.
use log_engine.Prelude.{
  ℕ, zero, suc, ◌+◌, ◌^◌, ◌<◌, ◌≡◌, refl, sym, ap, subst, ◌∙◌, Bool, true, false, not, ◌&&◌, ◌||◌,
  Option, none, some, List, [], ◌∷◌, map, arith, ltb, ◌==◌, if◌then◌else◌, if_intro, length,
  is_empty, get_or, take, add_u64, lookup, lookup-assign,
}
use log_engine.Base.Error.{not_found, Result, ok, fail}
use log_engine.Io.Paths.{
  slash, normalize, parent_of, has_path, is_found, find_path, put_path, erase_key,
}
use log_engine.Io.SimDisk.{
  OpenMode, max_file_bytes, SimDisk, creates, resolve, open_as, open_found, open_file, close,
  faulty, pwrite_at, pwrite, pread_at, pread, fsync_at, fsync, truncate_at, truncate, remove_found,
  remove, make_prefixes, make_directories, crash, power_on,
}
use log_engine.Io.SimFile.{File, empty_file}
use log_engine.Io.SimDisk.Calls.{
  Call, open_call, close_call, pwrite_call, pread_call, fsync_call, truncate_call, size_call,
  remove_call, make_call, list_call, perform, perform_all, refusal, dark_lem,
}

-- A handle that was handed out and is not open, on a disk that can hand out `n` more.
record IsStale (id n : ℕ) (d : SimDisk) : Type 0 where
  powered : d.powered ≡ true
  gone : lookup id d.open_files ≡ none
  given : id < d.next_id
  room : d.next_id + n < 2 ^ 64

lookup-erase_absent :
    {V : Type 0} (k j : ℕ) (m : List (ℕ × V)) → lookup j m ≡ none → lookup j (erase_key k m) ≡ none
unfolding lookup erase_key
lookup-erase_absent k j [] h = refl
lookup-erase_absent k j ((i, v) ∷ m) h = ground (arith, lookup-erase_absent k j m)

-- A call that hands out no handle leaves a stale one stale, with room for one less.
module _ (id n : ℕ) where
  abbrev Stays : {A : Type 0} → A × SimDisk → Type 0
  Stays r = IsStale id n r.1

  one_less : (d : SimDisk) → IsStale id (suc n) d → IsStale id n d
  one_less d h = record {
    powered = h.powered;
    gone = h.gone;
    given = h.given;
    room = omega (arith, h.room);
  }

  -- The files, the directories and the draws do not matter.
  other_files :
      (d r : SimDisk)
      → r.open_files ≡ d.open_files
      → r.next_id ≡ d.next_id
      → r.powered ≡ d.powered
      → IsStale id n d
      → IsStale id n r
  other_files d r o i p h = record {
    powered = p ∙ h.powered;
    gone = ap (lookup id) o ∙ h.gone;
    given = omega (arith, i, h.given);
    room = omega (arith, i, h.room);
  }

  open_as-IsStale :
      (p : List ℕ) (mode : OpenMode) (d : SimDisk) → IsStale id (suc n) d → Stays (open_as p mode d)
  open_as-IsStale p mode d h = record {
    powered = h.powered;
    gone =
        lookup-assign d.next_id id _ d.open_files
        ∙ (let k : (d.next_id == id) ≡ false = ground (arith, h.given) in rw k h.gone);
    given = omega (arith, h.given, h.room);
    room = omega (arith, h.room);
  }

  open_found-IsStale :
      (p : List ℕ) (mode : OpenMode) (d : SimDisk) (o : Option File)
      → IsStale id (suc n) d
      → Stays (open_found p mode d o)
  open_found-IsStale p mode d (some f) h = open_as-IsStale p mode d h
  open_found-IsStale p mode d none h =
      if_intro Stays (not (creates mode)) _ _ (λ _. one_less d h)
        (λ _.
          if_intro Stays (not (has_path (parent_of p) d.dirs)) _ _ (λ _. one_less d h)
            (λ _.
              open_as-IsStale p mode (record d { files = put_path p empty_file d.files })
                (record { powered = h.powered; gone = h.gone; given = h.given; room = h.room })))

  open_file-IsStale :
      (p : List ℕ) (mode : OpenMode) (d : SimDisk)
      → IsStale id (suc n) d
      → Stays (open_file p mode d)
  unfolding open_file
  open_file-IsStale p mode d h =
      if_intro Stays (not d.powered) _ _ (λ _. one_less d h)
        (λ _.
          if_intro Stays (has_path (normalize p) d.dirs) _ _ (λ _. one_less d h)
            (λ _. open_found-IsStale (normalize p) mode d (find_path (normalize p) d.files) h))

  close-IsStale : (file : ℕ) (d : SimDisk) → IsStale id n d → IsStale id n (close file d)
  unfolding close
  close-IsStale file d h = record {
    powered = h.powered;
    gone = lookup-erase_absent file id d.open_files h.gone;
    given = h.given;
    room = h.room;
  }

  make_prefixes-IsStale :
      (p : List ℕ) (i k : ℕ) (d : SimDisk) → IsStale id n d → Stays (make_prefixes p i k d)
  unfolding make_prefixes
  make_prefixes-IsStale p i zero d h = h
  make_prefixes-IsStale p i (suc k) d h =
      if_intro Stays (not (i == length p) && not (get_or p i 0 == slash)) _ _
        (λ _. make_prefixes-IsStale p (suc i) k d h)
        (λ _.
          if_intro Stays (is_found (find_path (take (if i == 0 then 1 else i) p) d.files)) _ _
            (λ _. h) (λ _. make_prefixes-IsStale p (suc i) k _ (other_files d _ refl refl refl h)))

  pwrite_at-IsStale :
      (bytes : List ℕ) (offset : ℕ) (d : SimDisk) (r : Result (List ℕ × File))
      → IsStale id n d
      → Stays (pwrite_at bytes offset d r)
  pwrite_at-IsStale bytes offset d (fail c) h = h
  pwrite_at-IsStale bytes offset d (ok (p, f)) h =
      if_intro Stays (faulty d).0 _ _ (λ _. other_files d _ refl refl refl h)
        (λ _.
          if_intro Stays (is_empty bytes) _ _ (λ _. other_files d _ refl refl refl h)
            (λ _.
              if_intro Stays
                (ltb (add_u64 offset (length bytes)) offset
                  || ltb max_file_bytes (add_u64 offset (length bytes)))
                _ _ (λ _. other_files d _ refl refl refl h)
                (λ _. other_files d _ refl refl refl h)))

  pread_at-IsStale :
      (count offset : ℕ) (d : SimDisk) (r : Result (List ℕ × File))
      → IsStale id n d
      → Stays (pread_at count offset d r)
  pread_at-IsStale count offset d (fail c) h = h
  pread_at-IsStale count offset d (ok (p, f)) h =
      if_intro Stays (faulty d).0 _ _ (λ _. other_files d _ refl refl refl h)
        (λ _. other_files d _ refl refl refl h)

  fsync_at-IsStale :
      (d : SimDisk) (r : Result (List ℕ × File)) → IsStale id n d → Stays (fsync_at d r)
  fsync_at-IsStale d (fail c) h = h
  fsync_at-IsStale d (ok (p, f)) h =
      if_intro Stays (faulty d).0 _ _ (λ _. other_files d _ refl refl refl h)
        (λ _. other_files d _ refl refl refl h)

  truncate_at-IsStale :
      (size : ℕ) (d : SimDisk) (r : Result (List ℕ × File))
      → IsStale id n d
      → Stays (truncate_at size d r)
  truncate_at-IsStale size d (fail c) h = h
  truncate_at-IsStale size d (ok (p, f)) h =
      if_intro Stays (ltb max_file_bytes size) _ _ (λ _. h) (λ _. other_files d _ refl refl refl h)

  remove_found-IsStale :
      (p : List ℕ) (d : SimDisk) (o : Option File) → IsStale id n d → Stays (remove_found p d o)
  remove_found-IsStale p d none h = h
  remove_found-IsStale p d (some f) h = other_files d _ refl refl refl h

  perform-IsStale : (c : Call) (d : SimDisk) → IsStale id (suc n) d → Stays (perform c d)
  unfolding perform pwrite pread fsync truncate remove make_directories
  perform-IsStale (open_call path mode) d h = open_file-IsStale path mode d h
  perform-IsStale (close_call file) d h = close-IsStale file d (one_less d h)
  perform-IsStale (pwrite_call file bytes offset) d h =
      pwrite_at-IsStale bytes offset d (resolve file true d) (one_less d h)
  perform-IsStale (pread_call file count offset) d h =
      pread_at-IsStale count offset d (resolve file false d) (one_less d h)
  perform-IsStale (fsync_call file) d h = fsync_at-IsStale d (resolve file false d) (one_less d h)
  perform-IsStale (truncate_call file size) d h =
      truncate_at-IsStale size d (resolve file true d) (one_less d h)
  perform-IsStale (size_call file) d h = one_less d h
  perform-IsStale (remove_call path) d h =
      if_intro Stays (not d.powered) _ _ (λ _. one_less d h)
        (λ _.
          remove_found-IsStale (normalize path) d (find_path (normalize path) d.files)
            (one_less d h))
  perform-IsStale (make_call path) d h =
      if_intro Stays (not d.powered) _ _ (λ _. one_less d h)
        (λ _.
          if_intro Stays (is_empty (normalize path)) _ _ (λ _. one_less d h)
            (λ _.
              make_prefixes-IsStale (normalize path) 0 (suc (length (normalize path))) d
                (one_less d h)))
  perform-IsStale (list_call path) d h = one_less d h

perform_all-IsStale :
    (id : ℕ) (cs : List Call) (d : SimDisk)
    → IsStale id (length cs) d
    → IsStale id 0 (perform_all cs d).1
unfolding perform_all
perform_all-IsStale id [] d h = h
perform_all-IsStale id (c ∷ cs) d h =
    perform_all-IsStale id cs (perform c d).1 (perform-IsStale id (length cs) c d h)

stale_is_refused :
    (id : ℕ) (w : Bool) (d : SimDisk) → IsStale id 0 d → resolve id w d ≡ fail not_found
unfolding resolve
stale_is_refused id w d h = rw (h.powered, h.gone) refl

-- Calls `dark` made after a power cut all fail with an I/O error, but for a close, which says nothing,
-- and leave the disk as the cut left it. When the power is back, a handle that was handed out before
-- the cut is not found, whatever calls `lit` are made first, where the ids do not wrap.
pub power_cut_refuses :
    (d : SimDisk) (dark lit : List Call) (id : ℕ) (for_write : Bool)
    → id < d.next_id
    → d.next_id + length lit < 2 ^ 64
    → (perform_all dark (crash d) ≡ (map refusal dark, crash d))
      × (resolve id for_write (perform_all lit (power_on (perform_all dark (crash d)).1)).1
          ≡ fail not_found)
unfolding crash power_on lookup
power_cut_refuses d dark lit id for_write g l =
    let e = dark_lem dark d in
    (
      e,
      stale_is_refused id for_write _ (
          perform_all-IsStale id lit _ (
            subst (λ r. IsStale id (length lit) (power_on r.1)) (sym e)
              (record { powered = refl; gone = refl; given = g; room = l }))),
    )
