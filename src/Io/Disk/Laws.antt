-- ===== src/Io/Disk/Laws.antt =====
-- src/io/disk.h: what the callers of the disk rely on. A handle is opened for writing on a place,
-- and a place stores bytes. A call may fail only on a disk that is not sound, and says so.
use log_engine.Prelude.{ℕ, ◌+◌, ◌≤◌, ◌≡◌, ◌≢◌, List, [], ◌++◌, length, take, drop}
use log_engine.Base.Error.{Result, ok, fail, Status}
use log_engine.Io.Disk.{OpenMode, mode_read, mode_create, Disk}

pub record View (D : Disk) : Type 1 where
  pub Opens : D.State → ℕ → List ℕ → Type 0
  pub Stores : D.State → List ℕ → List ℕ → Type 0
  pub IsHealthy : D.State → Type 0
  -- One more handle can be numbered.
  pub CanOpen : D.State → Type 0
  -- The place that a path names, and what stands there.
  pub place : List ℕ → List ℕ
  pub IsDirectory : D.State → List ℕ → Type 0
  -- Nothing stands there, but the directory that it would be in does.
  pub CanCreate : D.State → List ℕ → Type 0
  -- No file grows past this.
  pub limit : ℕ

module _ {D : Disk} (V : View D) where
  -- Every file that was there is as it was, and every handle that was open.
  pub record Keeps (s r : D.State) : Type 0 where
    pub opens : (id : ℕ) (p : List ℕ) → V.Opens s id p → V.Opens r id p
    pub stores : (p b : List ℕ) → V.Stores s p b → V.Stores r p b
    pub health : V.IsHealthy s → V.IsHealthy r

  -- The same, but for the file at `p`, which now has the bytes `b`.
  pub record Alters (s r : D.State) (p b : List ℕ) : Type 0 where
    pub opens : (id : ℕ) (q : List ℕ) → V.Opens s id q → V.Opens r id q
    pub others : (q c : List ℕ) → q ≢ p → V.Stores s q c → V.Stores r q c
    pub stores : V.Stores r p b
    pub health : V.IsHealthy s → V.IsHealthy r

  abbrev pub Reads : D.State → List ℕ → ℕ → ℕ → Result (List ℕ) → Type 0
  Reads s b count pos (ok got) = got ≡ take count (drop pos b)
  Reads s b count pos (fail c) = ¬ V.IsHealthy s

  abbrev pub Measures : D.State → List ℕ → Result ℕ → Type 0
  Measures s b (ok n) = n ≡ length b
  Measures s b (fail c) = ¬ V.IsHealthy s

  -- What stands before the position of a write is not lost, whatever becomes of the write.
  abbrev pub Spoils : D.State → D.State → List ℕ → List ℕ → ℕ → Type 0
  Spoils s r p b pos = (c : List ℕ) × Alters s r p c × (take pos c ≡ take pos b)

  abbrev pub Writes : D.State → List ℕ → List ℕ → List ℕ → ℕ → Result ℕ × D.State → Type 0
  Writes s p b new pos (ok n, r) =
      (n ≡ length new → Alters s r p (take pos b ++ (new ++ drop (pos + length new) b)))
      × Spoils s r p b pos
      × (V.IsHealthy s → n ≡ length new)
  Writes s p b new pos (fail c, r) = Spoils s r p b pos × (¬ V.IsHealthy s)

  abbrev pub Cuts : D.State → List ℕ → List ℕ → ℕ → Status × D.State → Type 0
  Cuts s p b size (ok u, r) = Alters s r p (take size b)
  Cuts s p b size (fail c, r) = Keeps s r × (¬ V.IsHealthy s)

  -- A call that fails only on a disk that is not healthy.
  abbrev pub Answers {ℓ} : {A : Type ℓ} → D.State → Result A → Type 0
  Answers s (ok a) = Unit {0}
  Answers s (fail c) = ¬ V.IsHealthy s

  abbrev pub Opened : D.State → List ℕ → Result ℕ × D.State → Type 0
  Opened s path (ok id, r) = V.Opens r id (V.place path)
  Opened s path (fail c, r) = ¬ V.IsHealthy s

  abbrev pub Created : D.State → List ℕ → Result ℕ × D.State → Type 0
  Created s path (ok id, r) = V.Opens r id (V.place path) × V.Stores r (V.place path) []
  Created s path (fail c, r) = ¬ V.IsHealthy s

  -- Every file but the one at `p` is as it was, and every handle that was open.
  pub record Spares (s r : D.State) (p : List ℕ) : Type 0 where
    pub opens : (id : ℕ) (q : List ℕ) → V.Opens s id q → V.Opens r id q
    pub others : (q c : List ℕ) → q ≢ p → V.Stores s q c → V.Stores r q c
    pub health : V.IsHealthy s → V.IsHealthy r

  abbrev pub Removes : D.State → List ℕ → Status × D.State → Type 0
  Removes s path (ok u, r) = Spares s r (V.place path)
  Removes s path (fail c, r) =
      Keeps s r × ((b : List ℕ) → V.Stores s (V.place path) b → ¬ V.IsHealthy s)

  pub record IsDisk : Type 0 where
    pub open-Keeps :
        (path : List ℕ) (mode : OpenMode) (s : D.State)
        → V.CanOpen s
        → Keeps s (D.open_file path mode s).1
    pub open_fresh :
        (path : List ℕ) (mode : OpenMode) (s : D.State) (id j : ℕ) (p : List ℕ)
        → V.CanOpen s
        → (D.open_file path mode s).0 ≡ ok id
        → V.Opens s j p
        → j ≢ id
    pub open-Opened :
        (path : List ℕ) (mode : OpenMode) (s : D.State) (b : List ℕ)
        → V.CanOpen s
        → mode ≢ mode_read
        → V.Stores s (V.place path) b
        → ¬ V.IsDirectory s path
        → Opened s path (D.open_file path mode s)
    pub open-Created :
        (path : List ℕ) (s : D.State)
        → V.CanOpen s
        → V.CanCreate s path
        → Created s path (D.open_file path mode_create s)
    -- Closing a handle leaves the files, and the other handles open.
    pub close-stores :
        (id : ℕ) (s : D.State) (p b : List ℕ) → V.Stores s p b → V.Stores (D.close id s) p b
    pub close-opens :
        (id j : ℕ) (s : D.State) (p : List ℕ) → j ≢ id → V.Opens s j p → V.Opens (D.close id s) j p
    pub close-health : (id : ℕ) (s : D.State) → V.IsHealthy s → V.IsHealthy (D.close id s)
    pub pread-Keeps : (id count pos : ℕ) (s : D.State) → Keeps s (D.pread id count pos s).1
    pub pread-Reads :
        (id count pos : ℕ) (s : D.State) (p b : List ℕ)
        → V.Opens s id p
        → V.Stores s p b
        → Reads s b count pos (D.pread id count pos s).0
    pub file_size-Measures :
        (id : ℕ) (s : D.State) (p b : List ℕ)
        → V.Opens s id p
        → V.Stores s p b
        → Measures s b (D.file_size id s)
    pub pwrite-Writes :
        (id pos : ℕ) (new : List ℕ) (s : D.State) (p b : List ℕ)
        → V.Opens s id p
        → V.Stores s p b
        → pos ≤ length b
        → pos + length new ≤ V.limit
        → Writes s p b new pos (D.pwrite id new pos s)
    pub fsync-Keeps : (id : ℕ) (s : D.State) → Keeps s (D.fsync id s).1
    pub fsync-Answers :
        (id : ℕ) (s : D.State) (p b : List ℕ)
        → V.Opens s id p
        → V.Stores s p b
        → Answers s (D.fsync id s).0
    pub truncate-Cuts :
        (id size : ℕ) (s : D.State) (p b : List ℕ)
        → V.Opens s id p
        → V.Stores s p b
        → size ≤ length b
        → Cuts s p b size (D.truncate id size s)
    pub remove-Removes : (path : List ℕ) (s : D.State) → Removes s path (D.remove path s)
    pub make_directories-Keeps :
        (path : List ℕ) (s : D.State) → Keeps s (D.make_directories path s).1
    pub list_directory-Answers :
        (path : List ℕ) (s : D.State) → V.IsDirectory s path → Answers s (D.list_directory path s)
