-- ===== src/Storage/Segment/Recover/Index.antt =====
-- src/storage/segment.cpp: reading the index file changes nothing, and never fails the recovery.
use log_engine.Prelude.{ℕ, ◌≡◌, refl, ◌≢◌, List, ◌==◌, if_intro}
use log_engine.Base.Error.{Result, ok, fail}
use log_engine.Io.Disk.{mode_read, Disk, Run}
use log_engine.Io.Disk.Laws.{View, Keeps, IsDisk}
use log_engine.Io.Disk.Rules.{bind_lem, Keeps-refl, Keeps-trans}
use log_engine.Storage.Segment.Recover.{read_entries, read_open_index, index_of, read_index}
use log_engine.Storage.SparseIndex.{IndexEntry}

module _ {D : Disk} {V : View D} (L : IsDisk V) where
  -- The index file is read and closed again, and no failure of that is one of the recovery.
  abbrev pub Kept : D.State → Result (List IndexEntry) × D.State → Type 0
  Kept s (ok es, r) = Keeps V s r
  Kept s (fail c, r) = ⊥

  close_fresh :
      (s r : D.State) (id : ℕ)
      → Keeps V s r
      → ((j : ℕ) (q : List ℕ) → V.Opens s j q → j ≢ id)
      → Keeps V s (D.close id r)
  close_fresh s r id k f = record {
    opens = λ j q h. L.close-opens id j r q (f j q h) (k.opens j q h);
    stores = λ q c h. L.close-stores id r q c (k.stores q c h);
    health = λ h. L.close-health id r (k.health h);
  }

  read_entries-Keeps :
      (id file_size n : ℕ) (s : D.State) → Keeps V s (read_entries D id file_size n s).1
  unfolding read_entries
  read_entries-Keeps id file_size n s =
      if_intro (λ (f : Run D.State (List IndexEntry)). Keeps V s (f s).1) (n == 0) _ _
        (λ _. Keeps-refl s)
        (λ _.
          bind_lem (λ (x : Result (List IndexEntry) × D.State). Keeps V s x.1) (D.pread id n 0 s) _
            (λ got _. L.pread-Keeps id n 0 s) (λ c _. L.pread-Keeps id n 0 s))

  read_open_index-Kept :
      (id file_size : ℕ) (s r : D.State)
      → Keeps V s r
      → ((j : ℕ) (q : List ℕ) → V.Opens s j q → j ≢ id)
      → Kept s (read_open_index D id file_size r)
  unfolding read_open_index
  read_open_index-Kept id file_size s r k f =
      close_fresh s _ id
        (Keeps-trans k (
          bind_lem (λ (x : Result (List IndexEntry) × D.State). Keeps V r x.1) (D.file_size id r, r)
            (read_entries D id file_size) (λ n _. read_entries-Keeps id file_size n r)
            (λ c _. Keeps-refl r)))
        f

  pub read_index-Kept :
      (path : List ℕ) (file_size : ℕ) (s : D.State)
      → V.CanOpen s
      → Kept s (read_index D path file_size s)
  unfolding read_index
  read_index-Kept path file_size s room =
      opened (D.open_file path mode_read s) (L.open-Keeps path mode_read s room)
        (λ id j q e h. L.open_fresh path mode_read s id j q room e h)
    where
      opened :
          (x : Result ℕ × D.State)
          → Keeps V s x.1
          → ((id j : ℕ) (q : List ℕ) → x.0 ≡ ok id → V.Opens s j q → j ≢ id)
          → Kept s (index_of D file_size x.0 x.1)
      opened (ok id, r) k f = read_open_index-Kept id file_size s r k (λ j q h. f id j q refl h)
      opened (fail c, r) k f = k
