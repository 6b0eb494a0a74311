-- ===== src/Io/SimDisk/Reads.antt =====
-- src/io/sim/sim_disk.cpp: reading, syncing and truncating a file, as the storage relies on it.
use log_engine.Prelude.{
  ℕ, ◌≤◌, ◌≡◌, refl, sym, ap, subst, ◌∙◌, inl, inr, true, false, some, List, [], ◌∷◌, arith, ltb,
  Bool-cases, if_intro, length, take, drop,
}
use log_engine.Base.Error.{Result, ok, fail, Status}
use log_engine.Io.Disk.Laws.{Keeps, Reads, Measures, Cuts, Answers}
use log_engine.Io.Disk.Rules.{Keeps-refl, Keeps-trans}
use log_engine.Io.Paths.{same_path, find_path}
use log_engine.Io.SimDisk.{
  max_file_bytes, SimDisk, resolve, faulty, pread_at, pread, fsync_at, fsync, truncate_at, truncate,
  visible_size, file_size,
}
use log_engine.Io.SimDisk.AsDisk.{
  IsOpen, HoldsBytes, AllSmall, IsSoundDisk, sim_view, faulty-Keeps, resolved, change-Alters,
  change-AllSmall, change-Keeps,
}
use log_engine.Io.SimFile.{File, resize, sync_file, truncate_file}
use log_engine.Io.SimFile.Images.{length-resize}
use log_engine.Io.SimFile.Patch.{resize_shorter, read_file_lem}

pub pread-Keeps_lem : (id count pos : ℕ) (d : SimDisk) → Keeps sim_view d (pread id count pos d).1
unfolding pread
pread-Keeps_lem id count pos d = kept (resolve id false d)
  where
    kept : (r : Result (List ℕ × File)) → Keeps sim_view d (pread_at count pos d r).1
    kept (fail c) = Keeps-refl d
    kept (ok (p, f)) =
        if_intro (λ (x : Result (List ℕ) × SimDisk). Keeps sim_view d x.1) (faulty d).0 _ _
          (λ _. faulty-Keeps d) (λ _. faulty-Keeps d)

pub unpowered : (d : SimDisk) → d.powered ≡ false → ¬ IsSoundDisk d
unpowered d h s = absurd (ground (arith, h, s.powered))

pub at_fault : (d : SimDisk) → (faulty d).0 ≡ true → ¬ IsSoundDisk d
at_fault d h s = absurd (ground (arith, h, s.faultless d.rng.position))

pub pread-Reads_lem :
    (id count pos : ℕ) (d : SimDisk) (p b : List ℕ)
    → IsOpen d id p
    → HoldsBytes d p b
    → Reads sim_view d b count pos (pread id count pos d).0
unfolding pread
pread-Reads_lem id count pos d p b o h = elim (resolved d id false p b o h) [
  | inl (f, q, _, v) ↦
      subst (λ x. Reads sim_view d b count pos (pread_at count pos d x).0) (sym q)
        (if_intro (λ (x : Result (List ℕ) × SimDisk). Reads sim_view d b count pos x.0) (faulty d).0
          _ _ (λ e. at_fault d e)
          (λ e. read_file_lem count pos f ∙ ap (λ x. take count (drop pos x)) v))
  | inr (e, q) ↦
      subst (λ x. Reads sim_view d b count pos (pread_at count pos d x).0) (sym q) (unpowered d e)
]

pub file_size-Measures_lem :
    (id : ℕ) (d : SimDisk) (p b : List ℕ)
    → IsOpen d id p
    → HoldsBytes d p b
    → Measures sim_view d b (file_size id d)
unfolding file_size
file_size-Measures_lem id d p b o h = elim (resolved d id false p b o h) [
  | inl (f, q, _, v) ↦ subst (λ x. Measures sim_view d b (visible_size x)) (sym q) (ap length v)
  | inr (e, q) ↦ subst (λ x. Measures sim_view d b (visible_size x)) (sym q) (unpowered d e)
]

pub fsync-Keeps_lem : (id : ℕ) (d : SimDisk) → Keeps sim_view d (fsync id d).1
unfolding fsync sync_file
fsync-Keeps_lem id d = kept (resolve id false d)
  where
    kept : (r : Result (List ℕ × File)) → Keeps sim_view d (fsync_at d r).1
    kept (fail c) = Keeps-refl d
    kept (ok (p, f)) =
        if_intro (λ (x : Status × SimDisk). Keeps sim_view d x.1) (faulty d).0 _ _
          (λ _. faulty-Keeps d)
          (λ _. Keeps-trans (faulty-Keeps d) (change-Keeps (faulty d).1 p sync_file (λ f. refl)))

pub fsync-Answers_lem :
    (id : ℕ) (d : SimDisk) (p b : List ℕ)
    → IsOpen d id p
    → HoldsBytes d p b
    → Answers sim_view d (fsync id d).0
unfolding fsync
fsync-Answers_lem id d p b o h = elim (resolved d id false p b o h) [
  | inl (f, q, _, _) ↦
      subst (λ x. Answers sim_view d (fsync_at d x).0) (sym q)
        (if_intro (λ (x : Status × SimDisk). Answers sim_view d x.0) (faulty d).0 _ _
          (λ e. at_fault d e) (λ e. tt))
  | inr (e, q) ↦ subst (λ x. Answers sim_view d (fsync_at d x).0) (sym q) (unpowered d e)
]

pub stored_small :
    (p : List ℕ) (fs : List (List ℕ × File))
    → AllSmall fs
    → (f : File) → find_path p fs ≡ some f
    → length f.visible ≤ max_file_bytes
unfolding find_path
stored_small p [] a f h = absurd (ground arith)
stored_small p ((q, k) ∷ fs) a f h = elim (Bool-cases (same_path q p)) [
  | inl e ↦
      let w : k ≡ f = ground (arith, rw e at h) in
      subst (λ x. length x.visible ≤ max_file_bytes) w a.0
  | inr e ↦ stored_small p fs a.1 f (rw e at h)
]

pub truncate-Cuts_lem :
    (id size : ℕ) (d : SimDisk) (p b : List ℕ)
    → IsOpen d id p
    → HoldsBytes d p b
    → size ≤ length b
    → Cuts sim_view d p b size (truncate id size d)
unfolding truncate truncate_file
truncate-Cuts_lem id size d p b o h l = elim (resolved d id true p b o h) [
  | inl (f, q, w, v) ↦
      subst (λ x. Cuts sim_view d p b size (truncate_at size d x)) (sym q)
        (if_intro (Cuts sim_view d p b size) (ltb max_file_bytes size) _ _
          (λ e. (
            Keeps-refl d,
            λ s. absurd (ground (arith, stored_small p d.files s.small f w, ap length v)),
          ))
          (λ e.
            change-Alters d p (take size b) (truncate_file size) f w
              (ap (resize size) v ∙ resize_shorter size b l)
              (λ a.
                change-AllSmall p (truncate_file size) d.files f w
                  (omega (
                    arith,
                    stored_small p d.files a f w,
                    ap length v,
                    length-resize size f.visible,
                  ))
                  a)))
  | inr (e, q) ↦
      subst (λ x. Cuts sim_view d p b size (truncate_at size d x)) (sym q)
        (Keeps-refl d, unpowered d e)
]
