-- ===== src/Io/SimDisk/Writes.antt =====
-- src/io/sim/sim_disk.cpp: writing a file, as the storage relies on it.
use log_engine.Prelude.{
  ℕ, suc, ◌+◌, ◌-◌, ◌≤◌, ◌≡◌, refl, sym, ap, subst, ◌∙◌, inl, inr, true, ◌||◌, some, List, [], ◌∷◌,
  ◌++◌, arith, ltb, if_intro, length, take, drop, length-append, length-drop, length-take_within,
  take-append, take-take, add_u64,
}
use native.Mathlib.Nat.{le_refl}
use log_engine.Base.Error.{ErrorCode, io_error, ok, fail}
use log_engine.Io.Disk.Laws.{Keeps, Alters, Writes}
use log_engine.Io.Disk.Rules.{Keeps-refl, Keeps-Alters, Keeps-then-Alters}
use log_engine.Io.Paths.{find_path}
use log_engine.Io.SimDisk.{max_file_bytes, SimDisk, faulty, pwrite_at, pwrite}
use log_engine.Io.SimDisk.AsDisk.{
  IsOpen, HoldsBytes, IsSoundDisk, sim_view, faulty-Keeps, resolved, change-Alters, change-AllSmall,
}
use log_engine.Io.SimDisk.Reads.{unpowered, at_fault, stored_small}
use log_engine.Io.SimFile.{File, apply_bytes, write_file}
use log_engine.Io.SimFile.Patch.{apply_bytes_lem}

-- The bytes after a write, and what it does not touch.
abbrev over : List ℕ → ℕ → List ℕ → List ℕ
over b pos new = take pos b ++ (new ++ drop (pos + length new) b)

over_prefix : (b new : List ℕ) (pos : ℕ) → pos ≤ length b → take pos (over b pos new) ≡ take pos b
over_prefix b new pos l =
    take-append pos (take pos b) _ (omega (arith, length-take_within pos b l))
    ∙ take-take pos pos b (le_refl pos)

over-le :
    (b new : List ℕ) (pos : ℕ)
    → pos ≤ length b
    → length (over b pos new) ≤ pos + length new + (length b - (pos + length new))
over-le b new pos l = omega (
  arith,
  length-append (take pos b) (new ++ drop (pos + length new) b),
  length-append new (drop (pos + length new) b),
  length-take_within pos b l,
  length-drop (pos + length new) b,
)

module _ (pos : ℕ) (new : List ℕ) (d : SimDisk) (p b : List ℕ) (l : pos ≤ length b) where
  written :
      (r : SimDisk)
      → Alters sim_view d r p (over b pos new)
      → Writes sim_view d p b new pos (ok (length new), r)
  written r a = ((λ _. a), (over b pos new, a, over_prefix b new pos l), λ _. refl)

  not_written :
      (c : ErrorCode) (r : SimDisk)
      → Keeps sim_view d r
      → HoldsBytes d p b
      → ¬ IsSoundDisk d
      → Writes sim_view d p b new pos (fail c, r)
  not_written c r k h n = ((b, Keeps-Alters d r p b k h, refl), n)

pwrite_found :
    (pos : ℕ) (new : List ℕ) (d : SimDisk) (p b : List ℕ) (f : File)
    → pos ≤ length b
    → pos + length new ≤ max_file_bytes
    → HoldsBytes d p b
    → find_path p d.files ≡ some f
    → f.visible ≡ b
    → Writes sim_view d p b new pos (pwrite_at new pos d (ok (p, f)))
unfolding write_file apply_bytes
pwrite_found pos [] d p b f l m h w v =
    if_intro (Writes sim_view d p b [] pos) (faulty d).0 _ _
      (λ e. not_written pos [] d p b l io_error _ (faulty-Keeps d) h (at_fault d e))
      (λ e. written pos [] d p b l _ (
        subst (Alters sim_view d (faulty d).1 p) (apply_bytes_lem b [] pos l)
          (Keeps-Alters d _ p b (faulty-Keeps d) h)))
pwrite_found pos (x ∷ new) d p b f l m h w v =
    if_intro (Writes sim_view d p b (x ∷ new) pos) (faulty d).0 _ _
      (λ e. not_written pos (x ∷ new) d p b l io_error _ (faulty-Keeps d) h (at_fault d e))
      (λ e.
        if_intro (Writes sim_view d p b (x ∷ new) pos)
          (ltb (add_u64 pos (suc (length new))) pos
            || ltb max_file_bytes (add_u64 pos (suc (length new))))
          _ _ (λ t. absurd (ground arith))
          (λ t. written pos (x ∷ new) d p b l _ (
            Keeps-then-Alters p _ (faulty-Keeps d) (
              change-Alters (faulty d).1 p _ (write_file (x ∷ new) pos) f w
                (ap (λ i. apply_bytes i pos (x ∷ new)) v ∙ apply_bytes_lem b (x ∷ new) pos l)
                (λ a.
                  change-AllSmall p (write_file (x ∷ new) pos) d.files f w
                    (omega (
                      arith,
                      ap length (
                          ap (λ i. apply_bytes i pos (x ∷ new)) v
                          ∙ apply_bytes_lem b (x ∷ new) pos l),
                      over-le b (x ∷ new) pos l,
                      stored_small p d.files a f w,
                      ap length v,
                    ))
                    a)))))

pub pwrite-Writes_lem :
    (id pos : ℕ) (new : List ℕ) (d : SimDisk) (p b : List ℕ)
    → IsOpen d id p
    → HoldsBytes d p b
    → pos ≤ length b
    → pos + length new ≤ max_file_bytes
    → Writes sim_view d p b new pos (pwrite id new pos d)
unfolding pwrite
pwrite-Writes_lem id pos new d p b o h l m = elim (resolved d id true p b o h) [
  | inl (f, q, w, v) ↦
      subst (λ x. Writes sim_view d p b new pos (pwrite_at new pos d x)) (sym q)
        (pwrite_found pos new d p b f l m h w v)
  | inr (e, q) ↦
      subst (λ x. Writes sim_view d p b new pos (pwrite_at new pos d x)) (sym q)
        (not_written pos new d p b l io_error d (Keeps-refl d) h (unpowered d e))
]
