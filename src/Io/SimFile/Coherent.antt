-- ===== src/Io/SimFile/Coherent.antt =====
-- src/io/sim/sim_disk.cpp: the durable image and the pending writes make the visible one.
use log_engine.Prelude.{
  ℕ, zero, suc, ◌-◌, ◌≤◌, ◌≡◌, refl, sym, ap, ◌∙◌, true, List, [], ◌∷◌, ◌++◌, arith, ltb, leb,
  if_intro, length, is_empty, take,
}
use mathlib.Core.Path.{ap₂}
use log_engine.Io.SimFile.{
  PendingWrite, File, DiskRandom, resize, apply_bytes, apply_writes, write_file, sync_file, clip,
  clip_writes, truncate_file, crash_file,
}
use log_engine.Io.SimFile.Images.{resize-apply_bytes}

abbrev pub IsCoherent : File → Type 0
IsCoherent f = apply_writes f.durable f.pending ≡ f.visible

apply_writes-snoc :
    (image : List ℕ) (ws : List PendingWrite) (w : PendingWrite)
    → apply_writes image (ws ++ (w ∷ [])) ≡ apply_bytes (apply_writes image ws) w.offset w.bytes
unfolding apply_writes
apply_writes-snoc image [] w = refl
apply_writes-snoc image (v ∷ ws) w = apply_writes-snoc (apply_bytes image v.offset v.bytes) ws w

write_file-IsCoherent :
    (bytes : List ℕ) (offset : ℕ) (f : File) → IsCoherent f → IsCoherent (write_file bytes offset f)
unfolding write_file
write_file-IsCoherent bytes offset f c =
    apply_writes-snoc f.durable f.pending (record { offset = offset; bytes = bytes })
    ∙ ap (λ i. apply_bytes i offset bytes) c

sync_file-IsCoherent : (f : File) → IsCoherent f → IsCoherent (sync_file f)
unfolding sync_file apply_writes
sync_file-IsCoherent f c = c

pub take_all : (n : ℕ) (q : List ℕ) → length q ≤ n → take n q ≡ q
take_all zero [] h = refl
take_all zero (b ∷ q) h = absurd (omega arith)
take_all (suc n) [] h = refl
take_all (suc n) (b ∷ q) h = ap (λ t. b ∷ t) (take_all n q (omega arith))

clip-offset : (n : ℕ) (w : PendingWrite) → (clip n w).offset ≡ w.offset
clip-offset n w = ground arith

-- What is left of a write is what lies below the new end.
clip-bytes : (n : ℕ) (w : PendingWrite) → (clip n w).bytes ≡ take (n - w.offset) w.bytes
clip-bytes n w =
    if_intro (λ v. v.bytes ≡ take (n - w.offset) w.bytes) (leb n w.offset) (record w { bytes = [] })
      _ (λ e. ap (λ k. take k w.bytes) (sym (nothing e)))
      λ e.
        if_intro (λ v. v.bytes ≡ take (n - w.offset) w.bytes) (ltb (n - w.offset) (length w.bytes))
          (record w { bytes = take (n - w.offset) w.bytes }) w (λ _. refl)
          (λ s. sym (take_all (n - w.offset) w.bytes (ground arith)))
  where
    nothing : leb n w.offset ≡ true → n - w.offset ≡ 0
    nothing e = ground arith

resize-apply :
    (n : ℕ) (image : List ℕ) (w : PendingWrite)
    → resize n (apply_bytes image w.offset w.bytes)
      ≡ apply_bytes (resize n image) (clip n w).offset (clip n w).bytes
resize-apply n image w =
    resize-apply_bytes n image w.offset w.bytes
    ∙ ap₂ (apply_bytes (resize n image)) (sym (clip-offset n w)) (sym (clip-bytes n w))

pub skip_empty :
    (image : List ℕ) (w : PendingWrite)
    → is_empty w.bytes ≡ true
    → apply_bytes image w.offset w.bytes ≡ image
unfolding apply_bytes
skip_empty image w e = empty w.bytes e
  where
    empty : (q : List ℕ) → is_empty q ≡ true → apply_bytes image w.offset q ≡ image
    empty [] e = refl
    empty (b ∷ q) e = absurd (ground arith)

clip_writes_lem :
    (n : ℕ) (image : List ℕ) (ws : List PendingWrite)
    → apply_writes (resize n image) (clip_writes n ws) ≡ resize n (apply_writes image ws)
unfolding apply_writes clip_writes
clip_writes_lem n image [] = refl
clip_writes_lem n image (w ∷ ws) =
    if_intro (λ vs. apply_writes (resize n image) vs ≡ resize n (apply_writes image (w ∷ ws)))
      (is_empty (clip n w).bytes) (clip_writes n ws) (clip n w ∷ clip_writes n ws)
      (λ e.
        ap (λ i. apply_writes i (clip_writes n ws))
          (sym (skip_empty (resize n image) (clip n w) e) ∙ sym (resize-apply n image w))
        ∙ clip_writes_lem n (apply_bytes image w.offset w.bytes) ws)
      (λ _.
        ap (λ i. apply_writes i (clip_writes n ws)) (sym (resize-apply n image w))
        ∙ clip_writes_lem n (apply_bytes image w.offset w.bytes) ws)

truncate_file-IsCoherent : (n : ℕ) (f : File) → IsCoherent f → IsCoherent (truncate_file n f)
unfolding truncate_file
truncate_file-IsCoherent n f c = clip_writes_lem n f.durable f.pending ∙ ap (resize n) c

crash_file-IsCoherent : (f : File) (r : DiskRandom) → IsCoherent (crash_file f r).0
unfolding crash_file apply_writes
crash_file-IsCoherent f r = refl

-- Every operation keeps the durable image and the pending writes together equal to what is read:
-- writing, syncing, truncating and losing power.
pub file-IsCoherent :
    (f : File)
    → IsCoherent f
    → ((bytes : List ℕ) (offset : ℕ) → IsCoherent (write_file bytes offset f))
      × IsCoherent (sync_file f)
      × ((n : ℕ) → IsCoherent (truncate_file n f))
      × ((r : DiskRandom) → IsCoherent (crash_file f r).0)
file-IsCoherent f c = (
  λ bytes offset. write_file-IsCoherent bytes offset f c,
  sync_file-IsCoherent f c,
  λ n. truncate_file-IsCoherent n f c,
  λ r. crash_file-IsCoherent f r,
)

-- After a sync the platter holds what is read.
pub sync_file-durable : (f : File) → IsCoherent f → (sync_file f).durable ≡ f.visible
unfolding sync_file
sync_file-durable f c = c
