-- ===== src/Io/SimFile/Crash.antt =====
-- src/io/sim/sim_disk.cpp: what a power cut leaves of a file.
use log_engine.Prelude.{
  ℕ, zero, suc, ◌+◌, ◌-◌, ◌<◌, ◌≡◌, refl, sym, ap, ◌∙◌, true, false, List, [], ◌∷◌, arith, ltb,
  if◌then◌else◌, if_intro, length, take,
}
use log_engine.Io.SimFile.{
  PendingWrite, File, DiskRandom, apply_bytes, apply_writes, sync_file, write_bytes, survival,
  crash_writes, crash_file,
}
use log_engine.Io.SimFile.Coherent.{IsCoherent, take_all, skip_empty}

-- The writes that survive: the first ones, the last of them perhaps cut short.
pub data Survives : List PendingWrite → List PendingWrite → Type 0 where
  none_of : (ws : List PendingWrite) → Survives ws []
  whole :
      (w : PendingWrite) {ws vs : List PendingWrite} → Survives ws vs → Survives (w ∷ ws) (w ∷ vs)
  torn :
      (w : PendingWrite) (ws : List PendingWrite) (n : ℕ)
      → Survives (w ∷ ws) (record w { bytes = take n w.bytes } ∷ [])

-- What is on the platter after the loop, and how much is counted as lost.
pub record Left (image : List ℕ) (ws : List PendingWrite) (after : List ℕ) (lost : ℕ) : Type 0 where
  pub survivors : List PendingWrite
  pub order : Survives ws survivors
  pub platter : after ≡ apply_writes image survivors
  pub account : lost + write_bytes survivors ≡ write_bytes ws

abbrev cut : ℕ → PendingWrite → PendingWrite
cut n w = record w { bytes = take n w.bytes }

-- One turn of the loop writes the part that survives.
abbrev stepped : List ℕ → PendingWrite → ℕ → List ℕ
stepped image w n = if ltb 0 n then apply_bytes image w.offset (take n w.bytes) else image

stepped_lem :
    (image : List ℕ) (w : PendingWrite) (n : ℕ)
    → stepped image w n ≡ apply_bytes image w.offset (take n w.bytes)
stepped_lem image w zero = sym (skip_empty image (cut 0 w) refl)
stepped_lem image w (suc n) =
    if_intro (λ i. i ≡ apply_bytes image w.offset (take (suc n) w.bytes)) (ltb 0 (suc n)) _ image
      (λ _. refl) (λ e. absurd (ground arith))

length-take_below : (n : ℕ) (q : List ℕ) → n < length q → length (take n q) ≡ n
length-take_below zero q h = refl
length-take_below (suc n) [] h = absurd (omega arith)
length-take_below (suc n) (b ∷ q) h = ap suc (length-take_below n q (omega arith))

stopped :
    (image : List ℕ) (w : PendingWrite) (ws : List PendingWrite) (n : ℕ)
    → ltb n (length w.bytes) ≡ true
    → Left image (w ∷ ws) (stepped image w n) (length w.bytes - n + write_bytes ws)
unfolding apply_writes
stopped image w ws n e = record {
  survivors = cut n w ∷ [];
  order = torn w ws n;
  platter = stepped_lem image w n;
  account = ground (arith, length-take_below n w.bytes);
}

carried_on :
    (image : List ℕ) (w : PendingWrite) (ws : List PendingWrite) (n : ℕ) (after : List ℕ) (lost : ℕ)
    → ltb n (length w.bytes) ≡ false
    → Left (stepped image w n) ws after lost
    → Left image (w ∷ ws) after (length w.bytes - n + lost)
unfolding apply_writes
carried_on image w ws n after lost e l = record {
  survivors = w ∷ l.survivors;
  order = whole w l.order;
  platter = l.platter ∙ ap (λ i. apply_writes i l.survivors) complete;
  account = ground (arith, l.account);
}
  where
    complete : stepped image w n ≡ apply_bytes image w.offset w.bytes
    complete =
        stepped_lem image w n ∙ ap (apply_bytes image w.offset) (take_all n w.bytes (ground arith))

crash_writes-Left :
    (image : List ℕ) (ws : List PendingWrite) (r : DiskRandom)
    → Left image ws (crash_writes image ws r).0 (crash_writes image ws r).1
unfolding crash_writes apply_writes
crash_writes-Left image [] r = record {
  survivors = [];
  order = none_of [];
  platter = refl;
  account = refl;
}
crash_writes-Left image (w ∷ ws) r =
    let n = (survival (length w.bytes) r).0 in
    let after = (survival (length w.bytes) r).1 in
    let rest = crash_writes (stepped image w n) ws after in
    if_intro (λ (t : List ℕ × ℕ × DiskRandom). Left image (w ∷ ws) t.0 t.1) (ltb n (length w.bytes))
      (stepped image w n, length w.bytes - n + write_bytes ws, after)
      (rest.0, length w.bytes - n + rest.1, rest.2) (λ e. stopped image w ws n e)
      (λ e.
        carried_on image w ws n rest.0 rest.1 e (crash_writes-Left (stepped image w n) ws after))

-- A power cut keeps what was durable and applies the pending writes in their order up to one that may
-- be cut short; nothing after that one survives, what is read then is what is on the platter, nothing
-- stays pending, and the bytes of the writes that did not survive are what is counted as lost.
pub crash_file-Left :
    (f : File) (r : DiskRandom)
    → Left f.durable f.pending (crash_file f r).0.durable (crash_file f r).1
      × ((crash_file f r).0.visible ≡ (crash_file f r).0.durable)
      × ((crash_file f r).0.pending ≡ [])
unfolding crash_file
crash_file-Left f r = (crash_writes-Left f.durable f.pending r, refl, refl)

-- What was synced survives every power cut.
pub synced_survives :
    (f : File) (r : DiskRandom) → IsCoherent f → (crash_file (sync_file f) r).0.visible ≡ f.visible
unfolding crash_file sync_file crash_writes
synced_survives f r c = c
