-- ===== src/Io/SimFile.antt =====
-- src/io/sim/sim_disk.h and src/io/sim/sim_disk.cpp: one file of the simulated disk, which has a
-- durable and a visible image and the writes between them.
pub mod Images
pub mod Patch
pub mod Coherent
pub mod Crash
use log_engine.Prelude.{
  ℕ, zero, suc, ◌+◌, ◌-◌, min, Bool, ◌&&◌, List, [], ◌∷◌, ◌++◌, ltb, leb, ◌==◌, if◌then◌else◌,
  length, is_empty, take, drop, write_at,
}

pub record PendingWrite : Type 0 where
  pub offset : ℕ
  pub bytes : List ℕ

pub record File : Type 0 where
  pub durable : List ℕ
  pub visible : List ℕ
  pub pending : List PendingWrite

abbrev pub empty_file : File
empty_file = record { durable = []; visible = []; pending = [] }

-- The chances of `DiskFaultConfig`, by name; the probabilities are not modelled.
pub data Chance : Type 0 where
  error_chance keep_chance torn_chance : Chance

-- `io::Random` as the disk draws from it: the answers to the call number `i`.
pub record DiskRandom : Type 0 where
  pub flip : ℕ → Chance → Bool
  pub draw : ℕ → ℕ → ℕ
  pub position : ℕ

abbrev pub next_flip : DiskRandom → Chance → Bool × DiskRandom
next_flip r c = (r.flip r.position c, record r { position = r.position + 1 })

abbrev pub next_draw : DiskRandom → ℕ → ℕ × DiskRandom
next_draw r bound = (r.draw r.position bound, record r { position = r.position + 1 })

-- `image.resize(n, 0)`
unfoldable pub resize : ℕ → List ℕ → List ℕ
resize zero image = []
resize (suc n) [] = 0 ∷ resize n []
resize (suc n) (b ∷ image) = b ∷ resize n image

unfoldable pub apply_bytes : List ℕ → ℕ → List ℕ → List ℕ
apply_bytes image offset bytes =
    if length bytes == 0
    then image
    else (let end = offset + length bytes in
        write_at (if ltb (length image) end then resize end image else image) offset bytes)

-- The replay of the pending list.
unfoldable pub apply_writes : List ℕ → List PendingWrite → List ℕ
apply_writes image [] = image
apply_writes image (w ∷ ws) = apply_writes (apply_bytes image w.offset w.bytes) ws

unfoldable pub write_file : List ℕ → ℕ → File → File
write_file bytes offset f = record f {
  visible = apply_bytes f.visible offset bytes;
  pending = f.pending ++ (record { offset = offset; bytes = bytes } ∷ []);
}

unfoldable pub sync_file : File → File
sync_file f = record f { durable = apply_writes f.durable f.pending; pending = [] }

-- What is left of a pending write inside `size` bytes.
abbrev pub clip : ℕ → PendingWrite → PendingWrite
clip size w =
    if leb size w.offset
    then record w { bytes = [] }
    else if ltb (size - w.offset) (length w.bytes)
    then record w { bytes = take (size - w.offset) w.bytes }
    else w

-- The clipped writes, the empty ones removed.
unfoldable pub clip_writes : ℕ → List PendingWrite → List PendingWrite
clip_writes size [] = []
clip_writes size (w ∷ ws) =
    if is_empty (clip size w).bytes then clip_writes size ws else clip size w ∷ clip_writes size ws

unfoldable pub truncate_file : ℕ → File → File
truncate_file size f = record {
  durable = resize size f.durable;
  visible = resize size f.visible;
  pending = clip_writes size f.pending;
}

abbrev pub write_bytes : List PendingWrite → ℕ
write_bytes [] = 0
write_bytes (w ∷ ws) = length w.bytes + write_bytes ws

-- How much of a write survives: all, a proper prefix, or nothing.
unfoldable pub survival : ℕ → DiskRandom → ℕ × DiskRandom
survival total r =
    let (keep, r1) = next_flip r keep_chance in
    if keep
    then (total, r1)
    else (let (tear, r2) = next_flip r1 torn_chance in
        if tear && ltb 1 total
        then (1 + (next_draw r2 (total - 1)).0, (next_draw r2 (total - 1)).1)
        else (0, r2))

-- The loop over the pending writes: the image, the bytes lost, and the generator.
unfoldable pub crash_writes : List ℕ → List PendingWrite → DiskRandom → List ℕ × ℕ × DiskRandom
crash_writes image [] r = (image, 0, r)
crash_writes image (w ∷ ws) r =
    let applied = (survival (length w.bytes) r).0 in
    let after = (survival (length w.bytes) r).1 in
    let next = if ltb 0 applied then apply_bytes image w.offset (take applied w.bytes) else image in
    let rest = crash_writes next ws after in
    if ltb applied (length w.bytes)
    then (next, length w.bytes - applied + write_bytes ws, after)
    else (rest.0, length w.bytes - applied + rest.1, rest.2)

unfoldable pub crash_file : File → DiskRandom → File × ℕ × DiskRandom
crash_file f r =
    let (image, lost, after) = crash_writes f.durable f.pending r in
    (record { durable = image; visible = image; pending = [] }, lost, after)

-- The bytes that a read of `count` bytes copies out; a read past the end copies none.
unfoldable pub read_file : ℕ → ℕ → File → List ℕ
read_file count offset f =
    if leb (length f.visible) offset
    then []
    else take (min count (length f.visible - offset)) (drop offset f.visible)
