-- ===== src/Io/SimDisk/Rot.antt =====
-- src/io/sim/sim_disk.cpp: SimDisk::corrupt_random_byte, one bit that flips on the platter.
use log_engine.Prelude.{
  ℕ, ◌%◌, ◌^◌, Bool, true, false, ◌&&◌, Option, none, some, List, [], ◌∷◌, ltb, ◌==◌, if◌then◌else◌,
  length, is_empty, get_or, write_at,
}
use Prim.Native.Nat.{bit_xor}
use log_engine.Base.Crc32c.Bitwise.{mask}
use log_engine.Io.Paths.{find_path, change_path}
use log_engine.Io.SimDisk.{SimDisk}
use log_engine.Io.SimFile.{File, DiskRandom, next_draw}

-- Only files with something on the platter can rot. The files are named by their paths, in their order.
unfoldable pub rot_candidates : List (List ℕ × File) → List (List ℕ)
rot_candidates [] = []
rot_candidates ((p, f) ∷ fs) =
    let rest = rot_candidates fs in if is_empty f.durable then rest else p ∷ rest

-- A reader sees the flip where he read that byte from the platter.
unfoldable pub rot_byte : ℕ → ℕ → File → File
rot_byte index mask f =
    let before = get_or f.durable index 0 in
    let after = bit_xor before mask in
    record f {
      durable = write_at f.durable index (after ∷ []);
      visible =
          if ltb index (length f.visible) && get_or f.visible index 0 == before
          then write_at f.visible index (after ∷ [])
          else f.visible;
    }

-- The two draws in the file, of a byte and of a bit.
abbrev pub rot_file : List ℕ → DiskRandom → Option File → SimDisk → SimDisk
rot_file p r none d = record d { rng = r }
rot_file p r (some f) d =
    let (index, r1) = next_draw r (length f.durable) in
    let (bit, r2) = next_draw r1 8 in
    record d { files = change_path p (rot_byte index (2 ^ bit % 256)) d.files; rng = r2 }

unfoldable pub corrupt_random_byte : SimDisk → Bool × SimDisk
unfolding rot_candidates rot_byte
corrupt_random_byte d =
    let paths = rot_candidates d.files in
    if is_empty paths
    then (false, d)
    else (let (i, r) = next_draw d.rng (length paths) in
        let p = get_or paths i [] in (true, rot_file p r (find_path p d.files) d))
