-- ===== src/Io/Tests.antt =====
-- A disk with one file, half of it synced.
use log_engine.Prelude.{ℕ, ◌≡◌, refl, false, some, List, [], ◌∷◌, map, arith, lookup}
use log_engine.Base.Error.{not_found, ok, fail}
use log_engine.Io.Disk.{mode_create}
use log_engine.Io.Paths.{same_path, find_path}
use log_engine.Io.SimDisk.{SimDisk, new_disk, resolve, fsync, crash, power_on}
use log_engine.Io.SimDisk.Calls.{
  Call, open_call, close_call, fsync_call, size_call, make_call, list_call, perform_all, refusal,
}
use log_engine.Io.SimDisk.Power.{fsync-then-crash}
use log_engine.Io.SimDisk.Rot.{rot_byte}
use log_engine.Io.SimDisk.Sound.{IsSound, KeepsSound, disk-KeepsSound}
use log_engine.Io.SimDisk.Stale.{power_cut_refuses}
use log_engine.Io.SimFile.{File, DiskRandom, resize, apply_bytes, apply_writes, crash_file}
use log_engine.Io.SimFile.Coherent.{IsCoherent}
use log_engine.Io.SimFile.Crash.{Left, crash_file-Left}

abbrev coin : DiskRandom
coin = record { flip = λ i c. false; draw = λ i b. 0; position = 0 }

abbrev half_synced : File
half_synced = record {
  durable = 1 ∷ 2 ∷ [];
  visible = 1 ∷ 2 ∷ 3 ∷ 4 ∷ [];
  pending = record { offset = 2; bytes = 3 ∷ 4 ∷ [] } ∷ [];
}

half_synced-IsCoherent : IsCoherent half_synced
unfolding apply_writes apply_bytes resize
half_synced-IsCoherent = refl

crash_file-Left_example :
    Left half_synced.durable half_synced.pending
      (crash_file half_synced coin).0.durable
      (crash_file half_synced coin).1
    × ((crash_file half_synced coin).0.visible ≡ (crash_file half_synced coin).0.durable)
    × ((crash_file half_synced coin).0.pending ≡ [])
crash_file-Left_example = crash_file-Left half_synced coin

abbrev name : List ℕ
name = 97 ∷ []

abbrev disk : SimDisk
disk = record (new_disk coin) {
  files = (name, half_synced) ∷ [];
  open_files = (0, record { path = name; mode = mode_create }) ∷ [];
  next_id = 1;
}

disk-IsSound : IsSound disk
disk-IsSound = (half_synced-IsCoherent, tt)

disk-KeepsSound_example : KeepsSound disk
disk-KeepsSound_example = disk-KeepsSound disk disk-IsSound

named : resolve 0 false disk ≡ ok (name, half_synced)
unfolding resolve lookup find_path same_path
named = refl

synced : (fsync 0 disk).0 ≡ ok tt
unfolding fsync resolve lookup find_path same_path
synced = refl

fsync-then-crash_example :
    (g : File) × (find_path name (crash (fsync 0 disk).1).files ≡ some g)
    × (g.visible ≡ half_synced.visible)
fsync-then-crash_example = fsync-then-crash 0 disk name half_synced disk-IsSound named synced

-- What a dying process tries, and what the next one does.
abbrev last_calls : List Call
last_calls = fsync_call 0 ∷ list_call [] ∷ size_call 0 ∷ close_call 0 ∷ []

abbrev first_calls : List Call
first_calls = open_call name mode_create ∷ make_call (98 ∷ []) ∷ []

power_cut_refuses_example :
    (perform_all last_calls (crash disk) ≡ (map refusal last_calls, crash disk))
    × (resolve 0 false
          (perform_all first_calls (power_on (perform_all last_calls (crash disk)).1)).1
        ≡ fail not_found)
power_cut_refuses_example =
    power_cut_refuses disk last_calls first_calls 0 false (omega arith) (omega arith)

-- A byte that a pending write has over again: the flip is shown, though a reader is to see the pending
-- write.
abbrev written_twice : File
written_twice = record {
  durable = 1 ∷ [];
  visible = 1 ∷ [];
  pending = record { offset = 0; bytes = 1 ∷ [] } ∷ [];
}

written_twice-IsCoherent : IsCoherent written_twice
unfolding apply_writes apply_bytes resize
written_twice-IsCoherent = refl

rot_is_shown : (rot_byte 0 2 written_twice).visible ≡ 3 ∷ []
unfolding rot_byte
rot_is_shown = refl

rot_is_covered :
    apply_writes (rot_byte 0 2 written_twice).durable (rot_byte 0 2 written_twice).pending ≡ 1 ∷ []
unfolding rot_byte apply_writes apply_bytes resize
rot_is_covered = refl
