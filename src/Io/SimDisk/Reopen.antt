-- ===== src/Io/SimDisk/Reopen.antt =====
-- src/io/sim/sim_disk.cpp: a file that was synced, opened again after a power cut.
use log_engine.Prelude.{
  ℕ, ◌+◌, ◌^◌, ◌<◌, ◌≡◌, refl, ap, ◌∙◌, inl, inr, true, false, ◌||◌, some, List, arith, ltb,
  if_intro, length, is_empty, add_u64, lookup-assign,
}
use log_engine.Base.Error.{io_error, Result, ok, fail, Status}
use log_engine.Io.Disk.{mode_create}
use log_engine.Io.Paths.{normalize, has_path, find_path}
use log_engine.Io.SimDisk.{
  max_file_bytes, SimDisk, resolve, open_as, open_file, faulty, pwrite_at, pwrite, fsync_at, fsync,
  crash, power_on,
}
use log_engine.Io.SimDisk.AsDisk.{IsOpen, HoldsBytes, IsSoundDisk, resolved}
use log_engine.Io.SimDisk.Power.{fsync-then-crash}
use log_engine.Io.SimDisk.Sound.{IsSound}
use log_engine.Io.SimFile.{File}

-- The power is cut, and comes back.
abbrev pub after_power_cut : SimDisk → SimDisk
after_power_cut d = power_on (crash d)

pub fsync_frame :
    (id : ℕ) (d : SimDisk) → ((fsync id d).1.dirs ≡ d.dirs) × ((fsync id d).1.next_id ≡ d.next_id)
unfolding fsync
fsync_frame id d = framed (resolve id false d)
  where
    framed :
        (r : Result (List ℕ × File))
        → ((fsync_at d r).1.dirs ≡ d.dirs) × ((fsync_at d r).1.next_id ≡ d.next_id)
    framed (fail c) = (refl, refl)
    framed (ok (p, f)) =
        if_intro (λ (x : Status × SimDisk). (x.1.dirs ≡ d.dirs) × (x.1.next_id ≡ d.next_id))
          (faulty d).0 _ _ (λ _. (refl, refl)) (λ _. (refl, refl))

pub unsynced :
    (id : ℕ) (d : SimDisk) → resolve id false d ≡ fail io_error → (fsync id d).0 ≡ ok tt → ⊥
unfolding fsync
unsynced id d r e = ground (arith, ap (λ x. (fsync_at d x).0) r, e)

pub pwrite_frame :
    (id pos : ℕ) (bytes : List ℕ) (d : SimDisk)
    → ((pwrite id bytes pos d).1.dirs ≡ d.dirs) × ((pwrite id bytes pos d).1.next_id ≡ d.next_id)
unfolding pwrite
pwrite_frame id pos bytes d = framed (resolve id true d)
  where
    Framed : Result ℕ × SimDisk → Type 0
    Framed x = (x.1.dirs ≡ d.dirs) × (x.1.next_id ≡ d.next_id)

    framed : (r : Result (List ℕ × File)) → Framed (pwrite_at bytes pos d r)
    framed (fail c) = (refl, refl)
    framed (ok (p, f)) =
        if_intro Framed (faulty d).0 _ _ (λ _. (refl, refl))
          (λ _.
            if_intro Framed (is_empty bytes) _ _ (λ _. (refl, refl))
              (λ _.
                if_intro Framed
                  (ltb (add_u64 pos (length bytes)) pos
                    || ltb max_file_bytes (add_u64 pos (length bytes)))
                  _ _ (λ _. (refl, refl)) (λ _. (refl, refl))))

pub power_cut_frame :
    (d : SimDisk) → ((after_power_cut d).dirs ≡ d.dirs) × ((after_power_cut d).next_id ≡ d.next_id)
unfolding crash power_on
power_cut_frame d = (refl, refl)

pub power_cut_powered : (d : SimDisk) → (after_power_cut d).powered ≡ true
unfolding power_on
power_cut_powered d = refl

pub power_cut_files : (d : SimDisk) → (after_power_cut d).files ≡ (crash d).files
unfolding power_on
power_cut_files d = refl

-- A file that is there is opened.
pub reopen_lem :
    (c : SimDisk) (path : List ℕ) (f : File)
    → c.powered ≡ true
    → has_path (normalize path) c.dirs ≡ false
    → find_path (normalize path) c.files ≡ some f
    → open_file path mode_create c ≡ open_as (normalize path) mode_create c
unfolding open_file
reopen_lem c path f w n h = rw (w, n, h) refl

pub open_as-IsOpen :
    (c : SimDisk) (p : List ℕ)
    → c.next_id + 1 < 2 ^ 64
    → IsOpen (open_as p mode_create c).1 c.next_id p
open_as-IsOpen c p l = record {
  handle = record { path = p; mode = mode_create };
  opened = lookup-assign c.next_id c.next_id _ c.open_files ∙ ground arith;
  place = refl;
  writes = refl;
  numbered = omega arith;
}

-- The disk on which the file is opened again has its bytes.
pub record IsBack (c : SimDisk) (path : List ℕ) (b : List ℕ) : Type 0 where
  pub opened : open_file path mode_create c ≡ open_as (normalize path) mode_create c
  pub handle : IsOpen (open_as (normalize path) mode_create c).1 c.next_id (normalize path)
  pub bytes : HoldsBytes (open_as (normalize path) mode_create c).1 (normalize path) b
  pub sound : IsSoundDisk c → IsSoundDisk (open_as (normalize path) mode_create c).1
  pub room : c.next_id + 2 < 2 ^ 64

-- A file whose fsync was reported as done is back after a power cut.
pub fsync-IsBack :
    (d : SimDisk) (id : ℕ) (path b : List ℕ)
    → IsSound d
    → IsOpen d id (normalize path)
    → HoldsBytes d (normalize path) b
    → has_path (normalize path) d.dirs ≡ false
    → d.next_id + 2 < 2 ^ 64
    → (fsync id d).0 ≡ ok tt
    → IsBack (after_power_cut (fsync id d).1) path b
fsync-IsBack d id path b sound o h n room e = elim (resolved d id false (normalize path) b o h) [
  | inl (f, r, _, q) ↦
      let (k, found, w) = fsync-then-crash id d (normalize path) f sound r e in
      let c = after_power_cut (fsync id d).1 in
      let there : find_path (normalize path) c.files ≡ some k =
        ap (find_path (normalize path)) (power_cut_files (fsync id d).1) ∙ found in
      let id_kept = (power_cut_frame (fsync id d).1).1 ∙ (fsync_frame id d).1 in
      record {
        opened =
            reopen_lem c path k (power_cut_powered (fsync id d).1)
              (ap (has_path (normalize path))
                  ((power_cut_frame (fsync id d).1).0 ∙ (fsync_frame id d).0)
                ∙ n)
              there;
        handle = open_as-IsOpen c (normalize path) (omega (arith, id_kept));
        bytes = record { file = k; found = there; reads = w ∙ q };
        sound = λ s. record { powered = s.powered; faultless = s.faultless; small = s.small };
        room = omega (arith, id_kept);
      }
  | inr (_, r) ↦ absurd (unsynced id d r e)
]
