-- ===== src/Storage/Segment/Durable.antt =====
-- src/storage/segment.h over src/io/sim/sim_disk.h: a segment that is synced and opened again after a
-- power cut.
use log_engine.Prelude.{
  ℕ, ◌+◌, ◌^◌, ◌≤◌, ◌<◌, ◌≡◌, sym, ap, subst, ◌∙◌, inl, inr, false, List, arith, length, take, All,
  IsU32,
}
use log_engine.Base.Error.{Result, ok, fail}
use log_engine.Io.Disk.{mode_create, carry_on, ◌>>=◌, attempt}
use log_engine.Io.Paths.{normalize, has_path}
use log_engine.Io.SimDisk.{SimDisk, open_as, open_file, fsync}
use log_engine.Io.SimDisk.AsDisk.{sim_disk, HoldsBytes, IsSoundDisk, sim_view}
use log_engine.Io.SimDisk.Lawful.{sim_disk-IsDisk}
use log_engine.Io.SimDisk.Reopen.{after_power_cut, IsBack, fsync-IsBack}
use log_engine.Io.SimDisk.Sound.{IsSound}
use log_engine.Storage.Batches.{Batches, Ends}
use log_engine.Storage.Batches.Longest.{Batches-longest}
use log_engine.Storage.FileNames.{log_name, index_name, join}
use log_engine.Storage.Segment.{Segment, sync_segment}
use log_engine.Storage.Segment.Recover.{new_segment, read_index, recover, or_close, open_segment}
use log_engine.Storage.Segment.Recover.Choose.{IsTrusted}
use log_engine.Storage.Segment.Recover.Whole.{Recovers, recover-Recovers}
use log_engine.Storage.Segment.Valid.{IsSegment}
use log_engine.Storage.SparseIndex.{IndexEntry, back}

-- Where the log file of a segment is on the simulated disk.
abbrev pub log_place : List ℕ → ℕ → List ℕ
log_place dir base = normalize (join dir (log_name base))

-- The disk once the log file is opened.
abbrev pub opened_on : List ℕ → ℕ → SimDisk → SimDisk
opened_on dir base c = (open_file (join dir (log_name base)) mode_create c).1

-- What the segment holds that is opened again.
pub record Reopened (p b : List ℕ) (base size : ℕ) (r : SimDisk) (g' : Segment) : Type 0 where
  pub batches : Batches b base g'.size_bytes g'.next_offset
  pub ends : Ends b g'.size_bytes g'.next_offset
  pub nothing_lost : size ≤ g'.size_bytes
  pub stored : HoldsBytes r p (take g'.size_bytes b)

abbrev pub Reopens : List ℕ → List ℕ → ℕ → ℕ → SimDisk → Result Segment × SimDisk → Type 0
Reopens p b base size c (ok g', r) = Reopened p b base size r g'
Reopens p b base size c (fail e, r) = ¬ IsSoundDisk c

module _ (dir : List ℕ) (base max_bytes interval : ℕ) (b : List ℕ) (c : SimDisk) where
  -- The index file names no place but one where a batch begins, or where no header has its offset.
  abbrev pub IndexIsTrusted : Type 0
  IndexIsTrusted =
      (es : List IndexEntry)
      → (read_index sim_disk (join dir (index_name base)) (length b) (opened_on dir base c)).0
        ≡ ok es
      → All (IsTrusted b base) es

  recover_opened :
      (size expect : ℕ)
      → Batches b base size expect
      → length b ≤ max_bytes
      → IsU32 max_bytes
      → IsBack c (join dir (log_name base)) b
      → IndexIsTrusted
      → Reopens
          (log_place dir base)
          b
          base
          size
          c
          (open_segment sim_disk dir base max_bytes interval c)
  unfolding open_segment
  recover_opened size expect all small u back trusted =
      subst
        (λ x. Reopens (log_place dir base) b base size c (
          carry_on x (λ file.
            attempt (recover sim_disk (new_segment dir base max_bytes interval file))
            >>= or_close sim_disk file)))
        (sym back.opened)
        (closed _ (
          recover-Recovers sim_disk-IsDisk (new_segment dir base max_bytes interval c.next_id)
            (log_place dir base) b (open_as (log_place dir base) mode_create c).1 u
            (omega (arith, back.room)) back.handle back.bytes
            (λ es e. trusted es (
              ap (λ x. (read_index sim_disk (join dir (index_name base)) (length b) x.1).0)
                back.opened
              ∙ e))))
    where
      closed :
          (x : Result Segment × SimDisk)
          → Recovers sim_disk-IsDisk
              (new_segment dir base max_bytes interval c.next_id)
              (log_place dir base)
              b
              (open_as (log_place dir base) mode_create c).1
              x
          → Reopens
              (log_place dir base)
              b
              base
              size
              c
              (carry_on (ok x.0, x.1) (or_close sim_disk c.next_id))
      closed (ok g', r) w = record {
        batches = w.0.batches;
        ends = w.0.ends;
        nothing_lost = Batches-longest all w.0.batches w.0.ends;
        stored = w.1.stores;
      }
      closed (fail e, r) (k, inl n) = λ s. n (back.sound s)
      closed (fail e, r) (k, inr l) = absurd (omega arith)

-- A segment whose fsync was reported as done loses nothing in a power cut: when its file is opened
-- again, all its batches are recovered, unless the disk fails. The index file names no place that
-- the log does not bear out.
pub synced-Reopens :
    (d : SimDisk) (g : Segment) (b dir : List ℕ) (interval : ℕ)
    → IsSegment sim_view d g (log_place dir g.base_offset) b
    → IsSound d
    → length b ≤ g.max_bytes
    → d.next_id + 2 < 2 ^ 64
    → has_path (log_place dir g.base_offset) d.dirs ≡ false
    → (sync_segment sim_disk g d).0 ≡ ok tt
    → IndexIsTrusted dir g.base_offset g.max_bytes interval b
        (after_power_cut (sync_segment sim_disk g d).1)
    → Reopens
        (log_place dir g.base_offset)
        b
        g.base_offset
        g.size_bytes
        (after_power_cut (sync_segment sim_disk g d).1)
        (open_segment sim_disk dir g.base_offset g.max_bytes interval
          (after_power_cut (sync_segment sim_disk g d).1))
unfolding sync_segment
synced-Reopens d g b dir interval v sound small room n e trusted =
    recover_opened dir g.base_offset g.max_bytes interval b (after_power_cut (fsync g.log_file d).1)
      g.size_bytes g.next_offset v.batches small v.small
      (fsync-IsBack d g.log_file (join dir (log_name g.base_offset)) b sound v.opened v.stored n
        room e)
      trusted
