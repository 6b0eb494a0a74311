-- ===== src/Storage/Segment/Walk.antt =====
-- src/storage/segment.cpp: a turn of the walks over the headers of a segment. What is read where a
-- batch ends is the header of the next one.
use log_engine.Prelude.{
  ℕ, ◌+◌, ◌≤◌, ◌<◌, ◌≡◌, refl, sym, subst, Option, some, List, arith, le→not-ltb, length, take,
  drop, IsU32, to_u32, add_u32,
}
use log_engine.Base.Error.{ErrorCode, Result, fail}
use log_engine.Io.Disk.{Disk, Run, carry_on}
use log_engine.Io.Disk.Laws.{View, Keeps, IsDisk}
use log_engine.Io.Disk.Rules.{pread_rule}
use log_engine.Storage.Batches.{BatchAt, Batches}
use log_engine.Storage.Batches.Header.{decode_header_bounds}
use log_engine.Storage.Batches.Longest.{Batches-next}
use log_engine.Storage.RecordBatch.{batch_header_bytes, BatchHeader, total_bytes}
use log_engine.Storage.Segment.{Segment, header_in}

pub header_in_at :
    {b : List ℕ} {pos expect : ℕ} (h : BatchHeader)
    → BatchAt b pos expect h
    → header_in (take batch_header_bytes (drop pos b)) ≡ some h
unfolding header_in
header_in_at {b} {pos} h a =
    let t = decode_header_bounds _ h a.decodes in
    rw
      (le→not-ltb (length (take batch_header_bytes (drop pos b))) batch_header_bytes t.2, a.decodes)
      refl

-- The position behind a batch, which is in the segment.
pub behind_lem :
    (pos size : ℕ) (h : BatchHeader)
    → pos + total_bytes h ≤ size
    → IsU32 size
    → add_u32 pos (to_u32 (total_bytes h)) ≡ pos + total_bytes h
behind_lem pos size h w u = omega arith

module _ {D : Disk} {V : View D} (L : IsDisk V) (g : Segment) (p b : List ℕ) where
  pub turn_rule :
      {B : Type 0} (P : Result B × D.State → Type 0) (s : D.State) (pos expect : ℕ)
      (k : Option BatchHeader → Run D.State B)
      → V.Opens s g.log_file p
      → V.Stores s p b
      → Batches b g.base_offset g.size_bytes g.next_offset
      → Batches b g.base_offset pos expect
      → pos < g.size_bytes
      → ((h : BatchHeader) (r : D.State)
          → Keeps V s r
          → BatchAt b pos expect h
          → pos + total_bytes h ≤ g.size_bytes
          → P (k (some h) r))
      → ((c : ErrorCode) (r : D.State) → Keeps V s r → ¬ V.IsHealthy s → P (fail c, r))
      → P (carry_on (D.pread g.log_file batch_header_bytes pos s) (λ got. k (header_in got)))
  turn_rule P s pos expect k o t all c l f e =
      let (h, a, w) = Batches-next c all l in
      pread_rule L P g.log_file batch_header_bytes pos s p b (λ got. k (header_in got)) o t
        (λ r q. subst (λ x. P (k x r)) (sym (header_in_at h a)) (f h r q a w)) e
