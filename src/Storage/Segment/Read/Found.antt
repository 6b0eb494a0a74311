-- ===== src/Storage/Segment/Read/Found.antt =====
-- src/storage/segment.cpp: the walk of Segment::read finds the batch that contains the wanted offset.
use log_engine.Storage.RecordBatch.{next_offset as offset_after}
use log_engine.Prelude.{
  ℕ, zero, suc, ◌+◌, ◌≤◌, ◌<◌, ◌≡◌, refl, subst, not, List, arith, ltb, if_intro, IsU32,
}
use log_engine.Base.Error.{Result, ok, fail}
use log_engine.Io.Disk.{Disk, Run}
use log_engine.Io.Disk.Laws.{View, Keeps, IsDisk}
use log_engine.Io.Disk.Rules.{Keeps-trans}
use log_engine.Storage.Batches.{BatchAt, Batches, one_more}
use log_engine.Storage.Batches.Header.{decode_header_bounds}
use log_engine.Storage.Batches.Longest.{Batches-offset}
use log_engine.Storage.RecordBatch.{BatchHeader, total_bytes}
use log_engine.Storage.Segment.{Segment}
use log_engine.Storage.Segment.Read.{find_turn, find_batch}
use log_engine.Storage.Segment.Walk.{behind_lem, turn_rule}

-- The batch that contains the offset.
pub record Containing (b : List ℕ) (base size want pos total : ℕ) : Type 0 where
  pub expect : ℕ
  pub header : BatchHeader
  pub before : Batches b base pos expect
  pub here : BatchAt b pos expect header
  pub reached : expect ≤ want
  pub contains : want < offset_after header
  pub length_is : total ≡ total_bytes header
  pub inside : pos + total ≤ size

module _ {D : Disk} {V : View D} (L : IsDisk V) (g : Segment) (p b : List ℕ) (want : ℕ) where
  abbrev pub Locates : D.State → Result (ℕ × ℕ) × D.State → Type 0
  Locates s (ok (pos, total), r) =
      Keeps V s r × Containing b g.base_offset g.size_bytes want pos total
  Locates s (fail c, r) = Keeps V s r × (¬ V.IsHealthy s)

  Locates-from :
      (s r : D.State) (x : Result (ℕ × ℕ) × D.State) → Keeps V s r → Locates r x → Locates s x
  Locates-from s r (ok n, t) k h = (Keeps-trans k h.0, h.1)
  Locates-from s r (fail c, t) k h = (Keeps-trans k h.0, λ w. h.1 (k.health w))

  -- The offset is before the end of the segment, so the walk finds its batch before it ends.
  pub find_batch-Locates :
      (turns pos expect : ℕ) (s : D.State)
      → IsU32 g.size_bytes
      → want < g.next_offset
      → V.Opens s g.log_file p
      → V.Stores s p b
      → Batches b g.base_offset g.size_bytes g.next_offset
      → Batches b g.base_offset pos expect
      → pos ≤ g.size_bytes
      → expect ≤ want
      → g.size_bytes ≤ pos + turns
      → Locates s (find_batch D g want turns pos s)
  unfolding find_batch find_turn
  find_batch-Locates zero pos expect s u high o t all c i e l =
      absurd (at_end pos expect c all (omega arith) e high)
    where
      at_end :
          (pos expect : ℕ)
          → Batches b g.base_offset pos expect
          → Batches b g.base_offset g.size_bytes g.next_offset
          → pos ≡ g.size_bytes
          → expect ≤ want
          → want < g.next_offset
          → ⊥
      at_end pos expect c all q e high =
          let w = Batches-offset (subst (λ x. Batches b g.base_offset x expect) q c) all in
          omega arith
  find_batch-Locates (suc turns) pos expect s u high o t all c i e l =
      if_intro (λ (f : Run D.State (ℕ × ℕ)). Locates s (f s)) (not (ltb pos g.size_bytes)) _ _
        (λ q.
          let m : pos ≡ g.size_bytes = ground arith in
          let w = Batches-offset (subst (λ x. Batches b g.base_offset x expect) m c) all in
          absurd (omega arith))
        (λ q.
          turn_rule L g p b (Locates s) s pos expect
            (find_turn D want pos (find_batch D g want turns)) o t all c (ground arith)
            (λ h r k a w.
              if_intro (λ (f : Run D.State (ℕ × ℕ)). Locates s (f r)) (ltb want (offset_after h)) _
                _
                (λ z. (
                  k,
                  record {
                    expect = expect;
                    header = h;
                    before = c;
                    here = a;
                    reached = e;
                    contains = ground arith;
                    length_is = refl;
                    inside = w;
                  },
                ))
                (λ z.
                  let y = behind_lem pos g.size_bytes h w u in
                  let d = decode_header_bounds _ h a.decodes in
                  Locates-from s r _ k (
                    find_batch-Locates turns _ _ r u high (k.opens _ _ o) (k.stores _ _ t) all
                      (one_more c h a y refl) (omega arith) (ground arith) (omega arith))))
            (λ d r k n. (k, n)))
