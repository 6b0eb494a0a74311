-- ===== src/Storage/Segment/Start.antt =====
-- src/storage/segment.cpp: the index says where a walk over the segment may start.
use log_engine.Prelude.{ℕ, ◌+◌, ◌≤◌, ◌<◌, ◌≡◌, refl, ap, ◌⊎◌, inl, inr, List, arith, In}
use log_engine.Io.Disk.{Disk}
use log_engine.Io.Disk.Laws.{View}
use log_engine.Storage.Batches.{Batches, no_batch}
use log_engine.Storage.Segment.{Segment, relative}
use log_engine.Storage.Segment.Valid.{IsPlaced, IsSegment}
use log_engine.Storage.SparseIndex.{IndexEntry, first_entry, lookup_index}
use log_engine.Storage.SparseIndex.Kept.{All-In}
use log_engine.Storage.SparseIndex.Lookup.{lookup_index-Found}

-- Batches end where the walk starts, and the wanted offset is not before it.
pub record Starts (b : List ℕ) (base size want pos : ℕ) : Type 0 where
  pub expect : ℕ
  pub batches : Batches b base pos expect
  pub inside : pos ≤ size
  pub reached : expect ≤ want

pub lookup_index-Starts :
    {D : Disk} (V : View D) (s : D.State) (g : Segment) (p b : List ℕ) (want : ℕ)
    → IsSegment V s g p b
    → g.base_offset ≤ want
    → want < g.next_offset
    → Starts b g.base_offset g.size_bytes want (lookup_index g.index (relative g want)).file_pos
lookup_index-Starts V s g p b want v low high =
    let f = lookup_index-Found g.index (relative g want) v.sorted in at _ f.place
  where
    exact : g.base_offset + relative g want ≡ want
    exact = omega (arith, v.narrow, v.bounded)

    at :
        (e : IndexEntry)
        → (e ≡ first_entry) ⊎ (In e g.index × (e.rel_offset ≤ relative g want))
        → Starts b g.base_offset g.size_bytes want e.file_pos
    at e (inl q) = record {
      expect = g.base_offset;
      batches = no_batch (ap (λ x. x.file_pos) q) refl;
      inside = omega (arith, ap (λ x. x.file_pos) q);
      reached = low;
    }
    at e (inr i) =
        let w = All-In (IsPlaced b g.base_offset g.size_bytes) g.index e v.placed i.0 in
        record {
          expect = g.base_offset + e.rel_offset;
          batches = w.0;
          inside = w.1;
          reached = omega (arith, i.1, exact);
        }
