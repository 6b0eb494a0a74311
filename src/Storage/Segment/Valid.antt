-- ===== src/Storage/Segment/Valid.antt =====
-- src/storage/segment.h: what a segment promises of its file and its index.
use log_engine.Prelude.{
  ℕ, zero, suc, ◌+◌, ◌^◌, ◌≤◌, ◌<◌, ◌≡◌, refl, sym, ap, false, not, List, [], ◌∷◌, arith, length,
  take, length-take_within, All, All-map, IsU32, IsU64,
}
use native.Mathlib.Nat.{le_refl}
use log_engine.Base.Error.{ok, fail, Status}
use log_engine.Io.Disk.{Disk}
use log_engine.Io.Disk.Laws.{View, Alters}
use log_engine.Storage.Batches.{Batches, Batches-le}
use log_engine.Storage.Batches.Extend.{Batches-same}
use log_engine.Storage.Segment.{Segment, is_ok}
use log_engine.Storage.SparseIndex.{IndexEntry}
use log_engine.Storage.SparseIndex.Sorted.{IsIndex}

pub is_ok_lem : (r : Status) → not (is_ok r) ≡ false → r ≡ ok tt
is_ok_lem (ok u) e = refl
is_ok_lem (fail c) e = absurd (ground arith)

-- The entry points behind batches of the segment.
abbrev pub IsPlaced : List ℕ → ℕ → ℕ → IndexEntry → Type 0
IsPlaced b base size e = Batches b base e.file_pos (base + e.rel_offset) × (e.file_pos ≤ size)

-- The segment keeps its batches at the front of the file `p`, whose bytes are `b`.
pub record IsSegment {D : Disk} (V : View D) (s : D.State) (g : Segment) (p b : List ℕ)
    : Type 0 where
  pub opened : V.Opens s g.log_file p
  pub stored : V.Stores s p b
  pub batches : Batches b g.base_offset g.size_bytes g.next_offset
  pub within : g.size_bytes ≤ g.max_bytes
  pub small : IsU32 g.max_bytes
  pub sorted : IsIndex g.index
  pub placed : All (IsPlaced b g.base_offset g.size_bytes) g.index
  pub rises : g.base_offset ≤ g.next_offset
  pub narrow : g.next_offset < g.base_offset + 2 ^ 32
  pub bounded : IsU64 g.next_offset

-- The same segment over a file that agrees on the bytes that it fills.
pub IsPlaced-same :
    (b c : List ℕ) (n : ℕ)
    → take n b ≡ take n c
    → n ≤ length c
    → (base size : ℕ) (es : List IndexEntry) → size ≤ n
    → All (IsPlaced b base size) es
    → All (IsPlaced c base size) es
IsPlaced-same b c n e l base size es h a =
    All-map _ _ es (λ x p. (Batches-same b c n e l (omega arith) p.0, p.1)) a

pub long_enough : (b c : List ℕ) (n : ℕ) → n ≤ length b → take n c ≡ take n b → n ≤ length c
long_enough b c n h e = omega (arith, ap length e, length-take_within n b h, taken n c)
  where
    taken : (n : ℕ) (c : List ℕ) → length (take n c) ≤ length c
    taken zero c = omega arith
    taken (suc n) [] = omega arith
    taken (suc n) (x ∷ c) = omega (arith, taken n c)

module _ {D : Disk} {V : View D} where
  -- A write behind the segment leaves it as it is.
  pub Spoils-IsSegment :
      (s r : D.State) (g : Segment) (p b c : List ℕ)
      → IsSegment V s g p b
      → Alters V s r p c
      → take g.size_bytes c ≡ take g.size_bytes b
      → IsSegment V r g p c
  Spoils-IsSegment s r g p b c v a e =
      let l = long_enough b c g.size_bytes (Batches-le v.batches) e in
      record {
        opened = a.opens _ _ v.opened;
        stored = a.stores;
        batches = Batches-same b c g.size_bytes (sym e) l (le_refl _) v.batches;
        within = v.within;
        small = v.small;
        sorted = v.sorted;
        placed =
            IsPlaced-same b c g.size_bytes (sym e) l g.base_offset g.size_bytes g.index (le_refl _)
              v.placed;
        rises = v.rises;
        narrow = v.narrow;
        bounded = v.bounded;
      }
