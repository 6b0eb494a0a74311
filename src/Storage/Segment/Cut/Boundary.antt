-- ===== src/Storage/Segment/Cut/Boundary.antt =====
-- src/storage/segment.cpp: Segment::truncate_to cuts between two batches.
use log_engine.Prelude.{
  ℕ, zero, suc, ◌≤◌, ◌<◌, ◌≡◌, refl, sym, subst, ◌⊎◌, inl, inr, not, List, arith, ltb, leb, ◌==◌,
  if_intro, length, take, length-take_within, take-take, All, In, IsU32,
}
use native.Mathlib.Nat.{le_refl}
use log_engine.Base.Error.{invalid_argument, Result, ok, fail}
use log_engine.Io.Disk.{Disk, Run, carry_on}
use log_engine.Io.Disk.Laws.{View, Keeps, Alters, IsDisk}
use log_engine.Io.Disk.Rules.{Keeps-refl, Keeps-trans, truncate_rule, Keeps-then-Alters}
use log_engine.Storage.Batches.{Batches, no_batch, one_more, Batches-le}
use log_engine.Storage.Batches.Extend.{Batches-same}
use log_engine.Storage.Segment.{Segment}
use log_engine.Storage.Segment.Cut.{cut_turn, find_cut, cut_at, truncate_to}
use log_engine.Storage.Segment.Start.{lookup_index-Starts}
use log_engine.Storage.Segment.Valid.{IsPlaced, IsSegment}
use log_engine.Storage.Segment.Walk.{behind_lem, turn_rule}
use log_engine.Storage.SparseIndex.{IndexEntry, truncate_index}
use log_engine.Storage.SparseIndex.Kept.{truncate_index-All, All-both}
use log_engine.Storage.SparseIndex.Sorted.{IsIndex, PointsBelow, truncate_index_lem}

module _ {D : Disk} {V : View D} (L : IsDisk V) (g : Segment) (p b : List ℕ) (offset : ℕ) where
  abbrev pub CutFound : D.State → Result ℕ × D.State → Type 0
  CutFound s (ok cut, r) = Keeps V s r × Batches b g.base_offset cut offset × (cut ≤ g.size_bytes)
  CutFound s (fail c, r) = Keeps V s r × ((¬ V.IsHealthy s) ⊎ (c ≡ invalid_argument))

  CutFound-from :
      (s r : D.State) (x : Result ℕ × D.State) → Keeps V s r → CutFound r x → CutFound s x
  CutFound-from s r (ok n, t) k h = (Keeps-trans k h.0, h.1, h.2)
  CutFound-from s r (fail c, t) k (q, inl w) = (Keeps-trans k q, inl (λ x. w (k.health x)))
  CutFound-from s r (fail c, t) k (q, inr e) = (Keeps-trans k q, inr e)

  find_cut-CutFound :
      (turns pos expect : ℕ) (s : D.State)
      → IsU32 g.size_bytes
      → V.Opens s g.log_file p
      → V.Stores s p b
      → Batches b g.base_offset g.size_bytes g.next_offset
      → Batches b g.base_offset pos expect
      → CutFound s (find_cut D g offset turns pos s)
  unfolding find_cut cut_turn
  find_cut-CutFound zero pos expect s u o t all c = (Keeps-refl s, inr refl)
  find_cut-CutFound (suc turns) pos expect s u o t all c =
      if_intro (λ (f : Run D.State ℕ). CutFound s (f s)) (not (ltb pos g.size_bytes)) _ _
        (λ _. (Keeps-refl s, inr refl))
        (λ l.
          turn_rule L g p b (CutFound s) s pos expect
            (cut_turn D offset pos (find_cut D g offset turns)) o t all c (ground arith)
            (λ h r k a w.
              if_intro (λ (f : Run D.State ℕ). CutFound s (f r)) (h.base_offset == offset) _ _
                (λ e.
                  let q : expect ≡ offset = ground (arith, a.continues) in
                  (k, subst (Batches b g.base_offset pos) q c, omega arith))
                (λ _.
                  if_intro (λ (f : Run D.State ℕ). CutFound s (f r)) (ltb offset h.base_offset) _ _
                    (λ _. (k, inr refl))
                    (λ _. CutFound-from s r _ k (
                      find_cut-CutFound turns _ _ r u (k.opens _ _ o) (k.stores _ _ t) all
                        (one_more c h a (behind_lem pos g.size_bytes h w u) refl)))))
            (λ d r k n. (k, inl n)))

  -- The segment that ends at the offset.
  pub record Shortened (s r : D.State) (g' : Segment) : Type 0 where
    pub alters : Alters V s r p (take g'.size_bytes b)
    pub valid : IsSegment V r g' p (take g'.size_bytes b)
    pub ends_at : g'.next_offset ≡ offset
    pub shorter : g'.size_bytes ≤ g.size_bytes

  abbrev pub Truncates : D.State → Result Segment × D.State → Type 0
  Truncates s (ok g', r) =
      ((g.next_offset ≤ offset) × (g' ≡ g) × (r ≡ s))
      ⊎ ((offset < g.next_offset) × Shortened s r g')
  Truncates s (fail c, r) = Keeps V s r × ((¬ V.IsHealthy s) ⊎ (c ≡ invalid_argument))

  cut_at-Truncates :
      (s r : D.State) (cut : ℕ)
      → IsSegment V s g p b
      → Keeps V s r
      → Batches b g.base_offset cut offset
      → cut ≤ g.size_bytes
      → g.base_offset ≤ offset
      → offset < g.next_offset
      → Truncates s (cut_at D g offset cut r)
  unfolding cut_at
  cut_at-Truncates s r cut v k c w low high =
      truncate_rule L (Truncates s) g.log_file cut r p b _ (k.opens _ _ v.opened)
        (k.stores _ _ v.stored) (Batches-le c)
        (λ q a. inr (
          high,
          record {
            alters = Keeps-then-Alters p _ k a;
            valid = record {
              opened = a.opens _ _ (k.opens _ _ v.opened);
              stored = a.stores;
              batches = Batches-same b _ cut same long (le_refl _) c;
              within = omega (arith, v.within);
              small = v.small;
              sorted = kept.0;
              placed = still_placed;
              rises = low;
              narrow = omega (arith, v.narrow);
              bounded = omega (arith, v.bounded);
            };
            ends_at = refl;
            shorter = w;
          },
        ))
        (λ d q l n. (Keeps-trans k l, inl (λ x. n (k.health x))))
    where
      kept :
          IsIndex (truncate_index g.index cut)
          × PointsBelow cut (truncate_index g.index cut)
          × ((e : IndexEntry) → In e g.index → e.file_pos < cut → In e (truncate_index g.index cut))
      kept = truncate_index_lem g.index cut v.sorted

      same : take cut b ≡ take cut (take cut b)
      same = sym (take-take cut cut b (le_refl _))

      long : cut ≤ length (take cut b)
      long = omega (arith, length-take_within cut b (Batches-le c))

      still_placed : All (IsPlaced (take cut b) g.base_offset cut) (truncate_index g.index cut)
      still_placed =
          All-both _ _ _ (truncate_index g.index cut)
            (λ e q l. (Batches-same b _ cut same long (omega (arith, l)) q.0, omega (arith, l)))
            (truncate_index-All (IsPlaced b g.base_offset g.size_bytes) g.index cut v.placed) kept.1

  -- A truncation at an offset that is not before the segment ends it there, between two batches, and
  -- touches no other file; at or past its end it does nothing. It fails only on an unhealthy disk or
  -- because of the offset, and then every file is as it was.
  pub truncate_to-Truncates :
      (s : D.State)
      → IsSegment V s g p b
      → g.base_offset ≤ offset
      → Truncates s (truncate_to D g offset s)
  unfolding truncate_to
  truncate_to-Truncates s v low =
      if_intro (λ (f : Run D.State Segment). Truncates s (f s)) (leb g.next_offset offset) _ _
        (λ h. inl (ground arith, refl, refl))
        (λ h.
          if_intro (λ (f : Run D.State Segment). Truncates s (f s)) (leb offset g.base_offset) _ _
            (λ e.
              cut_at-Truncates s s 0 v (Keeps-refl s) (no_batch refl (ground arith)) (omega arith)
                low (ground arith))
            (λ e.
              let st = lookup_index-Starts V s g p b offset v low (ground arith) in
              let u = v.within in
              let y = v.small in
              found _
                (find_cut-CutFound g.size_bytes _ st.expect s (omega arith) v.opened v.stored
                  v.batches st.batches)
                (ground arith)))
    where
      found :
          (x : Result ℕ × D.State)
          → CutFound s x
          → offset < g.next_offset
          → Truncates s (carry_on x (cut_at D g offset))
      found (ok cut, r) (k, c, w) h = cut_at-Truncates s r cut v k c w low h
      found (fail c, r) h l = h
