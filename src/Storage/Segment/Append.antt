-- ===== src/Storage/Segment/Append.antt =====
-- src/storage/segment.cpp: an append puts the batch behind the others, or leaves the segment as it was.
use log_engine.Storage.RecordBatch.{next_offset as offset_after}
use log_engine.Prelude.{
  ℕ, ◌+◌, ◌^◌, ◌≤◌, ◌<◌, ◌≡◌, refl, sym, ap, subst, ◌∙◌, ◌≢◌, ◌⊎◌, inl, inr, not, List, ◌++◌, arith,
  ltb, ◌==◌, if_intro, length, take, drop, length-append, take_front, drop_front,
  length-take_within, take-append, take-take, All, All-map, sub_u32,
}
use mathlib.Core.List.{append_assoc}
use native.Mathlib.Nat.{le_refl}
use log_engine.Base.Error.{Result, ok, fail}
use log_engine.Io.Disk.{Disk, Run}
use log_engine.Io.Disk.Laws.{View, Alters, Spoils, IsDisk}
use log_engine.Io.Disk.Rules.{Keeps-refl, Keeps-Alters, pwrite_rule}
use log_engine.Storage.Batches.{BatchAt, Batches, one_more, Batches-le}
use log_engine.Storage.Batches.Extend.{Batches-same, BatchAt-here}
use log_engine.Storage.RecordBatch.{BatchHeader, total_bytes, decode_header, validate_batch}
use log_engine.Storage.Segment.{Segment, relative, append_batch}
use log_engine.Storage.Segment.Valid.{IsPlaced, IsSegment, IsPlaced-same, Spoils-IsSegment}
use log_engine.Storage.SparseIndex.{IndexEntry, maybe_add}
use log_engine.Storage.SparseIndex.Kept.{maybe_add-All}
use log_engine.Storage.SparseIndex.Sorted.{maybe_add-IsIndex}

-- A framed batch: its header, and nothing behind it.
pub record IsFramed (framed : List ℕ) (header : BatchHeader) : Type 0 where
  pub decodes : decode_header framed ≡ ok header
  pub whole : length framed ≡ total_bytes header
  pub validates : validate_batch framed ≡ ok tt

module _ {D : Disk} (V : View D) where
  pub record Grown (s r : D.State) (g g' : Segment) (p b framed : List ℕ) (header : BatchHeader)
      : Type 0 where
    pub bytes : List ℕ
    pub behind : take g'.size_bytes bytes ≡ take g.size_bytes b ++ framed
    pub alters : Alters V s r p bytes
    pub valid : IsSegment V r g' p bytes
    pub at_next : header.base_offset ≡ g.next_offset
    pub next : g'.next_offset ≡ offset_after header
    pub size : g'.size_bytes ≡ g.size_bytes + length framed

  pub record Refused (s r : D.State) (g : Segment) (p b framed : List ℕ) (header : BatchHeader)
      : Type 0 where
    pub bytes : List ℕ
    pub alters : Alters V s r p bytes
    pub valid : IsSegment V r g p bytes
    pub reason :
        (header.base_offset ≢ g.next_offset)
        ⊎ ((g.max_bytes < g.size_bytes + length framed) ⊎ (¬ V.IsHealthy s))

  abbrev pub AppendsBatch :
      D.State → Segment → List ℕ → List ℕ → List ℕ → BatchHeader → Result Segment × D.State → Type 0
  AppendsBatch s g p b framed header (ok g', r) = Grown s r g g' p b framed header
  AppendsBatch s g p b framed header (fail c, r) = Refused s r g p b framed header

  module _ (s : D.State) (g : Segment) (p b framed : List ℕ) (header : BatchHeader)
      (v : IsSegment V s g p b) (f : IsFramed framed header) where
    after : List ℕ
    after = take g.size_bytes b ++ (framed ++ drop (g.size_bytes + length framed) b)

    unchanged :
        (reason : (header.base_offset ≢ g.next_offset)
          ⊎ ((g.max_bytes < g.size_bytes + length framed) ⊎ (¬ V.IsHealthy s)))
        → Refused s s g p b framed header
    unchanged reason = record {
      bytes = b;
      alters = Keeps-Alters s s p b (Keeps-refl s) v.stored;
      valid = v;
      reason = reason;
    }

    spoilt :
        (r : D.State)
        → Spoils V s r p b g.size_bytes
        → ¬ V.IsHealthy s
        → Refused s r g p b framed header
    spoilt r (c, a, e) n = record {
      bytes = c;
      alters = a;
      valid = Spoils-IsSegment s r g p b c v a e;
      reason = inr (inr n);
    }

    size-le : g.size_bytes ≤ length b
    size-le = Batches-le v.batches

    length-front : length (take g.size_bytes b) ≡ g.size_bytes
    length-front = length-take_within g.size_bytes b size-le

    length-after : g.size_bytes + length framed ≤ length after
    unfolding after
    length-after = omega (
      arith,
      length-append (take g.size_bytes b) (framed ++ drop (g.size_bytes + length framed) b),
      length-append framed (drop (g.size_bytes + length framed) b),
      length-front,
    )

    front_kept : take g.size_bytes after ≡ take g.size_bytes b
    unfolding after
    front_kept =
        take-append g.size_bytes (take g.size_bytes b) _ (omega (arith, length-front))
        ∙ take-take g.size_bytes g.size_bytes b (le_refl _)

    placed_batch : drop g.size_bytes after ≡ framed ++ drop (g.size_bytes + length framed) b
    unfolding after
    placed_batch =
        ap (λ n. drop n after) (sym length-front)
        ∙ drop_front (take g.size_bytes b) (framed ++ drop (g.size_bytes + length framed) b)

    old-Batches : Batches after g.base_offset g.size_bytes g.next_offset
    old-Batches =
        Batches-same b after g.size_bytes (sym front_kept) (omega (arith, length-after)) (le_refl _)
          v.batches

    new_batch : header.base_offset ≡ g.next_offset → BatchAt after g.size_bytes g.next_offset header
    new_batch e =
        BatchAt-here after framed (drop (g.size_bytes + length framed) b) g.size_bytes g.next_offset
          header placed_batch (omega (arith, length-after)) f.decodes f.whole f.validates e

    filled : take (g.size_bytes + length framed) after ≡ take g.size_bytes b ++ framed
    unfolding after
    filled =
        ap (take (g.size_bytes + length framed))
          (sym (append_assoc (take g.size_bytes b) framed (drop (g.size_bytes + length framed) b)))
        ∙ ap
            (λ n. take n ((take g.size_bytes b ++ framed) ++ drop (g.size_bytes + length framed) b))
            long
        ∙ take_front (take g.size_bytes b ++ framed) (drop (g.size_bytes + length framed) b)
      where
        long : g.size_bytes + length framed ≡ length (take g.size_bytes b ++ framed)
        long = omega (arith, length-append (take g.size_bytes b) framed, length-front)

    module _ (fits : g.size_bytes + length framed ≤ g.max_bytes)
        (at_next : header.base_offset ≡ g.next_offset)
        (no_wrap : header.base_offset ≤ offset_after header)
        (narrow : offset_after header < g.base_offset + 2 ^ 32) where
      grown_index : List IndexEntry
      grown_index =
          maybe_add g.index (relative g header.base_offset) g.size_bytes g.index_interval_bytes

      rel_lem : g.base_offset + relative g header.base_offset ≡ g.next_offset
      rel_lem = let r = v.rises in let n = v.narrow in let u = v.bounded in omega arith

      grown-IsPlaced : All (IsPlaced after g.base_offset (g.size_bytes + length framed)) grown_index
      unfolding grown_index
      grown-IsPlaced =
          maybe_add-All _ g.index _ g.size_bytes g.index_interval_bytes
            (All-map _ _ g.index (λ x q. (q.0, omega (arith, q.1)))
              (IsPlaced-same b after g.size_bytes (sym front_kept) (omega (arith, length-after))
                g.base_offset g.size_bytes g.index (le_refl _) v.placed))
            (
              subst (Batches after g.base_offset g.size_bytes) (sym rel_lem) old-Batches,
              omega arith,
            )

      grown :
          (r : D.State)
          → Alters V s r p after
          → (g' : Segment)
          → g' ≡ record g {
            index = grown_index;
            size_bytes = g.size_bytes + length framed;
            next_offset = offset_after header;
          }
          → Grown s r g g' p b framed header
      unfolding grown_index
      grown r a g' e =
          subst (λ x. Grown s r g x p b framed header) (sym e)
            (record {
              bytes = after;
              behind = filled;
              alters = a;
              valid = record {
                opened = a.opens _ _ v.opened;
                stored = a.stores;
                batches =
                    one_more old-Batches header (new_batch at_next)
                      (ap (λ n. g.size_bytes + n) f.whole) refl;
                within = fits;
                small = v.small;
                sorted =
                    maybe_add-IsIndex g.index (relative g header.base_offset) g.size_bytes
                      g.index_interval_bytes v.sorted;
                placed = grown-IsPlaced;
                rises = omega (arith, v.rises, at_next);
                narrow = narrow;
                bounded = omega arith;
              };
              at_next = at_next;
              next = refl;
              size = refl;
            })

  -- The header is that of the framed bytes, and the offsets do not wrap. An append that succeeds puts
  -- the batch behind the others, at the offset that the segment expects; one that fails leaves the
  -- batches of the segment as they were, and fails only at another offset, for want of room, or on an
  -- unhealthy disk. Either way no other file changes.
  pub append_batch-Appends :
      IsDisk V
      → (s : D.State) (g : Segment) (p b framed : List ℕ) (header : BatchHeader)
      → IsSegment V s g p b
      → IsFramed framed header
      → g.max_bytes ≤ V.limit
      → header.base_offset ≤ offset_after header
      → offset_after header < g.base_offset + 2 ^ 32
      → AppendsBatch s g p b framed header (append_batch D framed header g s)
  unfolding append_batch after grown_index
  append_batch-Appends L s g p b framed header v f room no_wrap narrow =
      if_intro (λ (m : Run D.State Segment). AppendsBatch s g p b framed header (m s))
        (not (header.base_offset == g.next_offset)) _ _
        (λ t. unchanged s g p b framed header v f (inl (ground arith)))
        (λ t.
          if_intro (λ (m : Run D.State Segment). AppendsBatch s g p b framed header (m s))
            (ltb (sub_u32 g.max_bytes g.size_bytes) (length framed)) _ _
            (λ u.
              unchanged s g p b framed header v f (inr (inl (ground (arith, v.within, v.small)))))
            (λ u.
              let fits : g.size_bytes + length framed ≤ g.max_bytes =
                ground (arith, v.within, v.small) in
              pwrite_rule L (AppendsBatch s g p b framed header) g.log_file g.size_bytes framed s p
                b _ v.opened v.stored (Batches-le v.batches) (omega arith)
                (λ r a.
                  if_intro (λ (m : Run D.State Segment). AppendsBatch s g p b framed header (m r))
                    (not (length framed == length framed)) _ _ (λ k. absurd (ground arith))
                    (λ k. grown s g p b framed header v f fits (ground arith) no_wrap narrow r a _ (
                      ap
                        (λ (n : ℕ). record g {
                          index =
                              grown_index s g p b framed header v f fits (ground arith) no_wrap
                                narrow;
                          size_bytes = n;
                          next_offset = offset_after header;
                        })
                        (omega (arith, v.small)))))
                (λ n r q sp h.
                  if_intro (λ (m : Run D.State Segment). AppendsBatch s g p b framed header (m r))
                    (not (n == length framed)) _ _ (λ k. spoilt s g p b framed header v f r sp h)
                    (λ k. absurd (q (ground arith))))
                (λ c r sp h. spoilt s g p b framed header v f r sp h)))
