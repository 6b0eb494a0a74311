-- ===== src/Storage/Segment/Read/Reads.antt =====
-- src/storage/segment.cpp: what Segment::read gives of a segment that is in order.
use log_engine.Prelude.{
  ℕ, ◌+◌, ◌-◌, ◌≤◌, ◌<◌, min, ◌≡◌, refl, sym, ap, subst, ◌⊎◌, inl, inr, List, [], arith, ltb, leb,
  if◌then◌else◌, if_intro, length, take, drop, length-drop, length-take_within, take-take,
}
use native.Mathlib.Decide.{dec_lt}
use log_engine.Base.Error.{message_too_large, Result, ok, fail}
use log_engine.Io.Disk.{Disk, Run, carry_on, lift}
use log_engine.Io.Disk.Laws.{View, Keeps, IsDisk}
use log_engine.Io.Disk.Rules.{Keeps-refl, Keeps-trans, pread_rule}
use log_engine.Storage.Batches.{BatchAt, Batches, Batches-le}
use log_engine.Storage.Batches.Header.{decode_header_bounds}
use log_engine.Storage.Batches.Longest.{Batches-next, Batches-offset}
use log_engine.Storage.RecordBatch.{BatchHeader, total_bytes}
use log_engine.Storage.Segment.{Segment}
use log_engine.Storage.Segment.Read.{whole_batches, served, read_batches, read_segment}
use log_engine.Storage.Segment.Read.Found.{Containing, Locates, find_batch-Locates}
use log_engine.Storage.Segment.Read.Whole.{AllWhole, Gives, whole_batches-AllWhole}
use log_engine.Storage.Segment.Start.{lookup_index-Starts}
use log_engine.Storage.Segment.Valid.{IsSegment}

one_header :
    {b : List ℕ} {x e e' : ℕ} (h k : BatchHeader) → BatchAt b x e h → BatchAt b x e' k → h ≡ k
one_header h k a c = cc (a.decodes, c.decodes)

module _ {D : Disk} {V : View D} (L : IsDisk V) (g : Segment) (p b : List ℕ)
    (offset out_size : ℕ) where
  -- An offset before the segment stands for its start.
  abbrev pub wanted : ℕ
  wanted = if ltb offset g.base_offset then g.base_offset else offset

  -- The batches from the one that contains the offset, as many as are whole in the buffer.
  pub record Serves (bytes : List ℕ) : Type 0 where
    pub pos : ℕ
    pub total : ℕ
    pub first_batch : Containing b g.base_offset g.size_bytes wanted pos total
    pub expect : ℕ
    pub batches : Batches b g.base_offset (pos + length bytes) expect
    pub bytes_are : bytes ≡ take (length bytes) (drop pos b)
    pub some_served : total ≤ length bytes
    pub fits : length bytes ≤ out_size
    pub most :
        (h : BatchHeader)
        → BatchAt b (pos + length bytes) expect h
        → pos + length bytes + total_bytes h ≤ g.size_bytes
        → out_size < length bytes + total_bytes h

  pub record TooSmall : Type 0 where
    pub pos : ℕ
    pub total : ℕ
    pub first_batch : Containing b g.base_offset g.size_bytes wanted pos total
    pub no_room : out_size < total

  abbrev pub ReadsFrom : D.State → Result (List ℕ) × D.State → Type 0
  ReadsFrom s (ok bytes, r) =
      Keeps V s r
      × (((g.next_offset ≤ offset) × (bytes ≡ [])) ⊎ ((offset < g.next_offset) × Serves bytes))
  ReadsFrom s (fail c, r) = Keeps V s r × ((¬ V.IsHealthy s) ⊎ ((c ≡ message_too_large) × TooSmall))

  prefix :
      (pos total n : ℕ) (all : Batches b g.base_offset g.size_bytes g.next_offset)
      → Containing b g.base_offset g.size_bytes wanted pos total
      → total ≤ out_size
      → (within : pos + min (g.size_bytes - pos) out_size ≤ g.size_bytes)
      → AllWhole b g.base_offset g.size_bytes g.next_offset pos
          (min (g.size_bytes - pos) out_size)
          all
          within
          n
      → Serves (take n (take (min (g.size_bytes - pos) out_size) (drop pos b)))
  prefix pos total n all c m within w = subst Serves (sym bytes_lem) (record {
    pos = pos;
    total = total;
    first_batch = c;
    expect = w.expect;
    batches = subst (λ k. Batches b g.base_offset (pos + k) w.expect) (sym long) w.batches;
    bytes_are = ap (λ k. take k (drop pos b)) (sym long);
    some_served = omega (arith, long, first_fits);
    fits = omega (arith, long, w.inside);
    most = λ h a q.
        omega
          (arith, long, q, w.most h (subst (λ k. BatchAt b (pos + k) w.expect h) long a), w.inside);
  })
    where
      bytes_lem :
          take n (take (min (g.size_bytes - pos) out_size) (drop pos b)) ≡ take n (drop pos b)
      bytes_lem = take-take _ n (drop pos b) w.inside

      long : length (take n (drop pos b)) ≡ n
      long =
          length-take_within n (drop pos b)
            (omega (arith, length-drop pos b, Batches-le all, w.inside))

      first_fits : total ≤ n
      first_fits = elim (dec_lt 0 n) [
        | yes h ↦
            let (k, a, l) = Batches-next c.before w.batches (omega arith) in
            omega (arith, c.length_is, ap (λ x. total_bytes x) (one_header k c.header a c.here))
        | no h ↦
            let q : pos ≡ pos + n = omega arith in
            absurd (too_much q (w.most c.header (at_start q)))
      ]
        where
          at_start : pos ≡ pos + n → BatchAt b (pos + n) w.expect c.header
          at_start q =
              let e =
                Batches-offset (subst (λ x. Batches b g.base_offset x c.expect) q c.before)
                  w.batches in
              subst (λ y. BatchAt b (pos + n) y c.header) e
                (subst (λ x. BatchAt b x c.expect c.header) q c.here)

          too_much :
              pos ≡ pos + n → min (g.size_bytes - pos) out_size < n + total_bytes c.header → ⊥
          too_much q l = omega (arith, c.length_is, c.inside)

  serve :
      (s r : D.State) (pos total : ℕ)
      → Keeps V s r
      → offset < g.next_offset
      → Batches b g.base_offset g.size_bytes g.next_offset
      → Containing b g.base_offset g.size_bytes wanted pos total
      → total ≤ out_size
      → ReadsFrom s (
          lift
            (served (take (min (g.size_bytes - pos) out_size) (drop pos b)) (
              whole_batches
                (length (take (min (g.size_bytes - pos) out_size) (drop pos b)))
                (take (min (g.size_bytes - pos) out_size) (drop pos b))
                0))
            r)
  serve s r pos total k high all c m = given _ (
      whole_batches-AllWhole b g.base_offset g.size_bytes g.next_offset pos
        (min (g.size_bytes - pos) out_size) all within c.expect c.before)
    where
      within : pos + min (g.size_bytes - pos) out_size ≤ g.size_bytes
      within = omega (arith, c.inside)

      given :
          (x : Result ℕ)
          → Gives b g.base_offset g.size_bytes g.next_offset pos
              (min (g.size_bytes - pos) out_size)
              all
              within
              x
          → ReadsFrom s (lift (served (take (min (g.size_bytes - pos) out_size) (drop pos b)) x) r)
      given (fail d) w = absurd w
      given (ok n) w = (k, inr (high, prefix pos total n all c m within w))

  batches_read :
      (s r : D.State) (found : ℕ × ℕ)
      → IsSegment V s g p b
      → Keeps V s r
      → offset < g.next_offset
      → Containing b g.base_offset g.size_bytes wanted found.0 found.1
      → ReadsFrom s (read_batches D g out_size found r)
  unfolding read_batches
  batches_read s r (pos, total) v k high c =
      let d = decode_header_bounds _ c.header c.here.decodes in
      let z = c.length_is in
      let i = c.inside in
      if_intro (λ (m : Run D.State (List ℕ)). ReadsFrom s (m r)) (leb g.size_bytes pos) _ _
        (λ q. absurd (ground arith))
        (λ q.
          if_intro (λ (m : Run D.State (List ℕ)). ReadsFrom s (m r)) (ltb out_size total) _ _
            (λ y. (
              k,
              inr (
                refl,
                record { pos = pos; total = total; first_batch = c; no_room = ground arith },
              ),
            ))
            (λ y.
              pread_rule L (ReadsFrom s) g.log_file (min (g.size_bytes - pos) out_size) pos r p b _
                (k.opens _ _ v.opened) (k.stores _ _ v.stored)
                (λ t l. serve s t pos total (Keeps-trans k l) high v.batches c (ground arith))
                (λ e t l n. (Keeps-trans k l, inl (λ x. n (k.health x))))))

  -- On a segment in order, a read from before its end serves the batch that contains the offset and
  -- the batches behind it, as many as are whole in the buffer, and changes no file; it fails only on
  -- an unhealthy disk, or as too large when that batch is longer than the buffer. At or past the end
  -- it serves nothing. The segment holds a record.
  pub read_segment-Reads :
      (s : D.State)
      → IsSegment V s g p b
      → g.base_offset < g.next_offset
      → ReadsFrom s (read_segment D g offset out_size s)
  unfolding read_segment
  read_segment-Reads s v holds =
      if_intro (λ (m : Run D.State (List ℕ)). ReadsFrom s (m s)) (leb g.next_offset offset) _ _
        (λ h. (Keeps-refl s, inl (ground arith, refl)))
        (λ h.
          let high : offset < g.next_offset = ground arith in
          let st = lookup_index-Starts V s g p b wanted v low (below high) in
          let i = v.within in
          let y = v.small in
          found high _ (
            find_batch-Locates L g p b wanted g.size_bytes _ st.expect s (omega arith) (below high)
              v.opened v.stored v.batches st.batches st.inside st.reached (omega arith)))
    where
      low : g.base_offset ≤ wanted
      low = ground arith

      below : offset < g.next_offset → wanted < g.next_offset
      below h = ground (arith, holds)

      found :
          offset < g.next_offset
          → (x : Result (ℕ × ℕ) × D.State) → Locates L g p b wanted s x
          → ReadsFrom s (carry_on x (read_batches D g out_size))
      found h (ok f, r) w = batches_read s r f v w.0 h w.1
      found h (fail c, r) w = (w.0, inl w.1)
