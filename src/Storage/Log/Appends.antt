-- ===== src/Storage/Log/Appends.antt =====
-- src/storage/log.cpp: an append takes the next offset of the log, and no other.
use log_engine.Storage.RecordBatch.{next_offset as offset_after}
use log_engine.Prelude.{
  ℕ, ◌≡◌, refl, sym, ap, subst, ◌⊎◌, inl, inr, false, not, List, arith, ltb, ◌==◌, if_intro, length,
}
use log_engine.Base.Error.{Result, ok, fail, Status}
use log_engine.Io.Disk.{Disk, Run, carry_on}
use log_engine.Io.Disk.Rules.{bind_lem}
use log_engine.Storage.Log.{
  Log, Store, needs_roll, push_segment, on_disk, update_log, add_segment, roll, make_room,
  append_active, append_checked, append_decoded, append_replicated,
}
use log_engine.Storage.Log.Chain.{IsChained, IsSettled, IsChained-active, IsChained-push}
use log_engine.Storage.RecordBatch.{BatchHeader, total_bytes, decode_header, validate_batch}
use log_engine.Storage.Segment.{Segment, is_ok, append_batch, sync_segment, flush_index}
use log_engine.Storage.Segment.Offsets.{
  Continues, BasedAt, append_batch-Continues, open_segment-BasedAt,
}
use log_engine.Storage.Segment.Recover.{open_segment}
use log_engine.Storage.Segment.Valid.{is_ok_lem}

-- The log where an append goes: the same, or with one more segment.
abbrev pub Rooms : {D : Disk} → Log → Status × Store D → Type 0
Rooms l (ok u, w) =
    (w.log ≡ l) ⊎ ((g : Segment) × (g.base_offset ≡ l.next_offset) × (w.log ≡ push_segment g l))
Rooms l (fail c, w) = w.log ≡ l

-- After a batch of this header.
pub record Appended (l : Log) (h : BatchHeader) (l' : Log) : Type 0 where
  pub chained : IsChained l'
  pub settled : IsSettled l'
  pub at_next : h.base_offset ≡ l.next_offset
  pub next : l'.next_offset ≡ offset_after h

abbrev pub AppendsTo : {D : Disk} → Log → BatchHeader → Status × Store D → Type 0
AppendsTo l h (ok u, w) = Appended l h w.log
AppendsTo l h (fail c, w) = IsChained w.log × (w.log.next_offset ≡ l.next_offset)

module _ (D : Disk) where
  add_segment-Rooms : (w : Store D) → Rooms w.log (add_segment D w.log.next_offset w)
  unfolding add_segment
  add_segment-Rooms w =
      bind_lem (Rooms w.log)
        (on_disk D
          (open_segment D w.log.dir w.log.next_offset w.log.segment_max_bytes
            w.log.index_interval_bytes)
          w)
        _
        (λ g e. inr (
          g,
          subst (BasedAt w.log.next_offset) e (
              open_segment-BasedAt D w.log.dir w.log.next_offset w.log.segment_max_bytes
                w.log.index_interval_bytes w.disk),
          refl,
        ))
        (λ c _. refl)

  pub make_room-Rooms : (n : ℕ) (w : Store D) → Rooms w.log (make_room D n w)
  unfolding make_room roll
  make_room-Rooms n w =
      if_intro (λ (m : Run (Store D) (Unit {0})). Rooms w.log (m w)) (needs_roll n w.log) _ _
        (λ _.
          bind_lem (Rooms w.log) (on_disk D (sync_segment D w.log.active) w) _
            (λ _ _.
              bind_lem (Rooms w.log) (on_disk D (flush_index D w.log.active) _) _
                (λ _ _. add_segment-Rooms _) (λ c _. refl))
            (λ c _. refl))
        (λ _. inl refl)

  pub append_active-AppendsTo :
      (framed : List ℕ) (h : BatchHeader) (w : Store D) (l : Log)
      → IsChained w.log
      → w.log.next_offset ≡ l.next_offset
      → h.base_offset ≡ l.next_offset
      → AppendsTo l h (append_active D framed h w)
  unfolding append_active
  append_active-AppendsTo framed h w l c e b =
      appended (append_batch D framed h w.log.active w.disk)
        (append_batch-Continues D framed h w.log.active w.disk)
    where
      appended :
          (x : Result Segment × D.State)
          → Continues w.log.active h x.0
          → AppendsTo l h (
              carry_on
                (carry_on {S = Store D}
                  (x.0, record { disk = x.1; log = w.log })
                  (λ g. update_log D (λ m. record m { active = g })))
                (λ _. update_log D (λ m. record m { next_offset = offset_after h })))
      appended (ok g, r) k = record {
        chained = IsChained-active w.log g (offset_after h) c k.0;
        settled = sym k.2;
        at_next = b;
        next = refl;
      }
      appended (fail d, r) k = (c, e)

  -- Room is made, and the batch appended.
  pub append_behind-AppendsTo :
      (framed : List ℕ) (n : ℕ) (h : BatchHeader) (w : Store D)
      → IsChained w.log
      → IsSettled w.log
      → h.base_offset ≡ w.log.next_offset
      → AppendsTo w.log h (carry_on (make_room D n w) (λ _. append_active D framed h))
  append_behind-AppendsTo framed n h w c s b = roomed (make_room D n w) (make_room-Rooms n w)
    where
      roomed :
          (x : Status × Store D)
          → Rooms w.log x
          → AppendsTo w.log h (carry_on x (λ _. append_active D framed h))
      roomed (ok u, v) (inl e) =
          append_active-AppendsTo framed h v w.log (subst IsChained (sym e) c)
            (ap (λ l. l.next_offset) e) b
      roomed (ok u, v) (inr (g, q, e)) =
          append_active-AppendsTo framed h v w.log
            (subst IsChained (sym e) (IsChained-push w.log g c s q)) (ap (λ l. l.next_offset) e) b
      roomed (fail d, v) e = (subst IsChained (sym e) c, ap (λ l. l.next_offset) e)

  -- The outcome of a batch that a leader sent.
  abbrev pub Replicates : List ℕ → Log → Status × Store D → Type 0
  Replicates framed l (ok u, w) =
      (h : BatchHeader) × (decode_header framed ≡ ok h)
      × (validate_batch framed ≡ ok tt)
      × Appended l h w.log
  Replicates framed l (fail c, w) = IsChained w.log × (w.log.next_offset ≡ l.next_offset)

  -- On any disk, a batch that a leader sent is appended only if it is valid and starts at the next
  -- offset of the log, which then is the one behind it; a refused one leaves the next offset. Either
  -- way the segments continue one another.
  pub append_replicated-Replicates :
      (framed : List ℕ) (w : Store D)
      → IsChained w.log
      → IsSettled w.log
      → Replicates framed w.log (append_replicated D framed w)
  unfolding append_replicated append_checked
  append_replicated-Replicates framed w c s = decoded (decode_header framed) refl
    where
      decoded :
          (r : Result BatchHeader)
          → decode_header framed ≡ r
          → Replicates framed w.log (append_decoded D framed r w)
      decoded (fail d) e = (c, refl)
      decoded (ok h) e =
          if_intro (λ (m : Run (Store D) (Unit {0})). Replicates framed w.log (m w))
            (not (length framed == total_bytes h)) _ _ (λ _. (c, refl))
            (λ _.
              if_intro (λ (m : Run (Store D) (Unit {0})). Replicates framed w.log (m w))
                (not (h.base_offset == w.log.next_offset)) _ _ (λ _. (c, refl))
                (λ b.
                  if_intro (λ (m : Run (Store D) (Unit {0})). Replicates framed w.log (m w))
                    (not (is_ok (validate_batch framed))) _ _ (λ _. (c, refl))
                    (λ k.
                      if_intro (λ (m : Run (Store D) (Unit {0})). Replicates framed w.log (m w))
                        (ltb w.log.segment_max_bytes (length framed)) _ _ (λ _. (c, refl))
                        (λ _. given h e k _ (
                          append_behind-AppendsTo framed (length framed) h w c s (ground arith))))))
        where
          given :
              (h : BatchHeader)
              → decode_header framed ≡ ok h
              → not (is_ok (validate_batch framed)) ≡ false
              → (x : Status × Store D) → AppendsTo w.log h x
              → Replicates framed w.log x
          given h e k (ok u, v) a = (h, e, is_ok_lem _ k, a)
          given h e k (fail d, v) a = a
