-- ===== src/Storage/Log/Assigns.antt =====
-- src/storage/log.cpp: Log::append gives a batch the next offset of the log.
use log_engine.Prelude.{
  ℕ, ◌≤◌, ◌≡◌, refl, sym, ap, subst, ◌∙◌, inl, inr, List, ltb, ◌==◌, if_intro, length, add_u64,
}
use log_engine.Base.Buffer.{size}
use log_engine.Base.Error.{Result, ok, fail, Status}
use log_engine.Io.Disk.{Disk, Run, pure, carry_on, ◌>>=◌}
use log_engine.Storage.Log.{Log, Store, make_room, with_header, append_log}
use log_engine.Storage.Log.Appends.{Rooms, AppendsTo, make_room-Rooms, append_active-AppendsTo}
use log_engine.Storage.Log.Chain.{IsChained, IsSettled, IsChained-push}
use log_engine.Storage.RecordBatch.{
  BatchHeader, next_offset, BatchMeta, decode_header, BatchBuilder, framed_batch, finish,
}
use log_engine.Storage.RecordBatch.Build.{Holds}
use log_engine.Storage.RecordBatch.Framing.{IsMeta, framed_batch-decoded}

module _ (D : Disk) where
  -- What an append of these records leaves.
  abbrev pub Assigns : List (List ℕ) → Log → Result (ℕ × BatchBuilder) × Store D → Type 0
  Assigns vs l (ok (base, b), w) =
      (base ≡ l.next_offset)
      × IsChained w.log
      × IsSettled w.log
      × (w.log.next_offset ≡ add_u64 l.next_offset (length vs))
  Assigns vs l (fail c, w) = IsChained w.log × (w.log.next_offset ≡ l.next_offset)

  -- The framing and the append, once there is room.
  abbrev pub append_framed : BatchBuilder → BatchMeta → Log → Run (Store D) (ℕ × BatchBuilder)
  append_framed builder meta m =
      with_header D (finish m.next_offset meta builder).0
        (decode_header (finish m.next_offset meta builder).0)
      >>= λ u. pure (m.next_offset, (finish m.next_offset meta builder).1)

  -- On any disk, an append gives the records of the builder the next offset of the log, which moves
  -- on by their number; a refused one leaves the next offset. Either way the segments continue one
  -- another. The builder was cleared and holds a record, and the numbers of the batch fit.
  pub append_log-Assigns :
      (vs : List (List ℕ)) (builder : BatchBuilder) (meta : BatchMeta) (w : Store D)
      → IsChained w.log
      → IsSettled w.log
      → Holds vs builder
      → IsMeta w.log.next_offset meta
      → 1 ≤ length vs
      → Assigns vs w.log (append_log D builder meta w)
  unfolding append_log finish
  append_log-Assigns vs builder meta w c s h m some_record =
      if_intro (λ (f : Run (Store D) (ℕ × BatchBuilder)). Assigns vs w.log (f w))
        (builder.record_count == 0) _ _ (λ _. (c, refl))
        (λ _.
          if_intro (λ (f : Run (Store D) (ℕ × BatchBuilder)). Assigns vs w.log (f w))
            (ltb w.log.segment_max_bytes (size builder.buf)) _ _ (λ _. (c, refl))
            (λ _.
              roomed (make_room D (size builder.buf) w) (make_room-Rooms D (size builder.buf) w)))
    where
      assigned :
          (v : Store D)
          → v.log.next_offset ≡ w.log.next_offset
          → (g : BatchHeader) → next_offset g ≡ add_u64 v.log.next_offset (length vs)
          → (x : Status × Store D) → AppendsTo w.log g x
          → Assigns vs w.log (
              carry_on x (λ u. pure (v.log.next_offset, (finish v.log.next_offset meta builder).1)))
      assigned v e g n (ok u, t) a =
          (e, a.chained, a.settled, a.next ∙ n ∙ ap (λ k. add_u64 k (length vs)) e)
      assigned v e g n (fail d, t) a = a

      behind :
          (v : Store D)
          → IsChained v.log
          → v.log.next_offset ≡ w.log.next_offset
          → Assigns vs w.log (append_framed builder meta v.log v)
      behind v k e =
          let (g, d, b, n) =
            framed_batch-decoded vs builder v.log.next_offset meta h
              (subst (λ x. IsMeta x meta) (sym e) m) some_record in
          subst
            (λ x. Assigns vs w.log (
              carry_on (with_header D (framed_batch v.log.next_offset meta builder) x v)
                (λ u. pure (v.log.next_offset, (finish v.log.next_offset meta builder).1))))
            (sym d)
            (assigned v e g n _ (
              append_active-AppendsTo D (framed_batch v.log.next_offset meta builder) g v w.log k e
                (b ∙ e)))

      roomed :
          (x : Status × Store D)
          → Rooms w.log x
          → Assigns vs w.log (carry_on x (λ u v. append_framed builder meta v.log v))
      roomed (ok u, v) (inl e) = behind v (subst IsChained (sym e) c) (ap (λ l. l.next_offset) e)
      roomed (ok u, v) (inr (g, q, e)) =
          behind v (subst IsChained (sym e) (IsChained-push w.log g c s q))
            (ap (λ l. l.next_offset) e)
      roomed (fail d, v) e = (subst IsChained (sym e) c, ap (λ l. l.next_offset) e)
