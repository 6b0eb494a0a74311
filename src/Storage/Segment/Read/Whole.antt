-- ===== src/Storage/Segment/Read/Whole.antt =====
-- src/storage/segment.cpp: of bytes that were read from where a batch begins, Segment::read serves all
-- the batches that are whole.
use log_engine.Storage.RecordBatch.{next_offset as offset_after}
use log_engine.Prelude.{
  ℕ, zero, suc, ◌+◌, ◌≤◌, ◌<◌, ◌≡◌, refl, sym, ap, subst, ◌∙◌, true, not, List, arith, ltb, leb,
  if_intro, length, take, drop, length-drop, drop-drop, length-take_within, take_inside,
}
use log_engine.Base.Error.{Result, ok, fail}
use log_engine.Storage.Batches.{BatchAt, Batches, one_more, Batches-le}
use log_engine.Storage.Batches.Header.{decode_header-take, decode_header_bounds}
use log_engine.Storage.Batches.Longest.{Batches-next}
use log_engine.Storage.Batches.Validate.{validate_batch-take}
use log_engine.Storage.RecordBatch.{
  batch_header_bytes, BatchHeader, total_bytes, decode_header, validate_batch,
}
use log_engine.Storage.Segment.{is_ok}
use log_engine.Storage.Segment.Read.{whole_turn, whole_batches}

module _ (b : List ℕ) (base size next pos count : ℕ) (all : Batches b base size next)
    (within : pos + count ≤ size) where
  bytes_read : List ℕ
  bytes_read = take count (drop pos b)

  bytes_read-length : length bytes_read ≡ count
  unfolding bytes_read
  bytes_read-length =
      length-take_within count (drop pos b) (omega (arith, Batches-le all, length-drop pos b))

  -- The batches that are served, and no batch behind them that was read whole.
  pub record AllWhole (n : ℕ) : Type 0 where
    pub expect : ℕ
    pub batches : Batches b base (pos + n) expect
    pub inside : n ≤ count
    pub most : (h : BatchHeader) → BatchAt b (pos + n) expect h → count < n + total_bytes h

  abbrev pub Gives : Result ℕ → Type 0
  Gives (ok n) = AllWhole n
  Gives (fail c) = ⊥

  inside_is :
      (whole k : ℕ)
      → whole + k ≤ count
      → take k (drop whole bytes_read) ≡ take k (drop (pos + whole) b)
  unfolding bytes_read
  inside_is whole k h =
      take_inside count whole k (drop pos b) h ∙ ap (take k) (drop-drop pos whole b)

  header_is :
      (whole expect : ℕ) (h : BatchHeader)
      → whole + batch_header_bytes ≤ count
      → BatchAt b (pos + whole) expect h
      → decode_header (drop whole bytes_read) ≡ ok h
  header_is whole expect h w a =
      sym (
        decode_header-take (drop whole bytes_read)
          (omega (arith, length-drop whole bytes_read, bytes_read-length)))
      ∙ ap decode_header (inside_is whole batch_header_bytes w)
      ∙ a.decodes

  valid_is :
      (whole expect : ℕ) (h : BatchHeader)
      → whole + total_bytes h ≤ count
      → BatchAt b (pos + whole) expect h
      → validate_batch (drop whole bytes_read) ≡ ok tt
  valid_is whole expect h w a =
      let d = decode_header_bounds _ h a.decodes in
      sym (
        validate_batch-take (drop whole bytes_read) h (header_is whole expect h (omega arith) a)
          (omega (arith, length-drop whole bytes_read, bytes_read-length)))
      ∙ ap validate_batch (inside_is whole (total_bytes h) w)
      ∙ a.validates

  whole_batches-Gives :
      (turns whole expect : ℕ)
      → Batches b base (pos + whole) expect
      → whole ≤ count
      → count ≤ whole + turns
      → Gives (whole_batches turns bytes_read whole)
  unfolding whole_batches whole_turn
  whole_batches-Gives zero whole expect c i l = record {
    expect = expect;
    batches = c;
    inside = i;
    most = λ h a. let d = decode_header_bounds _ h a.decodes in omega arith;
  }
  whole_batches-Gives (suc turns) whole expect c i l =
      if_intro Gives (not (leb (whole + batch_header_bytes) (length bytes_read))) _ _
        (λ q. record {
          expect = expect;
          batches = c;
          inside = i;
          most = λ h a.
              let d = decode_header_bounds _ h a.decodes in ground (arith, bytes_read-length);
        })
        (λ q.
          let m : whole + batch_header_bytes ≤ count = ground (arith, bytes_read-length) in
          let (h, a, w) = Batches-next c all (omega arith) in
          subst (λ x. Gives (whole_turn bytes_read whole (whole_batches turns bytes_read) x))
            (sym (header_is whole expect h m a))
            (if_intro Gives (ltb (length bytes_read) (whole + total_bytes h)) _ _
              (λ y. record {
                expect = expect;
                batches = c;
                inside = i;
                most = λ k e. let z = only_header h k a e in ground (arith, bytes_read-length, z);
              })
              (λ y.
                let f : whole + total_bytes h ≤ count = ground (arith, bytes_read-length) in
                if_intro Gives (not (is_ok (validate_batch (drop whole bytes_read)))) _ _
                  (λ z. absurd (accepted z (valid_is whole expect h f a)))
                  (λ z.
                    let d = decode_header_bounds _ h a.decodes in
                    whole_batches-Gives turns (whole + total_bytes h) (offset_after h)
                      (one_more c h a (omega arith) refl) f (omega arith)))))
    where
      same_header : {x e : ℕ} (h k : BatchHeader) → BatchAt b x e h → BatchAt b x e k → h ≡ k
      same_header h k a e = cc (a.decodes, e.decodes)

      only_header :
          {x e : ℕ} (h k : BatchHeader)
          → BatchAt b x e h
          → BatchAt b x e k
          → total_bytes h ≡ total_bytes k
      only_header h k a e = ap (λ x. total_bytes x) (same_header h k a e)

      accepted :
          not (is_ok (validate_batch (drop whole bytes_read))) ≡ true
          → validate_batch (drop whole bytes_read) ≡ ok tt
          → ⊥
      accepted z v = ground (arith, ap is_ok v)

  pub whole_batches-AllWhole :
      (expect : ℕ)
      → Batches b base pos expect
      → Gives (whole_batches (length (take count (drop pos b))) (take count (drop pos b)) 0)
  unfolding bytes_read
  whole_batches-AllWhole expect c =
      whole_batches-Gives (length bytes_read) 0 expect
        (subst (λ x. Batches b base x expect) (omega arith) c) (omega arith)
        (omega (arith, bytes_read-length))
