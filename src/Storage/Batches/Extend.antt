-- ===== src/Storage/Batches/Extend.antt =====
-- The batches of a file depend only on the bytes that they fill, and one more may follow them.
use log_engine.Prelude.{
  ℕ, ◌+◌, ◌≤◌, ◌≡◌, sym, ap, ◌∙◌, List, ◌++◌, arith, length, take, drop, length-append, length-drop,
  take_front, take-append, take_inside,
}
use log_engine.Base.Error.{ok}
use log_engine.Storage.Batches.{BatchAt, Batches, no_batch, one_more}
use log_engine.Storage.Batches.Header.{decode_header-take, decode_header_bounds}
use log_engine.Storage.RecordBatch.{BatchHeader, total_bytes, decode_header, validate_batch}

-- Two files that agree on their first `n` bytes have the same batches there.
module _ (b c : List ℕ) (n : ℕ) (same : take n b ≡ take n c) (long : n ≤ length c) where
  same_inside : (pos k : ℕ) → pos + k ≤ n → take k (drop pos b) ≡ take k (drop pos c)
  same_inside pos k h =
      sym (take_inside n pos k b h) ∙ ap (λ l. take k (drop pos l)) same ∙ take_inside n pos k c h

  pub BatchAt-same :
      (pos expect : ℕ) (h : BatchHeader)
      → pos + total_bytes h ≤ n
      → BatchAt b pos expect h
      → BatchAt c pos expect h
  BatchAt-same pos expect h w a =
      let t = decode_header_bounds _ h a.decodes in
      record {
        decodes = ap decode_header (sym (same_inside pos 52 (omega arith))) ∙ a.decodes;
        inside = omega arith;
        validates = ap validate_batch (sym (same_inside pos (total_bytes h) w)) ∙ a.validates;
        continues = a.continues;
      }

  pub Batches-same :
      {base pos expect : ℕ} → pos ≤ n → Batches b base pos expect → Batches c base pos expect
  Batches-same w (no_batch p e) = no_batch p e
  Batches-same w (one_more r h a p e) =
      one_more (Batches-same (omega arith) r) h (BatchAt-same _ _ h (omega arith) a) p e

-- A framed batch that stands at a position.
pub BatchAt-here :
    (b framed rest : List ℕ) (pos expect : ℕ) (h : BatchHeader)
    → drop pos b ≡ framed ++ rest
    → pos ≤ length b
    → decode_header framed ≡ ok h
    → length framed ≡ total_bytes h
    → validate_batch framed ≡ ok tt
    → h.base_offset ≡ expect
    → BatchAt b pos expect h
BatchAt-here b framed rest pos expect h at p d l v e =
    let t = decode_header_bounds _ h d in
    record {
      decodes =
          ap decode_header (ap (take 52) at ∙ take-append 52 framed rest (omega arith))
          ∙ decode_header-take framed (omega arith)
          ∙ d;
      inside = omega (arith, ap length at, length-drop pos b, length-append framed rest);
      validates =
          ap (λ n. validate_batch (take n (drop pos b))) (sym l)
          ∙ ap (λ q. validate_batch (take (length framed) q)) at
          ∙ ap validate_batch (take_front framed rest)
          ∙ v;
      continues = e;
    }
