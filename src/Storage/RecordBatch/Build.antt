-- ===== src/Storage/RecordBatch/Build.antt =====
-- src/storage/record_batch.cpp: the builder holds the records that were added, in their order.
use log_engine.Prelude.{
  ℕ, ◌+◌, ◌*◌, ◌≤◌, ◌<◌, ◌≡◌, refl, sym, ap, ◌∙◌, false, List, [], ◌∷◌, ◌++◌, arith, ltb, if_intro,
  length, replicate, length-append, All, IsU32, to_u32, add_u32,
}
use mathlib.Core.List.{append-nil, append_assoc}
use log_engine.Base.Buffer.{size, clear, append_uninitialized}
use log_engine.Base.Buffer.View.{append_lem, append_u32_le_lem}
use log_engine.Base.Endian.{split_u32}
use log_engine.Base.Error.{message_too_large, ok, fail, Status}
use log_engine.Storage.RecordBatch.{
  batch_header_bytes, max_batch_bytes, BatchBuilder, clear_builder, add_record,
}
use log_engine.Storage.RecordBatch.Records.{record_bytes, body}

-- The builder holds these records: it was cleared and they were added, in this order.
pub record Holds (vs : List (List ℕ)) (b : BatchBuilder) : Type 0 where
  pub front : b.buf.read_pos ≡ 0
  pub bytes : b.buf.bytes ≡ replicate batch_header_bytes 0 ++ body vs
  pub count : b.record_count ≡ length vs
  pub small : length (body vs) + batch_header_bytes ≤ max_batch_bytes
  pub sizes : All (λ v. IsU32 (length v)) vs

pub clear_builder-Holds : (b : BatchBuilder) → Holds [] (clear_builder b)
unfolding clear_builder clear append_uninitialized
clear_builder-Holds b = record {
  front = refl;
  bytes = refl;
  count = refl;
  small = omega arith;
  sizes = tt;
}

body-append : (us vs : List (List ℕ)) → body (us ++ vs) ≡ body us ++ body vs
body-append [] vs = refl
body-append (u ∷ us) vs =
    ap (λ t. record_bytes u ++ t) (body-append us vs)
    ∙ sym (append_assoc (record_bytes u) (body us) (body vs))

pub count_small : (vs : List (List ℕ)) → 4 * length vs ≤ length (body vs)
count_small [] = omega arith
count_small (v ∷ vs) = omega (arith, length-append v (body vs), count_small vs)

All-snoc {ℓ κ} :
    {A : Type ℓ} (P : A → Type κ) (xs : List A) (a : A) → All P xs → P a → All P (xs ++ (a ∷ []))
All-snoc P [] a h p = (p, tt)
All-snoc P (x ∷ xs) a h p = (h.0, All-snoc P xs a h.1 p)

-- A record that fits is held after the others; one that does not fit is refused and changes nothing.
abbrev pub Added : List (List ℕ) → List ℕ → BatchBuilder → Status × BatchBuilder → Type 0
Added vs v b (ok u, c) = Holds (vs ++ (v ∷ [])) c
Added vs v b (fail e, c) =
    (e ≡ message_too_large)
    × (c ≡ b)
    × (max_batch_bytes < batch_header_bytes + length (body vs) + 4 + length v)

add_record-Added :
    (vs : List (List ℕ)) (v : List ℕ) (b : BatchBuilder)
    → Holds vs b
    → Added vs v b (add_record v b)
unfolding add_record
add_record-Added vs v b h =
    if_intro (Added vs v b) (ltb max_batch_bytes (size b.buf + (4 + length v))) _ _
      (λ p. (refl, refl, ground (arith, held)))
      λ p.
        if_intro (Added vs v b) (ltb max_batch_bytes (length v)) _ _
          (λ q. (refl, refl, ground (arith, held)))
          (λ q.
            rw
              (
                append_u32_le_lem (to_u32 (length v)) b.buf,
                append_lem v
                    (record b.buf { bytes = b.buf.bytes ++ split_u32 (to_u32 (length v)) }),
              )
              (record {
                front = h.front;
                bytes = more;
                count = counted q;
                small = fits p;
                sizes = All-snoc (λ u. IsU32 (length u)) vs v h.sizes (ground arith);
              }))
  where
    held : size b.buf ≡ batch_header_bytes + length (body vs)
    held = rw (h.front, h.bytes) (omega arith)

    body_more : body (vs ++ (v ∷ [])) ≡ body vs ++ record_bytes v
    body_more = body-append vs (v ∷ []) ∙ ap (λ t. body vs ++ t) (append-nil (record_bytes v))

    more :
        b.buf.bytes ++ split_u32 (to_u32 (length v)) ++ v
        ≡ replicate batch_header_bytes 0 ++ body (vs ++ (v ∷ []))
    more =
        rw (body_more, h.bytes)
          (ap (λ t. replicate batch_header_bytes 0 ++ t)
            (append_assoc (body vs) (split_u32 (to_u32 (length v))) v))

    fits :
        ltb max_batch_bytes (size b.buf + (4 + length v)) ≡ false
        → length (body (vs ++ (v ∷ []))) + batch_header_bytes ≤ max_batch_bytes
    fits p = ground (arith, held, ap length body_more, length-append (body vs) (record_bytes v))

    counted :
        ltb max_batch_bytes (length v) ≡ false → add_u32 b.record_count 1 ≡ length (vs ++ (v ∷ []))
    counted q = omega (arith, h.count, length-append vs (v ∷ []), count_small vs, h.small)
