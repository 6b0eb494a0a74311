-- ===== src/Storage/RecordBatch/Records.antt =====
-- src/storage/record_batch.cpp: the records behind the header, one after the other.
use log_engine.Prelude.{
  ℕ, zero, suc, ◌+◌, ◌-◌, ◌≤◌, ◌≡◌, refl, sym, ap, ◌∙◌, Option, none, some, List, [], ◌∷◌, ◌++◌,
  arith, lt→ltb, le→not-ltb, length, take, drop, length-append, drop-drop, take_front, drop_front,
  All, IsU32, to_u32,
}
use mathlib.Core.List.{append_assoc}
use native.Mathlib.Nat.{mod-eq_of_lt}
use log_engine.Base.Endian.{split_u32, load_u32_le}
use log_engine.Base.Endian.RoundTrip.{join_u32-split, load_u32_le-drop}
use log_engine.Storage.RecordBatch.{walk_records, RecordIterator, next_record}

-- The bytes of the records.
abbrev pub record_bytes : List ℕ → List ℕ
record_bytes v = split_u32 (to_u32 (length v)) ++ v

abbrev pub body : List (List ℕ) → List ℕ
body [] = []
body (v ∷ vs) = record_bytes v ++ body vs

abbrev gather : Option (List ℕ) → List (List ℕ) → List (List ℕ)
gather none vs = []
gather (some v) vs = v ∷ vs

-- All that the iterator gives out, `n` turns of it.
unfoldable pub read_records : ℕ → RecordIterator → List (List ℕ)
read_records zero it = []
read_records (suc n) it = gather (next_record it).0 (read_records n (next_record it).1)

load_length : (v q : List ℕ) → IsU32 (length v) → load_u32_le (record_bytes v ++ q) 0 ≡ length v
unfolding load_u32_le
load_length v q h = join_u32-split (to_u32 (length v)) (omega arith) ∙ mod-eq_of_lt h

module _ (framed rest : List ℕ) where
  -- The place of the record `v`, with `vs` and `rest` after it.
  module _ (pos : ℕ) (v : List ℕ) (vs : List (List ℕ)) (h : IsU32 (length v))
      (e : drop pos framed ≡ body (v ∷ vs) ++ rest) where
    at_record : drop pos framed ≡ record_bytes v ++ (body vs ++ rest)
    at_record = e ∙ append_assoc (record_bytes v) (body vs) rest

    length_there : load_u32_le framed pos ≡ length v
    length_there =
        load_u32_le-drop framed pos
        ∙ ap (λ p. load_u32_le p 0) at_record
        ∙ load_length v (body vs ++ rest) h

    value_place : drop (pos + 4) framed ≡ v ++ (body vs ++ rest)
    value_place = sym (drop-drop pos 4 framed) ∙ ap (drop 4) at_record

    value_there : take (length v) (drop (pos + 4) framed) ≡ v
    value_there = ap (take (length v)) value_place ∙ take_front v (body vs ++ rest)

    next_place : drop (pos + 4 + length v) framed ≡ body vs ++ rest
    next_place =
        sym (drop-drop (pos + 4) (length v) framed)
        ∙ ap (drop (length v)) value_place
        ∙ drop_front v (body vs ++ rest)

    length-step : length (body (v ∷ vs)) ≡ 4 + length v + length (body vs)
    length-step = omega (arith, length-append v (body vs))

  -- The walk over records that fill the batch ends at its end.
  pub walk_records_lem :
      (vs : List (List ℕ)) (pos total : ℕ)
      → All (λ v. IsU32 (length v)) vs
      → drop pos framed ≡ body vs ++ rest
      → total ≡ pos + length (body vs)
      → walk_records framed total (length vs) pos ≡ some total
  unfolding walk_records
  walk_records_lem [] pos total h e t = ap some (sym (omega arith))
  walk_records_lem (v ∷ vs) pos total h e t =
      rw
        (
          length_there pos v vs h.0 e,
          le→not-ltb (total - pos) 4 a,
          le→not-ltb (total - (pos + 4)) (length v) b,
        )
        (walk_records_lem vs (pos + 4 + length v) total h.1 (next_place pos v vs h.0 e) c)
    where
      a : 4 ≤ total - pos
      a = omega (arith, length-step pos v vs h.0 e)

      b : length v ≤ total - (pos + 4)
      b = omega (arith, length-step pos v vs h.0 e)

      c : total ≡ pos + 4 + length v + length (body vs)
      c = omega (arith, length-step pos v vs h.0 e)

  next_record_lem :
      (v : List ℕ) (vs : List (List ℕ)) (pos end_pos : ℕ)
      → IsU32 (length v)
      → drop pos framed ≡ body (v ∷ vs) ++ rest
      → end_pos ≡ pos + length (body (v ∷ vs))
      → next_record (record { framed = framed; pos = pos; end_pos = end_pos })
        ≡ (some v, record { framed = framed; pos = pos + 4 + length v; end_pos = end_pos })
  unfolding next_record
  next_record_lem v vs pos end_pos h e t =
      rw
        (
          le→not-ltb (end_pos - pos) 4 a,
          length_there pos v vs h e,
          le→not-ltb (end_pos - (pos + 4)) (length v) b,
          value_there pos v vs h e,
        )
        refl
    where
      a : 4 ≤ end_pos - pos
      a = omega (arith, length-step pos v vs h e)

      b : length v ≤ end_pos - (pos + 4)
      b = omega (arith, length-step pos v vs h e)

  -- The iterator gives out the records in their order, and then nothing.
  pub read_records_lem :
      (vs : List (List ℕ)) (n pos end_pos : ℕ)
      → length vs ≤ n
      → All (λ v. IsU32 (length v)) vs
      → drop pos framed ≡ body vs ++ rest
      → end_pos ≡ pos + length (body vs)
      → read_records n (record { framed = framed; pos = pos; end_pos = end_pos }) ≡ vs
  unfolding read_records next_record
  read_records_lem [] zero pos end_pos k h e t = refl
  read_records_lem [] (suc n) pos end_pos k h e t =
      rw (read_records, next_record, lt→ltb (end_pos - pos) 4 (omega arith)) refl
  read_records_lem (v ∷ vs) zero pos end_pos k h e t = absurd (omega arith)
  read_records_lem (v ∷ vs) (suc n) pos end_pos k h e t =
      ap (λ r. gather r.0 (read_records n r.1)) (next_record_lem v vs pos end_pos h.0 e t)
      ∙ ap (λ us. v ∷ us)
          (read_records_lem vs n (pos + 4 + length v) end_pos (omega arith) h.1
            (next_place pos v vs h.0 e) (omega (arith, length-step pos v vs h.0 e)))
