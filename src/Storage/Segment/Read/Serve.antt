-- ===== src/Storage/Segment/Read/Serve.antt =====
-- src/storage/segment.cpp: a read serves whole and valid batches, the first of which contains the
-- wanted offset.
use log_engine.Prelude.{
  ℕ, zero, suc, ◌+◌, ◌-◌, ◌≤◌, min, ◌≡◌, refl, not, List, [], arith, ltb, leb, if_intro, length,
  take, drop,
}
use log_engine.Base.Error.{Result, ok, fail}
use log_engine.Io.Disk.{Disk, Run}
use log_engine.Io.Disk.Rules.{bind_lem}
use log_engine.Storage.RecordBatch.{
  batch_header_bytes, BatchHeader, total_bytes, decode_header, validate_batch,
}
use log_engine.Storage.Segment.{Segment, is_ok}
use log_engine.Storage.Segment.Read.{whole_turn, whole_batches, served, read_batches, read_segment}
use log_engine.Storage.Segment.Valid.{is_ok_lem}

-- The first `n` of the bytes are batches, each of them valid.
pub data AreValid (got : List ℕ) : ℕ → Type 0 where
  no_more : {n : ℕ} → n ≡ 0 → AreValid got n
  one_valid :
      {n m : ℕ}
      → AreValid got n
      → (h : BatchHeader) → decode_header (drop n got) ≡ ok h
      → n + total_bytes h ≤ length got
      → validate_batch (drop n got) ≡ ok tt
      → m ≡ n + total_bytes h
      → AreValid got m

-- What the loop over the bytes gives.
abbrev pub Accepts : List ℕ → Result ℕ → Type 0
Accepts got (ok n) = AreValid got n
Accepts got (fail c) = Unit {0}

whole_turn-Accepts :
    (got : List ℕ) (whole : ℕ) (again : ℕ → Result ℕ) (r : Result BatchHeader)
    → AreValid got whole
    → ((n : ℕ) → AreValid got n → Accepts got (again n))
    → decode_header (drop whole got) ≡ r
    → Accepts got (whole_turn got whole again r)
unfolding whole_turn
whole_turn-Accepts got whole again (fail c) v ih d = tt
whole_turn-Accepts got whole again (ok h) v ih d =
    if_intro (Accepts got) (ltb (length got) (whole + total_bytes h)) _ _ (λ _. v)
      (λ l.
        if_intro (Accepts got) (not (is_ok (validate_batch (drop whole got)))) _ _ (λ _. tt)
          (λ k. ih _ (one_valid v h d (ground arith) (is_ok_lem _ k) refl)))

whole_batches-Accepts :
    (turns : ℕ) (got : List ℕ) (whole : ℕ)
    → AreValid got whole
    → Accepts got (whole_batches turns got whole)
unfolding whole_batches
whole_batches-Accepts zero got whole v = v
whole_batches-Accepts (suc turns) got whole v =
    if_intro (Accepts got) (not (leb (whole + batch_header_bytes) (length got))) _ _ (λ _. v)
      (λ _.
        whole_turn-Accepts got whole (whole_batches turns got) _ v
          (λ n w. whole_batches-Accepts turns got n w) refl)

-- The bytes are valid batches that were read from the disk.
abbrev pub ServesValid : Result (List ℕ) → Type 0
ServesValid (ok bytes) =
    (got : List ℕ) × (whole : ℕ) × (bytes ≡ take whole got) × AreValid got whole
ServesValid (fail c) = Unit {0}

served-ServesValid : (got : List ℕ) (r : Result ℕ) → Accepts got r → ServesValid (served got r)
served-ServesValid got (ok n) v = (got, n, refl, v)
served-ServesValid got (fail c) v = tt

pub nothing_served : ServesValid (ok [])
nothing_served = ([], 0, refl, no_more refl)

-- Whatever the disk returns, and in whatever state the segment is, a read that succeeds serves whole
-- batches only, each of which is valid.
pub read_segment-ServesValid :
    (D : Disk) (s : D.State) (g : Segment) (offset out_size : ℕ)
    → ServesValid (read_segment D g offset out_size s).0
unfolding read_segment read_batches
read_segment-ServesValid D s g offset out_size =
    if_intro (λ (m : Run D.State (List ℕ)). ServesValid (m s).0) (leb g.next_offset offset) _ _
      (λ _. nothing_served)
      (λ _.
        bind_lem (λ (x : Result (List ℕ) × D.State). ServesValid x.0) _ (read_batches D g out_size)
          (λ found _. batches found _) (λ c _. tt))
  where
    batches : (found : ℕ × ℕ) (r : D.State) → ServesValid (read_batches D g out_size found r).0
    batches (pos, total) r =
        if_intro (λ (m : Run D.State (List ℕ)). ServesValid (m r).0) (leb g.size_bytes pos) _ _
          (λ _. nothing_served)
          (λ _.
            if_intro (λ (m : Run D.State (List ℕ)). ServesValid (m r).0) (ltb out_size total) _ _
              (λ _. tt)
              (λ _.
                bind_lem (λ (x : Result (List ℕ) × D.State). ServesValid x.0)
                  (D.pread g.log_file (min (g.size_bytes - pos) out_size) pos r) _
                  (λ got _.
                    served-ServesValid got _
                      (whole_batches-Accepts (length got) got 0 (no_more refl)))
                  (λ c _. tt)))
