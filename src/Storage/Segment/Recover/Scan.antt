-- ===== src/Storage/Segment/Recover/Scan.antt =====
-- src/storage/segment.cpp: the scan of Segment::recover finds the batches from where it starts up to
-- the first that is missing, torn or out of order.
use log_engine.Prelude.{
  ℕ, zero, suc, ◌+◌, ◌≤◌, ◌<◌, ◌≡◌, refl, sym, ap, subst, ◌∙◌, ◌≢◌, true, not, Option, none, some,
  List, arith, ltb, ◌==◌, if_intro, length, take, drop, length-drop, length-take_within, IsU32,
  sub_u32,
}
use log_engine.Base.Error.{Result, ok, fail}
use log_engine.Io.Disk.{Disk, Run}
use log_engine.Io.Disk.Laws.{View, Keeps, IsDisk}
use log_engine.Io.Disk.Rules.{Keeps-refl, Keeps-trans, pread_rule}
use log_engine.Storage.Batches.{BatchAt, Batches, one_more, Ends, Batches-le}
use log_engine.Storage.Batches.Header.{decode_header_bounds}
use log_engine.Storage.RecordBatch.{
  batch_header_bytes, BatchHeader, total_bytes, decode_header, validate_batch,
}
use log_engine.Storage.RecordBatch.Records.{body}
use log_engine.Storage.Segment.{Segment, header_in, is_ok}
use log_engine.Storage.Segment.Recover.{ScanState, scan_body, scan_batch, scan}
use log_engine.Storage.Segment.Valid.{is_ok_lem}

header_in-none : (got : List ℕ) (h : BatchHeader) → header_in got ≡ none → decode_header got ≢ ok h
unfolding header_in decode_header
header_in-none got h e d = ground (arith, d)

header_in-some :
    (got : List ℕ) (h : BatchHeader) → header_in got ≡ some h → decode_header got ≡ ok h
unfolding header_in
header_in-some got h e = ground arith

same_header : (r : Result BatchHeader) (h k : BatchHeader) → r ≡ ok h → r ≡ ok k → h ≡ k
same_header r h k p q = cc

module _ {D : Disk} {V : View D} (L : IsDisk V) (g : Segment) (p b : List ℕ) where
  abbrev pub Scanned : D.State → Result ScanState × D.State → Type 0
  Scanned s (ok st, r) =
      Keeps V s r × Batches b g.base_offset st.pos st.expect_offset × Ends b st.pos st.expect_offset
  Scanned s (fail c, r) = Keeps V s r × (¬ V.IsHealthy s)

  Scanned-from :
      (s r : D.State) (x : Result ScanState × D.State) → Keeps V s r → Scanned r x → Scanned s x
  Scanned-from s r (ok st, t) k h = (Keeps-trans k h.0, h.1, h.2)
  Scanned-from s r (fail c, t) k h = (Keeps-trans k h.0, λ w. h.1 (k.health w))

  abbrev pub Turns : ℕ → Type 0
  Turns turns =
      (st : ScanState) (s : D.State)
      → V.Opens s g.log_file p
      → V.Stores s p b
      → Batches b g.base_offset st.pos st.expect_offset
      → length b ≤ st.pos + turns
      → Scanned s (scan D g (length b) turns st s)

  -- No batch stands where the bytes that are left are fewer than a header.
  Ends-short : (pos expect : ℕ) → length b ≤ pos → Ends b pos expect
  Ends-short pos expect l h a =
      let t = decode_header_bounds _ h a.decodes in let i = a.inside in absurd (omega arith)

  module _ (small : IsU32 (length b)) (turns : ℕ) (again : Turns turns) (st : ScanState)
      (s : D.State) (opened : V.Opens s g.log_file p) (stored : V.Stores s p b)
      (so_far : Batches b g.base_offset st.pos st.expect_offset)
      (enough : length b ≤ st.pos + suc turns) where
    module _ (h : BatchHeader)
        (decodes : decode_header (take batch_header_bytes (drop st.pos b)) ≡ ok h) where
      -- A batch that stands here has this header.
      this_header : (k : BatchHeader) → BatchAt b st.pos st.expect_offset k → k ≡ h
      this_header k a = same_header _ k h a.decodes decodes

      not_inside : length b < st.pos + total_bytes h → Ends b st.pos st.expect_offset
      not_inside l k a =
          let i = subst (λ x. st.pos + total_bytes x ≤ length b) (this_header k a) a.inside in
          absurd (omega arith)

      scan_body-Scanned :
          (r : D.State) (body : List ℕ)
          → Keeps V s r
          → st.pos + total_bytes h ≤ length b
          → body ≡ take (total_bytes h) (drop st.pos b)
          → Scanned s (scan_body D g (scan D g (length b) turns) st h body r)
      unfolding scan_body
      scan_body-Scanned r body k i e =
          if_intro (λ (f : Run D.State ScanState). Scanned s (f r))
            (ltb (length body) (total_bytes h)) _ _ (λ t. absurd (ground (arith, long)))
            (λ t.
              if_intro (λ (f : Run D.State ScanState). Scanned s (f r))
                (not (is_ok (validate_batch body))) _ _ (λ n. (k, so_far, invalid n))
                (λ n.
                  if_intro (λ (f : Run D.State ScanState). Scanned s (f r))
                    (not (h.base_offset == st.expect_offset)) _ _ (λ m. (k, so_far, elsewhere m))
                    (λ m.
                      let followed =
                        one_more so_far h
                          (record {
                            decodes = decodes;
                            inside = i;
                            validates = ap validate_batch (sym e) ∙ is_ok_lem _ n;
                            continues = ground arith;
                          })
                          (omega arith) refl in
                      Scanned-from s r _ k (
                        again _ r (k.opens _ _ opened) (k.stores _ _ stored) followed
                          (omega (arith, decode_header_bounds _ h decodes))))))
        where
          long : length body ≡ total_bytes h
          long =
              ap length e
              ∙ length-take_within (total_bytes h) (drop st.pos b)
                  (omega (arith, length-drop st.pos b))

          invalid : not (is_ok (validate_batch body)) ≡ true → Ends b st.pos st.expect_offset
          invalid n x a =
              let v =
                subst (λ y. validate_batch (take (total_bytes y) (drop st.pos b)) ≡ ok tt)
                  (this_header x a) a.validates in
              absurd (ground (arith, n, ap is_ok (ap validate_batch e ∙ v)))

          elsewhere :
              not (h.base_offset == st.expect_offset) ≡ true → Ends b st.pos st.expect_offset
          elsewhere m x a =
              let c = subst (λ y. y.base_offset ≡ st.expect_offset) (this_header x a) a.continues in
              absurd (ground (arith, m, c))

    scan_batch-Scanned :
        (o : Option BatchHeader)
        → header_in (take batch_header_bytes (drop st.pos b)) ≡ o
        → Scanned s (scan_batch D g (length b) (scan D g (length b) turns) st o s)
    unfolding scan_batch
    scan_batch-Scanned none e = (Keeps-refl s, so_far, λ h a. header_in-none _ h e a.decodes)
    scan_batch-Scanned (some h) e =
        let d = header_in-some _ h e in
        let w = Batches-le so_far in
        if_intro (λ (f : Run D.State ScanState). Scanned s (f s))
          (ltb (sub_u32 (length b) st.pos) (total_bytes h)) _ _
          (λ t. (Keeps-refl s, so_far, not_inside h d (ground arith)))
          (λ t.
            pread_rule L (Scanned s) g.log_file (total_bytes h) st.pos s p b _ opened stored
              (λ r k. scan_body-Scanned h d r _ k (ground arith) refl) (λ c r k q. (k, q)))

  pub scan-Scanned : IsU32 (length b) → (turns : ℕ) → Turns turns
  unfolding scan
  scan-Scanned small zero st s o t c n =
      (Keeps-refl s, c, Ends-short st.pos st.expect_offset (omega arith))
  scan-Scanned small (suc turns) st s o t c n =
      if_intro (λ (f : Run D.State ScanState). Scanned s (f s)) (not (ltb st.pos (length b))) _ _
        (λ x. (Keeps-refl s, c, Ends-short st.pos st.expect_offset (ground arith)))
        (λ x.
          pread_rule L (Scanned s) g.log_file batch_header_bytes st.pos s p b _ o t
            (λ r k. Scanned-from s r _ k (
              scan_batch-Scanned small turns (scan-Scanned small turns) st r (k.opens _ _ o)
                (k.stores _ _ t) c n (header_in (take batch_header_bytes (drop st.pos b))) refl))
            (λ c r k q. (k, q)))
