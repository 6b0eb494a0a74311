-- ===== src/Storage/Segment/Recover/Choose.antt =====
-- src/storage/segment.cpp: where the scan of Segment::recover starts.
use log_engine.Prelude.{
  ℕ, zero, suc, ◌≡◌, refl, subst, true, Option, none, some, List, arith, if_intro, take, drop, All,
  add_u64,
}
use log_engine.Base.Error.{Result, ok, fail}
use log_engine.Io.Disk.{Disk, Run}
use log_engine.Io.Disk.Laws.{View, Keeps, Reads, IsDisk}
use log_engine.Io.Disk.Rules.{Keeps-refl, Keeps-trans}
use log_engine.Storage.Batches.{Batches, no_batch}
use log_engine.Storage.RecordBatch.{BatchHeader, batch_header_bytes}
use log_engine.Storage.Segment.{Segment, header_in}
use log_engine.Storage.Segment.Recover.{
  Start, claims, claim_of, scan_from, choose_last, choose_start,
}
use log_engine.Storage.SparseIndex.{IndexEntry, back, truncate_index}
use log_engine.Storage.SparseIndex.Kept.{back-All, truncate_index-All}

-- An entry of the index points behind batches of the segment, if the header that the file has there
-- carries the offset of the entry.
abbrev pub IsTrusted : List ℕ → ℕ → IndexEntry → Type 0
IsTrusted b base e =
    (h : BatchHeader)
    → header_in (take batch_header_bytes (drop e.file_pos b)) ≡ some h
    → h.base_offset ≡ add_u64 base e.rel_offset
    → Batches b base e.file_pos (add_u64 base e.rel_offset)

claimed :
    (b : List ℕ) (base : ℕ) (e : IndexEntry) (o : Option BatchHeader)
    → header_in (take batch_header_bytes (drop e.file_pos b)) ≡ o
    → claims base e o ≡ true
    → IsTrusted b base e
    → Batches b base e.file_pos (add_u64 base e.rel_offset)
claimed b base e none q c t = absurd (ground arith)
claimed b base e (some h) q c t = t h q (ground (arith, c))

module _ {D : Disk} {V : View D} (L : IsDisk V) (g : Segment) (p b : List ℕ) where
  abbrev pub Started : D.State → Result Start × D.State → Type 0
  Started s (ok start, r) =
      Keeps V s r
      × Batches b g.base_offset (scan_from g start).pos (scan_from g start).expect_offset
  Started s (fail c, r) = ⊥

  Started-from :
      (s r : D.State) (x : Result Start × D.State) → Keeps V s r → Started r x → Started s x
  Started-from s r (ok start, t) k h = (Keeps-trans k h.0, h.1)
  Started-from s r (fail c, t) k h = h

  claim_holds :
      (s : D.State) (e : IndexEntry) (r : Result (List ℕ))
      → Reads V s b batch_header_bytes e.file_pos r
      → claim_of g.base_offset e r ≡ true
      → claim_of g.base_offset e (ok (take batch_header_bytes (drop e.file_pos b))) ≡ true
  claim_holds s e (ok got) w h = subst (λ x. claim_of g.base_offset e (ok x) ≡ true) w h
  claim_holds s e (fail c) w h = absurd (ground arith)

  abbrev Chooses : (List IndexEntry → Run D.State Start) → Type 0
  Chooses f =
      (es : List IndexEntry) (s : D.State)
      → V.Opens s g.log_file p
      → V.Stores s p b
      → All (IsTrusted b g.base_offset) es
      → Started s (f es s)

  choose_last-Started :
      (again : List IndexEntry → Run D.State Start) (es : List IndexEntry)
      → Chooses again
      → (o : Option IndexEntry) (s : D.State) → back es ≡ o
      → V.Opens s g.log_file p
      → V.Stores s p b
      → All (IsTrusted b g.base_offset) es
      → Started s (choose_last D g again es o s)
  unfolding choose_last
  choose_last-Started again es ih none s q o t a = (Keeps-refl s, no_batch refl refl)
  choose_last-Started again es ih (some e) s q o t a =
      let r = D.pread g.log_file batch_header_bytes e.file_pos s in
      let k = L.pread-Keeps g.log_file batch_header_bytes e.file_pos s in
      let w = L.pread-Reads g.log_file batch_header_bytes e.file_pos s p b o t in
      if_intro (λ (f : Run D.State Start). Started s (f r.1)) (claim_of g.base_offset e r.0) _ _
        (λ h. (k, claimed b g.base_offset e _ refl (claim_holds s e r.0 w h) (back-All _ es e a q)))
        (λ h. Started-from s r.1 _ k (
          ih (truncate_index es e.file_pos) r.1 (k.opens _ _ o) (k.stores _ _ t)
            (truncate_index-All _ es e.file_pos a)))

  pub choose_start-Started : (turns : ℕ) → Chooses (choose_start D g turns)
  unfolding choose_start
  choose_start-Started zero es s o t a = (Keeps-refl s, no_batch refl refl)
  choose_start-Started (suc turns) es s o t a =
      choose_last-Started (choose_start D g turns) es (choose_start-Started turns) (back es) s refl
        o t a
