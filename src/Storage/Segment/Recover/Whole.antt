-- ===== src/Storage/Segment/Recover/Whole.antt =====
-- src/storage/segment.cpp: what Segment::recover makes of a file, whatever its bytes are.
use log_engine.Prelude.{
  ℕ, ◌-◌, ◌≤◌, ◌<◌, ◌≡◌, refl, sym, ap, subst, ◌∙◌, ◌⊎◌, inl, inr, Bool, false, List, arith, ltb,
  if_intro, length, take, take-whole, All, IsU32, to_u32,
}
use log_engine.Base.Error.{Result, ok, fail}
use log_engine.Io.Disk.{Disk, Run, carry_on}
use log_engine.Io.Disk.Laws.{View, Keeps, Alters, Measures, IsDisk}
use log_engine.Io.Disk.Rules.{
  Keeps-refl, Keeps-trans, Keeps-Alters, truncate_rule, Keeps-then-Alters,
}
use log_engine.Io.Paths.{is_found}
use log_engine.Storage.Batches.{Batches, Ends, Batches-le}
use log_engine.Storage.Segment.{Segment}
use log_engine.Storage.Segment.Recover.{
  ScanState, Start, scan_from, recovered, read_index, cut_tail, recover_from, recover_sized,
  recover,
}
use log_engine.Storage.Segment.Recover.Choose.{IsTrusted, Started, choose_start-Started}
use log_engine.Storage.Segment.Recover.Index.{Kept, read_index-Kept}
use log_engine.Storage.Segment.Recover.Scan.{Scanned, scan-Scanned}
use log_engine.Storage.SparseIndex.{IndexEntry}

-- The segment after recovery: the batches of the file up to the first that is missing, torn or out
-- of order.
pub record Recovered (g : Segment) (b : List ℕ) (g' : Segment) : Type 0 where
  pub batches : Batches b g.base_offset g'.size_bytes g'.next_offset
  pub ends : Ends b g'.size_bytes g'.next_offset
  pub only : g' ≡ record g {
    index = g'.index;
    size_bytes = g'.size_bytes;
    next_offset = g'.next_offset;
    recovery = g'.recovery;
  }
  pub cut : g'.recovery.truncated ≡ ltb g'.size_bytes (length b)
  pub lost : g'.recovery.bytes_truncated ≡ length b - g'.size_bytes

module _ {D : Disk} {V : View D} (L : IsDisk V) (g : Segment) (p b : List ℕ) where
  abbrev pub Outcome : D.State → Result Segment × D.State → Type 0
  Outcome s (ok g', r) = Recovered g b g' × Alters V s r p (take g'.size_bytes b)
  Outcome s (fail c, r) = Keeps V s r × (¬ V.IsHealthy s)

  cut_tail-Outcome :
      (s : D.State) (usable : Bool) (st : ScanState)
      → IsU32 (length b)
      → V.Opens s g.log_file p
      → V.Stores s p b
      → Batches b g.base_offset st.pos st.expect_offset
      → Ends b st.pos st.expect_offset
      → Outcome s (cut_tail D g (length b) usable st s)
  unfolding cut_tail recovered
  cut_tail-Outcome s usable st small o t c n =
      let w = Batches-le c in
      if_intro (λ (f : Run D.State Segment). Outcome s (f s)) (ltb st.pos (length b)) _ _
        (λ h.
          truncate_rule L (Outcome s) g.log_file st.pos s p b _ o t w
            (λ r k.
              (record { batches = c; ends = n; only = refl; cut = sym h; lost = omega arith }, k))
            (λ c r k q. (k, q)))
        (λ h. (
          record { batches = c; ends = n; only = refl; cut = sym h; lost = ground arith },
          Keeps-Alters s s p _ (Keeps-refl s) (subst (V.Stores s p) (all_of h) t),
        ))
    where
      all_of : ltb st.pos (length b) ≡ false → b ≡ take st.pos b
      all_of h =
          let w = Batches-le c in
          let e : st.pos ≡ length b = ground arith in
          sym (take-whole b) ∙ ap (λ n. take n b) (sym e)

  Outcome-from :
      (s r : D.State) (x : Result Segment × D.State) → Keeps V s r → Outcome r x → Outcome s x
  Outcome-from s r (ok g', t) k h = (h.0, Keeps-then-Alters p _ k h.1)
  Outcome-from s r (fail c, t) k h = (Keeps-trans k h.0, λ w. h.1 (k.health w))

  after_start :
      (s : D.State) (x : Result Start × D.State) (f : Start → Run D.State Segment)
      → Started L g p b s x
      → ((start : Start) (r : D.State)
          → Keeps V s r
          → Batches b g.base_offset (scan_from g start).pos (scan_from g start).expect_offset
          → Outcome s (f start r))
      → Outcome s (carry_on x f)
  after_start s (ok start, r) f h k = k start r h.0 h.1
  after_start s (fail c, r) f h k = absurd h

  after_scan :
      (s : D.State) (x : Result ScanState × D.State) (f : ScanState → Run D.State Segment)
      → Scanned L g p b s x
      → ((st : ScanState) (r : D.State)
          → Keeps V s r
          → Batches b g.base_offset st.pos st.expect_offset
          → Ends b st.pos st.expect_offset
          → Outcome s (f st r))
      → Outcome s (carry_on x f)
  after_scan s (ok st, r) f h k = k st r h.0 h.1 h.2
  after_scan s (fail c, r) f h k = h

  -- The scan and the cut, from whatever the index says.
  recover_from-Outcome :
      (entries : List IndexEntry) (s : D.State)
      → IsU32 (length b)
      → V.Opens s g.log_file p
      → V.Stores s p b
      → All (IsTrusted b g.base_offset) entries
      → Outcome s (recover_from D g (length b) entries s)
  unfolding recover_from
  recover_from-Outcome entries s small o t a =
      after_start s _ _ (choose_start-Started L g p b (length entries) entries s o t a)
        λ start r k c. Outcome-from s r _ k (
          after_scan r _ _
            (scan-Scanned L g p b small (length b) (scan_from g start) r (k.opens _ _ o)
              (k.stores _ _ t) c (omega arith))
            λ st q l d e. Outcome-from r q _ l (
              cut_tail-Outcome q (is_found start.usable) st small (l.opens _ _ (k.opens _ _ o))
                (l.stores _ _ (k.stores _ _ t)) d e))

  abbrev pub Recovers : D.State → Result Segment × D.State → Type 0
  Recovers s (ok g', r) = Recovered g b g' × Alters V s r p (take g'.size_bytes b)
  Recovers s (fail c, r) = Keeps V s r × ((¬ V.IsHealthy s) ⊎ (g.max_bytes < length b))

  Outcome-Recovers :
      (s r : D.State) (x : Result Segment × D.State) → Keeps V s r → Outcome r x → Recovers s x
  Outcome-Recovers s r (ok g', t) k h = (h.0, Keeps-then-Alters p _ k h.1)
  Outcome-Recovers s r (fail c, t) k h = (Keeps-trans k h.0, inl (λ w. h.1 (k.health w)))

  after_index :
      (s : D.State) (x : Result (List IndexEntry) × D.State)
      → IsU32 (length b)
      → V.Opens s g.log_file p
      → V.Stores s p b
      → Kept L s x
      → ((es : List IndexEntry) → x.0 ≡ ok es → All (IsTrusted b g.base_offset) es)
      → Recovers s (carry_on x (recover_from D g (length b)))
  after_index s (ok es, r) small o t k a =
      Outcome-Recovers s r _ k
        (recover_from-Outcome es r small (k.opens _ _ o) (k.stores _ _ t) (a es refl))
  after_index s (fail c, r) small o t k a = absurd k

  -- Recovery keeps the batches at the start of the file up to the first that is missing, torn or out
  -- of order, cuts the file there, and touches no other file. It fails only on an unhealthy disk or
  -- for a file above the bound of the segment, and then every file is as it was. The entries of the
  -- index whose claim holds point behind batches of the file.
  pub recover-Recovers :
      (s : D.State)
      → IsU32 g.max_bytes
      → V.CanOpen s
      → V.Opens s g.log_file p
      → V.Stores s p b
      → ((es : List IndexEntry)
          → (read_index D g.index_path (length b) s).0 ≡ ok es
          → All (IsTrusted b g.base_offset) es)
      → Recovers s (recover D g s)
  unfolding recover recover_sized
  recover-Recovers s small room o t a =
      sized (D.file_size g.log_file s) (L.file_size-Measures g.log_file s p b o t)
    where
      within : length b ≤ g.max_bytes → to_u32 (length b) ≡ length b
      within h = omega arith

      sized : (m : Result ℕ) → Measures V s b m → Recovers s (carry_on (m, s) (recover_sized D g))
      sized (fail c) w = (Keeps-refl s, inl w)
      sized (ok n) w =
          subst (λ x. Recovers s (recover_sized D g x s)) (sym w)
            (if_intro (λ (f : Run D.State Segment). Recovers s (f s)) (ltb g.max_bytes (length b)) _
              _ (λ h. (Keeps-refl s, inr (ground arith)))
              (λ h.
                subst
                  (λ k. Recovers s (carry_on (read_index D g.index_path k s) (recover_from D g k)))
                  (sym (within (ground arith)))
                  (after_index s (read_index D g.index_path (length b) s)
                    (omega (arith, within (ground arith))) o t
                    (read_index-Kept L g.index_path (length b) s room) a)))
