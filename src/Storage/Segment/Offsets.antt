-- ===== src/Storage/Segment/Offsets.antt =====
-- src/storage/segment.cpp: the offsets of a segment after an operation, on any disk.
use log_engine.Storage.RecordBatch.{next_offset as offset_after}
use log_engine.Prelude.{
  ℕ, ◌≤◌, ◌≡◌, refl, ◌⊎◌, inl, inr, Bool, not, List, arith, ltb, leb, ◌==◌, if_intro, length,
  to_u32, sub_u32,
}
use log_engine.Base.Error.{Result, ok, fail}
use log_engine.Io.Disk.{mode_create, Disk, Run, carry_on}
use log_engine.Io.Disk.Rules.{bind_lem}
use log_engine.Storage.FileNames.{log_name, join}
use log_engine.Storage.RecordBatch.{BatchHeader}
use log_engine.Storage.Segment.{Segment, relative, append_batch}
use log_engine.Storage.Segment.Cut.{find_cut, cut_at, truncate_to}
use log_engine.Storage.Segment.Recover.{
  ScanState, scan_from, recovered, new_segment, read_index, choose_start, scan, cut_tail,
  recover_from, recover_sized, recover, or_close, open_segment,
}
use log_engine.Storage.SparseIndex.{lookup_index}

abbrev pub Continues : Segment → BatchHeader → Result Segment → Type 0
Continues g h (ok g') =
    (g'.base_offset ≡ g.base_offset)
    × (h.base_offset ≡ g.next_offset)
    × (g'.next_offset ≡ offset_after h)
Continues g h (fail c) = Unit {0}

abbrev pub BasedAt : ℕ → Result Segment → Type 0
BasedAt base (ok g) = g.base_offset ≡ base
BasedAt base (fail c) = Unit {0}

-- The segment ends at the offset, if it went past it.
abbrev pub EndsAt : ℕ → Segment → Result Segment → Type 0
EndsAt offset g (ok g') =
    (g'.base_offset ≡ g.base_offset)
    × (((g.next_offset ≤ offset) × (g'.next_offset ≡ g.next_offset)) ⊎ (g'.next_offset ≡ offset))
EndsAt offset g (fail c) = Unit {0}

module _ (D : Disk) where
  pub append_batch-Continues :
      (framed : List ℕ) (h : BatchHeader) (g : Segment) (s : D.State)
      → Continues g h (append_batch D framed h g s).0
  unfolding append_batch
  append_batch-Continues framed h g s =
      if_intro (λ (m : Run D.State Segment). Continues g h (m s).0)
        (not (h.base_offset == g.next_offset)) _ _ (λ _. tt)
        (λ e.
          if_intro (λ (m : Run D.State Segment). Continues g h (m s).0)
            (ltb (sub_u32 g.max_bytes g.size_bytes) (length framed)) _ _ (λ _. tt)
            (λ _.
              bind_lem (λ (x : Result Segment × D.State). Continues g h x.0)
                (D.pwrite g.log_file framed g.size_bytes s) _
                (λ n _.
                  if_intro
                    (λ (m : Run D.State Segment).
                      Continues g h (m (D.pwrite g.log_file framed g.size_bytes s).1).0)
                    (not (n == length framed)) _ _ (λ _. tt) (λ _. (refl, ground arith, refl)))
                (λ c _. tt)))

  cut_tail-BasedAt :
      (g : Segment) (n : ℕ) (usable : Bool) (st : ScanState) (s : D.State)
      → BasedAt g.base_offset (cut_tail D g n usable st s).0
  unfolding cut_tail recovered
  cut_tail-BasedAt g n usable st s =
      if_intro (λ (m : Run D.State Segment). BasedAt g.base_offset (m s).0) (ltb st.pos n) _ _
        (λ _.
          bind_lem (λ (x : Result Segment × D.State). BasedAt g.base_offset x.0)
            (D.truncate g.log_file st.pos s) _ (λ _ _. refl) (λ c _. tt))
        (λ _. refl)

  recover-BasedAt : (g : Segment) (s : D.State) → BasedAt g.base_offset (recover D g s).0
  unfolding recover recover_sized recover_from
  recover-BasedAt g s =
      bind_lem Based (D.file_size g.log_file s, s) _
        (λ n _.
          if_intro (λ (m : Run D.State Segment). Based (m s)) (ltb g.max_bytes n) _ _ (λ _. tt)
            (λ _.
              bind_lem Based (read_index D g.index_path (to_u32 n) s) _
                (λ es _.
                  bind_lem Based (choose_start D g (length es) es _) _
                    (λ start _.
                      bind_lem Based (scan D g (to_u32 n) (to_u32 n) (scan_from g start) _) _
                        (λ st _. cut_tail-BasedAt g (to_u32 n) _ st _) (λ c _. tt))
                    (λ c _. tt))
                (λ c _. tt)))
        (λ c _. tt)
    where
      Based : Result Segment × D.State → Type 0
      Based x = BasedAt g.base_offset x.0

  pub open_segment-BasedAt :
      (dir : List ℕ) (base max_bytes interval : ℕ) (s : D.State)
      → BasedAt base (open_segment D dir base max_bytes interval s).0
  unfolding open_segment
  open_segment-BasedAt dir base max_bytes interval s =
      bind_lem (λ (x : Result Segment × D.State). BasedAt base x.0)
        (D.open_file (join dir (log_name base)) mode_create s) _
        (λ file _. closed file _ (recover-BasedAt (new_segment dir base max_bytes interval file) _))
        (λ c _. tt)
    where
      closed :
          (file : ℕ) (x : Result Segment × D.State)
          → BasedAt base x.0
          → BasedAt base (carry_on (ok x.0, x.1) (or_close D file)).0
      closed file (ok g, r) e = e
      closed file (fail c, r) e = tt

  cut_at-EndsAt :
      (g : Segment) (offset cut : ℕ) (s : D.State) → EndsAt offset g (cut_at D g offset cut s).0
  unfolding cut_at
  cut_at-EndsAt g offset cut s =
      bind_lem (λ (x : Result Segment × D.State). EndsAt offset g x.0) (D.truncate g.log_file cut s)
        _ (λ _ _. (refl, inr refl)) (λ c _. tt)

  pub truncate_to-EndsAt :
      (g : Segment) (offset : ℕ) (s : D.State) → EndsAt offset g (truncate_to D g offset s).0
  unfolding truncate_to
  truncate_to-EndsAt g offset s =
      if_intro (λ (m : Run D.State Segment). EndsAt offset g (m s).0) (leb g.next_offset offset) _ _
        (λ h. (refl, inl (ground arith, refl)))
        (λ _.
          if_intro (λ (m : Run D.State Segment). EndsAt offset g (m s).0) (leb offset g.base_offset)
            _ _ (λ _. cut_at-EndsAt g offset 0 s)
            (λ _.
              bind_lem (λ (x : Result Segment × D.State). EndsAt offset g x.0)
                (find_cut D g offset g.size_bytes
                  (lookup_index g.index (relative g offset)).file_pos s)
                _ (λ cut _. cut_at-EndsAt g offset cut _) (λ c _. tt)))
