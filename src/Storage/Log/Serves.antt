-- ===== src/Storage/Log/Serves.antt =====
-- src/storage/log.cpp: Log::read serves whole and valid batches.
use log_engine.Prelude.{
  ℕ, ◌≤◌, ◌<◌, ◌≡◌, refl, ◌⊎◌, inl, inr, List, [], ◌∷◌, arith, ltb, leb, if◌then◌else◌, if_intro,
  length,
}
use log_engine.Base.Error.{offset_out_of_range, Result, ok, fail}
use log_engine.Io.Disk.{Disk, Run, pure, carry_on}
use log_engine.Storage.Log.{Log}
use log_engine.Storage.Log.Read.{owners, read_owners, read_log}
use log_engine.Storage.Segment.{Segment}
use log_engine.Storage.Segment.Read.{read_segment}
use log_engine.Storage.Segment.Read.Serve.{ServesValid, nothing_served, read_segment-ServesValid}

module _ (D : Disk) where
  read_owners-ServesValid :
      (offset out_size : ℕ) (gs : List Segment) (s : D.State)
      → ServesValid (read_owners D offset out_size gs s).0
  unfolding read_owners
  read_owners-ServesValid offset out_size [] s = nothing_served
  read_owners-ServesValid offset out_size (g ∷ gs) s =
      tried (read_owners-ServesValid offset out_size gs) (read_segment D g offset out_size s)
        (read_segment-ServesValid D s g offset out_size)
    where
      tried :
          ((r : D.State) → ServesValid (read_owners D offset out_size gs r).0)
          → (x : Result (List ℕ) × D.State) → ServesValid x.0
          → ServesValid
              (carry_on x (λ got.
                if ltb 0 (length got) then pure got else read_owners D offset out_size gs)).0
      tried f (ok got, r) v =
          if_intro (λ (m : Run D.State (List ℕ)). ServesValid (m r).0) (ltb 0 (length got)) _ _
            (λ _. v) (λ _. f r)
      tried f (fail c, r) v = tt

  -- What a read gives, by where the offset is.
  abbrev pub ServesLog : Log → ℕ → D.State → Result (List ℕ) × D.State → Type 0
  ServesLog l offset s x =
      ((l.next_offset ≤ offset) × (x ≡ (ok [], s)))
      ⊎ (((offset < l.next_offset)
            × (offset < l.start_offset)
            × (x ≡ (fail offset_out_of_range, s)))
          ⊎ ((l.start_offset ≤ offset) × (offset < l.next_offset) × ServesValid x.0))

  -- On any disk, a read at or past the end of the log gives nothing, one below its start fails as out
  -- of range, and what any other serves are whole batches, each of them valid.
  pub read_log-ServesLog :
      (l : Log) (offset out_size : ℕ) (s : D.State)
      → ServesLog l offset s (read_log D l offset out_size s)
  unfolding read_log
  read_log-ServesLog l offset out_size s =
      if_intro (λ (m : Run D.State (List ℕ)). ServesLog l offset s (m s)) (leb l.next_offset offset)
        _ _ (λ h. inl (ground arith, refl))
        (λ g.
          if_intro (λ (m : Run D.State (List ℕ)). ServesLog l offset s (m s))
            (ltb offset l.start_offset) _ _ (λ k. inr (inl (ground arith, ground arith, refl)))
            (λ k. inr (
              inr (
                ground arith,
                ground arith,
                read_owners-ServesValid offset out_size (owners offset (l.active ∷ l.older) []) s,
              ))))
