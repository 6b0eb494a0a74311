-- ===== src/Storage/Log/Opens.antt =====
-- src/storage/log.cpp: Log::open gives a log whose segments continue one another, whatever is on the
-- disk.
use log_engine.Prelude.{ℕ, ◌≡◌, refl, ap, false, List, [], ◌∷◌, arith, if◌then◌else◌, if_intro}
use log_engine.Base.Error.{ErrorCode, Result, ok, fail, Status}
use log_engine.Io.Disk.{Disk, Run, pure, refuse, carry_on, ◌>>=◌, ◌>>◌, perform}
use log_engine.Io.Disk.Rules.{bind_lem}
use log_engine.Storage.Log.{LogRecoveryReport, Log}
use log_engine.Storage.Log.Chain.{IsChain, IsChained, IsSettled}
use log_engine.Storage.Log.Cut.{remove_segment_files}
use log_engine.Storage.Log.Open.{
  Opening, is_hole, no_log_report, count_opened, count_segment, open_next, existing_segment_offsets,
  keep_segments, discard_segments, or_first, recover_log, destroy_log, opened_log, finish_open,
  open_log,
}
use log_engine.Storage.Segment.{Segment}
use log_engine.Storage.Segment.Offsets.{BasedAt, open_segment-BasedAt}
use log_engine.Storage.Segment.Recover.{open_segment}

abbrev pub AreChained : List Segment → Type 0
AreChained [] = Unit {0}
AreChained (g ∷ gs) = IsChain g gs

chained_next :
    (base : ℕ) (g : Segment) (gs : List Segment)
    → AreChained gs
    → is_hole base gs ≡ false
    → g.base_offset ≡ base
    → AreChained (g ∷ gs)
chained_next base g [] c h e = tt
chained_next base g (k ∷ gs) c h e = (ground (arith, e), c)

module _ (D : Disk) (dir : List ℕ) (max_bytes interval : ℕ) where
  abbrev pub KeepsChain : {A : Type 0} → Result A × Opening D → Type 0
  KeepsChain x = AreChained x.1.segments

  open_next-KeepsChain :
      (base : ℕ) (w : Opening D)
      → AreChained w.segments
      → is_hole base w.segments ≡ false
      → KeepsChain (open_next D dir max_bytes interval base w)
  open_next-KeepsChain base w c h =
      opened (open_segment D dir base max_bytes interval w.disk)
        (open_segment-BasedAt D dir base max_bytes interval w.disk)
    where
      opened :
          (x : Result Segment × D.State)
          → BasedAt base x.0
          → KeepsChain (
              carry_on {S = Opening D}
                (x.0, record { disk = x.1; segments = w.segments; report = w.report })
                (λ g. perform (λ v. record v { segments = g ∷ v.segments }) >> pure g))
      opened (ok g, r) e = chained_next base g w.segments c h e
      opened (fail d, r) e = c

  keep_segments-KeepsChain :
      (bases : List ℕ) (w : Opening D)
      → AreChained w.segments
      → KeepsChain (keep_segments D dir max_bytes interval bases w)
  unfolding keep_segments
  keep_segments-KeepsChain [] w c = c
  keep_segments-KeepsChain (base ∷ bases) w c =
      if_intro (λ (m : Run (Opening D) (List ℕ)). KeepsChain (m w)) (is_hole base w.segments) _ _
        (λ _. c) (λ h. next (keep_segments-KeepsChain bases) _ (open_next-KeepsChain base w c h))
    where
      next :
          ((v : Opening D)
            → AreChained v.segments
            → KeepsChain (keep_segments D dir max_bytes interval bases v))
          → (x : Result Segment × Opening D) → KeepsChain x
          → KeepsChain (
              carry_on x (λ g v.
                (if g.recovery.truncated
                    then pure bases
                    else keep_segments D dir max_bytes interval bases)
                  (record v { report = count_segment g v.report })))
      next f (ok g, v) k =
          if_intro
            (λ (m : Run (Opening D) (List ℕ)).
              KeepsChain (m (record v { report = count_segment g v.report })))
            g.recovery.truncated _ _ (λ _. k) (λ _. f _ k)
      next f (fail d, v) k = k

  discard_segments-KeepsChain :
      (bases : List ℕ) (w : Opening D)
      → AreChained w.segments
      → KeepsChain (discard_segments D dir max_bytes interval bases w)
  unfolding discard_segments remove_segment_files
  discard_segments-KeepsChain [] w c = c
  discard_segments-KeepsChain (base ∷ bases) w c = discard_segments-KeepsChain bases _ c

  or_first-KeepsChain :
      (gs : List Segment) (w : Opening D)
      → w.segments ≡ gs
      → AreChained w.segments
      → KeepsChain (or_first D dir max_bytes interval gs w)
  or_first-KeepsChain (g ∷ gs) w e c = c
  or_first-KeepsChain [] w e c = first_opened _ (open_next-KeepsChain 0 w c (ap (is_hole 0) e))
    where
      first_opened :
          (x : Result Segment × Opening D)
          → KeepsChain x
          → KeepsChain
              (carry_on x (λ g. perform (λ v. record v { report = count_opened v.report })))
      first_opened (ok g, v) k = k
      first_opened (fail d, v) k = k

  recover_log-KeepsChain :
      (w : Opening D) → AreChained w.segments → KeepsChain (recover_log D dir max_bytes interval w)
  unfolding recover_log
  recover_log-KeepsChain w c = listed (existing_segment_offsets D dir max_bytes interval w.disk)
    where
      discarded :
          (x : Status × Opening D)
          → KeepsChain x
          → KeepsChain (carry_on x (λ u v. or_first D dir max_bytes interval v.segments v))
      discarded (ok u, v) k = or_first-KeepsChain v.segments v refl k
      discarded (fail d, v) k = k

      kept :
          (x : Result (List ℕ) × Opening D)
          → KeepsChain x
          → KeepsChain (
              carry_on x (λ rest. discard_segments D dir max_bytes interval rest >>= λ u v.
              or_first D dir max_bytes interval v.segments v))
      kept (ok rest, v) k =
          discarded (discard_segments D dir max_bytes interval rest v)
            (discard_segments-KeepsChain rest v k)
      kept (fail d, v) k = k

      listed :
          (x : Result (List ℕ) × D.State)
          → KeepsChain (
              carry_on {S = Opening D}
                (x.0, record { disk = x.1; segments = w.segments; report = w.report })
                (λ bases. keep_segments D dir max_bytes interval bases >>= λ rest.
                  discard_segments D dir max_bytes interval rest >>= λ u v.
                  or_first D dir max_bytes interval v.segments v))
      listed (ok bases, r) =
          let v : Opening D = record { disk = r; segments = w.segments; report = w.report } in
          kept (keep_segments D dir max_bytes interval bases v) (keep_segments-KeepsChain bases v c)
      listed (fail d, r) = c

  abbrev pub OpensChained : Result Log × D.State → Type 0
  OpensChained (ok l, r) = IsChained l × IsSettled l
  OpensChained (fail c, r) = Unit {0}

  -- Whatever is on the disk and whatever it does, a log that is opened has segments that continue one
  -- another, and its next offset is where the newest ends.
  pub open_log-OpensChained : (s : D.State) → OpensChained (open_log D dir max_bytes interval s)
  unfolding open_log
  open_log-OpensChained s =
      bind_lem OpensChained (D.make_directories dir s) _
        (λ u _.
          let w : Opening D = record {
            disk = (D.make_directories dir s).1;
            segments = [];
            report = no_log_report;
          } in
          finished (recover_log D dir max_bytes interval w) (recover_log-KeepsChain w tt))
        (λ c _. tt)
    where
      destroyed :
          (c : ErrorCode) (gs : List Segment) (r : D.State)
          → OpensChained (carry_on (destroy_log D dir max_bytes interval gs r) (λ u. refuse c))
      destroyed c gs r =
          bind_lem OpensChained (destroy_log D dir max_bytes interval gs r) _ (λ _ _. tt)
            (λ _ _. tt)

      opened :
          (st : Status) (gs : List Segment) (n : LogRecoveryReport) (r : D.State)
          → AreChained gs
          → OpensChained (opened_log D dir max_bytes interval st gs n r)
      opened (ok u) (g ∷ gs) n r c = (record { chain = c; start = refl }, refl)
      opened (ok u) [] n r c = tt
      opened (fail d) gs n r c = destroyed d gs r

      finished :
          (x : Status × Opening D)
          → KeepsChain x
          → OpensChained (finish_open D dir max_bytes interval x)
      finished (st, w) c = opened st w.segments w.report w.disk c
