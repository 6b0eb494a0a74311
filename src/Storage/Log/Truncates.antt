-- ===== src/Storage/Log/Truncates.antt =====
-- src/storage/log.cpp: Log::truncate_to ends the log at the offset.
use log_engine.Prelude.{
  ℕ, ◌≤◌, ◌≡◌, refl, ap, subst, ◌∙◌, inl, inr, not, List, [], ◌∷◌, arith, ltb, leb, ◌==◌, if_intro,
}
use log_engine.Base.Error.{Result, ok, fail, Status}
use log_engine.Io.Disk.{Disk, Run, carry_on}
use log_engine.Storage.FileNames.{log_name, index_name, join}
use log_engine.Storage.Log.{Log, Store, update_log, on_active}
use log_engine.Storage.Log.Chain.{IsChain, IsChained, IsSettled, IsChained-active}
use log_engine.Storage.Log.Cut.{remove_segment_files, pop_segment, drop_segments, truncate_log}
use log_engine.Storage.Log.Open.{oldest}
use log_engine.Storage.Segment.{Segment}
use log_engine.Storage.Segment.Cut.{truncate_to}
use log_engine.Storage.Segment.Offsets.{EndsAt, truncate_to-EndsAt}

module _ (D : Disk) where
  -- The log without its newest segments, which all start at or behind the offset.
  abbrev pub Drops : ℕ → Log → Status × Store D → Type 0
  Drops offset l (ok u, w) =
      IsChained w.log × (w.log.next_offset ≡ l.next_offset) × (offset ≤ w.log.active.next_offset)
  Drops offset l (fail c, w) = ⊥

  drop_segments-Drops :
      (offset : ℕ) (gs : List Segment) (w : Store D)
      → w.log.older ≡ gs
      → IsChained w.log
      → offset ≤ w.log.active.next_offset
      → Drops offset w.log (drop_segments D offset gs w)
  unfolding drop_segments remove_segment_files
  drop_segments-Drops offset [] w e c l = (c, refl, l)
  drop_segments-Drops offset (g ∷ gs) w e c l =
      if_intro (λ (m : Run (Store D) (Unit {0})). Drops offset w.log (m w))
        (not (leb offset w.log.active.base_offset)) _ _ (λ _. (c, refl, l))
        (λ h.
          let k : IsChain w.log.active (g ∷ gs) = subst (IsChain w.log.active) e c.chain in
          drop_segments-Drops offset gs
            (record {
              disk =
                  (D.remove (join w.log.dir (index_name w.log.active.base_offset))
                    (D.remove (join w.log.dir (log_name w.log.active.base_offset))
                      (D.close w.log.active.log_file w.disk)).1).1;
              log = pop_segment D g gs w.log;
            })
            refl
            (record {
              chain = k.1;
              start = c.start ∙ ap (λ hs. (oldest w.log.active hs).base_offset) e;
            })
            (ground (arith, k.0)))

  abbrev pub Shortens : ℕ → Log → Status × Store D → Type 0
  Shortens offset l (ok u, w) = IsChained w.log × IsSettled w.log × (w.log.next_offset ≡ offset)
  Shortens offset l (fail c, w) = IsChained w.log × (w.log.next_offset ≡ l.next_offset)

  cut_active-Shortens :
      (offset : ℕ) (l : Log) (w : Store D)
      → IsChained w.log
      → w.log.next_offset ≡ l.next_offset
      → offset ≤ w.log.active.next_offset
      → Shortens offset l (
          carry_on
            (on_active D (λ g. truncate_to D g offset) w)
            (λ u. update_log D (λ m. record m { next_offset = m.active.next_offset })))
  cut_active-Shortens offset l w c e h =
      cut (truncate_to D w.log.active offset w.disk)
        (truncate_to-EndsAt D w.log.active offset w.disk)
    where
      cut :
          (x : Result Segment × D.State)
          → EndsAt offset w.log.active x.0
          → Shortens offset l (
              carry_on
                (carry_on {S = Store D}
                  (x.0, record { disk = x.1; log = w.log })
                  (λ g. update_log D (λ m. record m { active = g })))
                (λ u. update_log D (λ m. record m { next_offset = m.active.next_offset })))
      cut (ok g, r) (b, inl (q, n)) =
          (IsChained-active w.log g g.next_offset c b, refl, omega arith)
      cut (ok g, r) (b, inr n) = (IsChained-active w.log g g.next_offset c b, refl, n)
      cut (fail d, r) k = (c, e)

  -- On any disk, a truncation of a log whose segments continue one another ends the log at the offset,
  -- or fails and leaves the next offset of the log as it was. Either way the segments continue one
  -- another.
  pub truncate_log-Shortens :
      (offset : ℕ) (w : Store D)
      → IsChained w.log
      → IsSettled w.log
      → Shortens offset w.log (truncate_log D offset w)
  unfolding truncate_log
  truncate_log-Shortens offset w c s =
      if_intro (λ (m : Run (Store D) (Unit {0})). Shortens offset w.log (m w))
        (ltb w.log.next_offset offset) _ _ (λ _. (c, refl))
        (λ h.
          if_intro (λ (m : Run (Store D) (Unit {0})). Shortens offset w.log (m w))
            (ltb offset w.log.start_offset) _ _ (λ _. (c, refl))
            (λ _.
              if_intro (λ (m : Run (Store D) (Unit {0})). Shortens offset w.log (m w))
                (offset == w.log.next_offset) _ _ (λ q. (c, s, ground arith))
                (λ _.
                  dropped _ (drop_segments-Drops offset w.log.older w refl c (ground (arith, s))))))
    where
      dropped :
          (x : Status × Store D)
          → Drops offset w.log x
          → Shortens offset w.log (
              carry_on x (λ u v.
                carry_on
                  (on_active D (λ g. truncate_to D g offset) v)
                  (λ u. update_log D (λ m. record m { next_offset = m.active.next_offset }))))
      dropped (ok u, v) (k, e, l) = cut_active-Shortens offset w.log v k e l
      dropped (fail d, v) k = absurd k
