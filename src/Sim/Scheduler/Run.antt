-- ===== src/Sim/Scheduler/Run.antt =====
-- src/sim/scheduler.cpp: which event runs, and what has been done when its callback is called.
use log_engine.Prelude.{
  ℕ, ◌≤◌, ◌<◌, ◌≡◌, refl, ap, subst, inl, inr, Bool, true, false, List, [], ◌∷◌, ltb, if◌then◌else◌,
  lt→ltb, le→not-ltb, Bool-cases, All, add_u64,
}
use log_engine.Sim.Scheduler.{
  Event, Scheduler, record_tag, drop_cancelled_from_top, advance_to, call, run_front,
  run_next_before,
}
use log_engine.Sim.Scheduler.Live.{Before, Ordered, live, All-live}
use log_engine.Sim.Scheduler.Pending.{Clean, IsScheduler, pending, Same, top-Same, top-Clean}
use log_engine.Sim.Trace.{TraceEvent, record_event}

module _ {ℓ} {Action : Type ℓ} where
  advance_to_lem :
      (t : ℕ) (s : Scheduler Action)
      → advance_to t s ≡ record s { now = if ltb s.now t then t else s.now }
  unfolding advance_to
  advance_to_lem t s = elim (Bool-cases (ltb s.now t)) [ inl b ↦ rw b refl | inr b ↦ rw b refl ]

  -- The line of the trace for an event that fires at a time.
  abbrev pub line_of : Event Action → ℕ → TraceEvent
  line_of e t = record { time = t; node = e.tag.node; kind = e.tag.kind; a = e.tag.a; b = e.tag.b }

  module _ {κ} {World : Type κ}
      (act : Action → World × Scheduler Action → World × Scheduler Action) where
    -- Nothing ran.
    pub record Idle (w : World) (s : Scheduler Action) (r : Bool × (World × Scheduler Action))
        : Type (ℓ ⊔ κ) where
      pub nothing : r.0 ≡ false
      pub world : r.1.0 ≡ w
      pub same : Same s r.1.1

    -- `e` ran, and the events `p` were left when its callback was called.
    pub record Fired (e : Event Action) (p : List (Event Action)) (w : World) (s : Scheduler Action)
        (r : Bool × (World × Scheduler Action)) : Type (ℓ ⊔ κ) where
      pub after : Scheduler Action
      pub ran : r ≡ (true, call act e.callback (w, after))
      pub valid : IsScheduler after
      pub left : pending after ≡ p
      pub first : All (λ x. Before e x) p
      pub clock : after.now ≡ (if ltb s.now e.when then e.when else s.now)
      pub line : after.trace ≡ record_event (line_of e after.now) s.trace
      pub counted : after.events_run ≡ add_u64 s.events_run 1

    abbrev pub Ran :
        ℕ
        → World
        → Scheduler Action
        → List (Event Action)
        → Bool × (World × Scheduler Action)
        → Type (ℓ ⊔ κ)
    Ran limit w s [] r = Idle w s r
    Ran limit w s (e ∷ p) r = (limit < e.when → Idle w s r) × (e.when ≤ limit → Fired e p w s r)

    -- The scheduler as the callback finds it.
    fired_state : Event Action → List (Event Action) → Scheduler Action → Scheduler Action
    fired_state e q d = record d {
      queue = q;
      now = if ltb d.now e.when then e.when else d.now;
      trace = record_event (line_of e (if ltb d.now e.when then e.when else d.now)) d.trace;
      events_run = add_u64 d.events_run 1;
    }

    run_front-Ran :
        (limit : ℕ) (w : World) (s d : Scheduler Action) (q : List (Event Action))
        → Same s d
        → d.queue ≡ q
        → Clean q d.cancelled
        → Ran limit w s (live q d.cancelled) (run_front act limit q w d)
    unfolding run_front record_tag fired_state
    run_front-Ran limit w s d [] t h k = record { nothing = refl; world = refl; same = t }
    run_front-Ran limit w s d (e ∷ q) t h k = rw k (
      (λ p. rw (lt→ltb limit e.when p) (record { nothing = refl; world = refl; same = t })),
      (λ p.
          rw (le→not-ltb limit e.when p, advance_to_lem e.when (record d { queue = q }))
            (record {
              after = fired_state e q d;
              ran = refl;
              valid = record { ordered = o.1; issued = b.1; known = t.valid.known };
              left = refl;
              first = All-live (λ x. Before e x) q d.cancelled o.0;
              clock =
                  ap (λ (x : Scheduler Action). if ltb x.now e.when then e.when else x.now) t.only;
              line =
                  ap
                    (λ (x : Scheduler Action).
                      record_event (line_of e (fired_state e q d).now) x.trace)
                    t.only;
              counted = ap (λ (x : Scheduler Action). add_u64 x.events_run 1) t.only;
            })),
    )
      where
        o : Ordered (e ∷ q)
        o = subst Ordered h t.valid.ordered

        b : All (λ (x : Event Action). x.id < d.next_id) (e ∷ q)
        b = subst (All (λ (x : Event Action). x.id < d.next_id)) h t.valid.issued

    -- If no event is pending or the first is past the limit, nothing runs. Otherwise the first runs,
    -- which comes before all others: the clock goes forward to its deadline and never back, its line
    -- is recorded, and then its callback is called, with the other events pending.
    pub run_next_before-Ran :
        (limit : ℕ) (w : World) (s : Scheduler Action)
        → IsScheduler s
        → Ran limit w s (pending s) (run_next_before act limit w s)
    unfolding run_next_before
    run_next_before-Ran limit w s v =
        subst (λ p. Ran limit w s p (run_next_before act limit w s)) (top-Same s v).events
          (run_front-Ran limit w s (drop_cancelled_from_top s) _ (top-Same s v) refl
            (top-Clean s v))
