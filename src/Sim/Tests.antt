-- ===== src/Sim/Tests.antt =====
-- src/sim: the trace and the scheduler at concrete events.
use log_engine.Prelude.{ℕ, ◌≤◌, ◌<◌, ◌≡◌, refl, ◌≢◌, some, List, [], ◌∷◌, arith, All}
use log_engine.Sim.Scheduler.{
  EventTag, has, Event, Scheduler, push_event, schedule_at, cancel, run_next_before,
}
use log_engine.Sim.Scheduler.Pending.{IsScheduler, pending, queued, schedule_at_lem, cancel_lem}
use log_engine.Sim.Scheduler.Run.{Idle, Fired, run_next_before-Ran}
use log_engine.Sim.Trace.{
  acked, TraceEvent, fnv_offset_basis, mix_byte, mix_bytes, mix, new_trace, record_event, recent,
  record_all,
}
use log_engine.Sim.Trace.Hash.{record_all-diverged}
use log_engine.Sim.Trace.Ring.{recent-record_all}

abbrev tag_of : ℕ → EventTag
tag_of n = record { kind = acked; node = n; a = 0; b = 0 }

abbrev event_of : ℕ → TraceEvent
event_of n = record { time = n; node = 1; kind = acked; a = n; b = 0 }

abbrev three_events : List TraceEvent
three_events = event_of 1 ∷ event_of 2 ∷ event_of 3 ∷ []

recent-record_all_example :
    recent (record_all three_events (new_trace 2)) ≡ event_of 2 ∷ event_of 3 ∷ []
recent-record_all_example = recent-record_all 2 three_events (omega arith)

-- The hash of a value, computed.
unfoldable mixed : ℕ
mixed = mix fnv_offset_basis 1

mixed_value : mixed ≡ 9929646806074584996
unfolding mixed mix mix_bytes mix_byte
mixed_value = refl

same_hashes :
    (record_all three_events (new_trace 2)).hash ≡ (record_all three_events (new_trace 3)).hash
unfolding new_trace record_all record_event
same_hashes = refl

record_all-diverged_example : (new_trace 2).hash ≡ (new_trace 3).hash
unfolding new_trace
record_all-diverged_example =
    record_all-diverged three_events (new_trace 2) (new_trace 3) (omega arith) (omega arith)
      same_hashes

-- Two events of one instant, of which the second is cancelled, and an earlier one behind them.
abbrev queued_event : ℕ → ℕ → Event ℕ
queued_event when id = record { when = when; id = id; tag = tag_of id; callback = some id }

abbrev two_pending : Scheduler ℕ
two_pending = record {
  trace = new_trace 4;
  queue = queued_event 5 3 ∷ queued_event 9 1 ∷ queued_event 9 2 ∷ [];
  cancelled = 3 ∷ [];
  now = 4;
  next_id = 4;
  events_run = 0;
}

two_pending-IsScheduler : IsScheduler two_pending
two_pending-IsScheduler = record {
  ordered = (
    ((refl, λ e. absurd (omega arith)), ((refl, λ e. absurd (omega arith)), tt)),
    (((refl, λ e. absurd (omega arith)), tt), (tt, tt)),
  );
  issued = (omega arith, (omega arith, (omega arith, tt)));
  known = (omega arith, tt);
}

-- The callbacks note their number.
abbrev note : ℕ → List ℕ × Scheduler ℕ → List ℕ × Scheduler ℕ
note n (w, s) = (n ∷ w, s)

run_next_before-Ran_example :
    (9 < 9 → Idle note [] two_pending (run_next_before note 9 [] two_pending))
    × (9 ≤ 9
        → Fired note
            (queued_event 9 1)
            (queued_event 9 2 ∷ [])
            []
            two_pending
            (run_next_before note 9 [] two_pending))
unfolding has
run_next_before-Ran_example = run_next_before-Ran note 9 [] two_pending two_pending-IsScheduler

schedule_at_lem_example :
    let r = schedule_at 2 (tag_of 7) (some 7) two_pending in
    IsScheduler r.1
    × (pending r.1 ≡ push_event (queued 2 (tag_of 7) (some 7) two_pending) (pending two_pending))
    × All (λ (x : Event ℕ). x.id ≢ r.0) (pending two_pending)
schedule_at_lem_example =
    schedule_at_lem 2 (tag_of 7) (some 7) two_pending two_pending-IsScheduler (omega arith)

cancel_lem_example :
    let r = cancel 1 two_pending in IsScheduler r.1 × (pending r.1 ≡ queued_event 9 2 ∷ [])
unfolding has
cancel_lem_example = cancel_lem 1 two_pending two_pending-IsScheduler (omega arith) (omega arith)
