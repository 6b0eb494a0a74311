-- ===== src/Sim/Scheduler.antt =====
-- src/sim/scheduler.h and src/sim/scheduler.cpp: virtual time and the queue of events. The heap is
-- kept as the list in the order in which it is popped, so its front is the head; the order is total,
-- and no other list does. Simulated time starts at 0 and only moves forward, so that times are
-- natural numbers; `none` is the deadline kNoTimeout. What a callback does is a parameter.
pub mod Live
pub mod Pending
pub mod Run
use log_engine.Prelude.{
  ℕ, ◌+◌, Bool, true, false, not, Option, none, some, List, [], ◌∷◌, ltb, ◌==◌, if◌then◌else◌,
  is_empty, add_u64, insert,
}
use log_engine.Sim.Trace.{EventKind, Trace, record_event}

pub record EventTag : Type 0 where
  pub kind : EventKind
  pub node : ℕ
  pub a : ℕ
  pub b : ℕ

-- LaterFirst, on the deadlines and the ids.
abbrev pub later_first : ℕ → ℕ → ℕ → ℕ → Bool
later_first when id when' id' = if not (when == when') then ltb when' when else ltb id' id

-- `std::set`: whether it has a number, and the set without it.
unfoldable pub has : ℕ → List ℕ → Bool
has k [] = false
has k (x ∷ xs) = if x == k then true else has k xs

unfoldable pub erase : ℕ → List ℕ → List ℕ
erase k [] = []
erase k (x ∷ xs) = if x == k then xs else x ∷ erase k xs

module _ {ℓ} (Action : Type ℓ) where
  pub record Event : Type ℓ where
    pub when : ℕ
    pub id : ℕ
    pub tag : EventTag
    pub callback : Option Action

  pub record Scheduler : Type ℓ where
    pub trace : Trace
    pub queue : List Event
    pub cancelled : List ℕ
    pub now : ℕ
    pub next_id : ℕ
    pub events_run : ℕ

module _ {ℓ} {Action : Type ℓ} where
  unfoldable pub new_scheduler : Trace → Scheduler Action
  new_scheduler trace = record {
    trace = trace;
    queue = [];
    cancelled = [];
    now = 0;
    next_id = 1;
    events_run = 0;
  }

  -- `push_heap`
  unfoldable pub push_event : Event Action → List (Event Action) → List (Event Action)
  push_event e [] = e ∷ []
  push_event e (x ∷ q) =
      if later_first e.when e.id x.when x.id then x ∷ push_event e q else e ∷ x ∷ q

  unfoldable pub schedule_at :
      ℕ → EventTag → Option Action → Scheduler Action → ℕ × Scheduler Action
  schedule_at when tag callback s =
      let e : Event Action = record {
        when = if ltb when s.now then s.now else when;
        id = s.next_id;
        tag = tag;
        callback = callback;
      } in
      (e.id, record s { queue = push_event e s.queue; next_id = add_u64 s.next_id 1 })

  unfoldable pub schedule_after :
      ℕ → EventTag → Option Action → Scheduler Action → ℕ × Scheduler Action
  schedule_after delay tag callback s = schedule_at (s.now + delay) tag callback s

  unfoldable pub cancel : ℕ → Scheduler Action → Bool × Scheduler Action
  cancel id s =
      if id == 0
      then (false, s)
      else (not (has id s.cancelled), record s { cancelled = insert id s.cancelled })

  unfoldable pub record_tag : EventTag → Scheduler Action → Scheduler Action
  record_tag tag s = record s {
    trace =
        record_event
          (record { time = s.now; node = tag.node; kind = tag.kind; a = tag.a; b = tag.b }) s.trace;
  }

  -- The loop: what is left of the queue and of the tombstones.
  unfoldable pub drop_cancelled : List (Event Action) → List ℕ → List (Event Action) × List ℕ
  drop_cancelled [] cancelled = ([], cancelled)
  drop_cancelled (e ∷ q) cancelled =
      let rest = drop_cancelled q (erase e.id cancelled) in
      if has e.id cancelled then rest else (e ∷ q, cancelled)

  unfoldable pub drop_cancelled_from_top : Scheduler Action → Scheduler Action
  drop_cancelled_from_top s =
      let kept = drop_cancelled s.queue s.cancelled in
      record s { queue = kept.0; cancelled = kept.1 }

  abbrev pub front : List (Event Action) → Option (Event Action)
  front [] = none
  front (e ∷ q) = some e

  abbrev pub deadline_of : Option (Event Action) → Option ℕ
  deadline_of none = none
  deadline_of (some e) = some e.when

  unfoldable pub next_deadline : Scheduler Action → Option ℕ × Scheduler Action
  next_deadline s = let s' = drop_cancelled_from_top s in (deadline_of (front s'.queue), s')

  unfoldable pub empty : Scheduler Action → Bool × Scheduler Action
  empty s = let s' = drop_cancelled_from_top s in (is_empty s'.queue, s')

  unfoldable pub advance_to : ℕ → Scheduler Action → Scheduler Action
  advance_to when s = if ltb s.now when then record s { now = when } else s

  -- The world that the callbacks change, and what a callback does to it and to the scheduler.
  module _ {κ} {World : Type κ}
      (act : Action → World × Scheduler Action → World × Scheduler Action) where
    unfoldable pub call : Option Action → World × Scheduler Action → World × Scheduler Action
    call none w = w
    call (some f) w = act f w

    -- The front of a queue that has been freed of cancelled events.
    unfoldable pub run_front :
        ℕ → List (Event Action) → World → Scheduler Action → Bool × (World × Scheduler Action)
    run_front limit [] w s = (false, (w, s))
    run_front limit (e ∷ q) w s =
        if ltb limit e.when
        then (false, (w, s))
        else let s' = record_tag e.tag (advance_to e.when (record s { queue = q })) in
          (true, call e.callback (w, record s' { events_run = add_u64 s'.events_run 1 }))

    unfoldable pub run_next_before :
        ℕ → World → Scheduler Action → Bool × (World × Scheduler Action)
    run_next_before limit w s = let s' = drop_cancelled_from_top s in run_front limit s'.queue w s'

-- `none` is kNoTimeout.
unfoldable pub earlier_deadline : Option ℕ → Option ℕ → Option ℕ
earlier_deadline none b = b
earlier_deadline (some a) none = some a
earlier_deadline (some a) (some b) = if ltb a b then some a else some b
