-- ===== src/Sim/Scheduler/Pending.antt =====
-- src/sim/scheduler.cpp: every operation on the queue and its tombstones is the one on the pending
-- events in their order.
use log_engine.Prelude.{
  ℕ, ◌+◌, ◌^◌, ◌≤◌, ◌<◌, ◌≡◌, refl, ap, ◌∙◌, ◌≢◌, inl, inr, false, Option, List, [], ◌∷◌, arith,
  ltb, ◌==◌, if◌then◌else◌, Bool-cases, is_empty, All, All-map, add_u64, insert,
}
use native.Mathlib.Nat.{le_refl}
use log_engine.Sim.Scheduler.{
  EventTag, has, erase, Event, Scheduler, push_event, schedule_at, cancel, drop_cancelled,
  drop_cancelled_from_top, front, deadline_of, next_deadline, empty,
}
use log_engine.Sim.Scheduler.Live.{
  Ordered, live, remove_event, has-insert, has-erase, not_yet, All-erase, All-insert, All-push,
  All-live, push_event-Ordered, live-push,
}

module _ {ℓ} {Action : Type ℓ} where
  live-erase :
      (j : ℕ) (q : List (Event Action)) (c : List ℕ)
      → All (λ x. x.id ≢ j) q
      → live q (erase j c) ≡ live q c
  live-erase j [] c a = refl
  live-erase j (e ∷ q) c a = rw (has-erase e.id j c a.0, live-erase j q c a.1) refl

  live-insert :
      (j : ℕ) (q : List (Event Action)) (c : List ℕ)
      → live q (insert j c) ≡ remove_event j (live q c)
  live-insert j [] c = refl
  live-insert j (e ∷ q) c = rw (has-insert e.id j c, live-insert j q c) (ground arith)

  -- The front, if there is one, is not cancelled.
  abbrev pub Clean : List (Event Action) → List ℕ → Type 0
  Clean [] c = Unit
  Clean (e ∷ q) c = has e.id c ≡ false

  -- What is left of a queue that is freed of cancelled events at its front.
  record Kept (q : List (Event Action)) (c : List ℕ) (q' : List (Event Action)) (c' : List ℕ)
      : Type ℓ where
    clean : Clean q' c'
    same : live q' c' ≡ live q c
    ordered : Ordered q'
    issued :
        (n : ℕ) → All (λ (e : Event Action). e.id < n) q → All (λ (e : Event Action). e.id < n) q'
    known : (n : ℕ) → All (λ k. k < n) c → All (λ k. k < n) c'

  drop_cancelled-Kept :
      (q : List (Event Action)) (c : List ℕ)
      → Ordered q
      → Kept q c (drop_cancelled q c).0 (drop_cancelled q c).1
  unfolding drop_cancelled
  drop_cancelled-Kept [] c o = record {
    clean = tt;
    same = refl;
    ordered = tt;
    issued = λ n a. a;
    known = λ n a. a;
  }
  drop_cancelled-Kept (e ∷ q) c o = elim (Bool-cases (has e.id c)) [
    | inl h ↦
        let k = drop_cancelled-Kept q (erase e.id c) o.1 in
        rw h (record {
          clean = k.clean;
          same = k.same ∙ live-erase e.id q c (All-map _ _ q (λ x b. b.1) o.0) ∙ rw h refl;
          ordered = k.ordered;
          issued = λ n a. k.issued n a.1;
          known = λ n a. k.known n (All-erase (λ x. x < n) e.id c a);
        })
    | inr h ↦
        rw h (record { clean = h; same = refl; ordered = o; issued = λ n a. a; known = λ n a. a })
  ]

  -- Every event and every tombstone bears an id that was handed out, and the queue is in order.
  pub record IsScheduler (s : Scheduler Action) : Type ℓ where
    pub ordered : Ordered s.queue
    pub issued : All (λ (e : Event Action). e.id < s.next_id) s.queue
    pub known : All (λ k. k < s.next_id) s.cancelled

  abbrev pub pending : Scheduler Action → List (Event Action)
  pending s = live s.queue s.cancelled

  -- Nothing was done that the caller can see.
  pub record Same (s s' : Scheduler Action) : Type ℓ where
    pub valid : IsScheduler s'
    pub events : pending s' ≡ pending s
    pub only : s' ≡ record s { queue = s'.queue; cancelled = s'.cancelled }

  pub top-Same : (s : Scheduler Action) → IsScheduler s → Same s (drop_cancelled_from_top s)
  unfolding drop_cancelled_from_top
  top-Same s v =
      let k = drop_cancelled-Kept s.queue s.cancelled v.ordered in
      record {
        valid = record {
          ordered = k.ordered;
          issued = k.issued s.next_id v.issued;
          known = k.known s.next_id v.known;
        };
        events = k.same;
        only = refl;
      }

  -- The front of a cleaned queue is the first pending event.
  pub front_pending :
      (q : List (Event Action)) (c : List ℕ) → Clean q c → front q ≡ front (live q c)
  front_pending [] c k = refl
  front_pending (e ∷ q) c k = rw k refl

  empty_pending :
      (q : List (Event Action)) (c : List ℕ) → Clean q c → is_empty q ≡ is_empty (live q c)
  empty_pending [] c k = refl
  empty_pending (e ∷ q) c k = rw k refl

  pub top-Clean :
      (s : Scheduler Action)
      → IsScheduler s
      → Clean (drop_cancelled_from_top s).queue (drop_cancelled_from_top s).cancelled
  unfolding drop_cancelled_from_top
  top-Clean s v = (drop_cancelled-Kept s.queue s.cancelled v.ordered).clean

  -- The deadline is that of the first pending event, and the queue is empty when none is pending;
  -- to ask changes nothing that is pending.
  next_deadline_lem :
      (s : Scheduler Action)
      → IsScheduler s
      → ((next_deadline s).0 ≡ deadline_of (front (pending s)))
        × ((empty s).0 ≡ is_empty (pending s))
        × Same s (next_deadline s).1
        × Same s (empty s).1
  unfolding next_deadline empty
  next_deadline_lem s v =
      let t = top-Same s v in
      (
        ap deadline_of (front_pending _ _ (top-Clean s v) ∙ ap front t.events),
        empty_pending _ _ (top-Clean s v) ∙ ap is_empty t.events,
        t,
        t,
      )

  other_ids :
      (n : ℕ) (q : List (Event Action))
      → All (λ (x : Event Action). x.id < n) q
      → All (λ (x : Event Action). x.id ≢ n) q
  other_ids n q a = All-map _ _ q (λ x p d. omega arith) a

  -- The event as it is queued: not before the present.
  abbrev pub queued : ℕ → EventTag → Option Action → Scheduler Action → Event Action
  queued when tag callback s = record {
    when = if ltb when s.now then s.now else when;
    id = s.next_id;
    tag = tag;
    callback = callback;
  }

  -- A scheduled event has an id that no pending event has, and takes its place among the pending
  -- ones, at the present if its time has passed. The count of ids does not wrap.
  pub schedule_at_lem :
      (when : ℕ) (tag : EventTag) (callback : Option Action) (s : Scheduler Action)
      → IsScheduler s
      → s.next_id + 1 < 2 ^ 64
      → let r = schedule_at when tag callback s in
        IsScheduler r.1
        × (pending r.1 ≡ push_event (queued when tag callback s) (pending s))
        × All (λ (x : Event Action). x.id ≢ r.0) (pending s)
  unfolding schedule_at
  schedule_at_lem when tag callback s v h =
      let e = queued when tag callback s in
      let n : add_u64 s.next_id 1 ≡ s.next_id + 1 = omega arith in
      let f = other_ids s.next_id s.queue v.issued in
      (
        record {
          ordered = push_event-Ordered e s.queue v.ordered f;
          issued =
              All-push (λ (x : Event Action). x.id < add_u64 s.next_id 1) e s.queue
                (All-map _ _ s.queue (λ x p. omega (arith, n)) v.issued) (omega (arith, n));
          known = All-map _ _ s.cancelled (λ x p. omega (arith, n)) v.known;
        },
        live-push e s.queue s.cancelled v.ordered f
            (not_yet s.next_id s.next_id s.cancelled v.known (le_refl s.next_id)),
        All-live (λ (x : Event Action). x.id ≢ s.next_id) s.queue s.cancelled f,
      )

  -- To cancel an id that was handed out takes its event, and no other, from the pending ones.
  pub cancel_lem :
      (id : ℕ) (s : Scheduler Action)
      → IsScheduler s
      → 1 ≤ id
      → id < s.next_id
      → let r = cancel id s in IsScheduler r.1 × (pending r.1 ≡ remove_event id (pending s))
  unfolding cancel
  cancel_lem id s v p h =
      let z : (id == 0) ≡ false = ground arith in
      rw z (
        record {
          ordered = v.ordered;
          issued = v.issued;
          known = All-insert (λ k. k < s.next_id) id s.cancelled v.known h;
        },
        live-insert id s.queue s.cancelled,
      )
