-- ===== src/Sim/Scheduler/Live.antt =====
-- src/sim/scheduler.cpp: the queue with its tombstones stands for the list of pending events.
use log_engine.Prelude.{
  ℕ, ◌≤◌, ◌<◌, ◌≡◌, refl, sym, ap, ◌≢◌, inl, inr, true, false, List, [], ◌∷◌, arith, ltb, ◌==◌,
  if◌then◌else◌, Bool-cases, if_intro, All, insert,
}
use log_engine.Sim.Scheduler.{later_first, has, erase, Event, push_event}

-- `e` fires before `x`, and they are not the same event.
abbrev pub Before {ℓ} : {Action : Type ℓ} → Event Action → Event Action → Type 0
Before e x = (later_first x.when x.id e.when e.id ≡ true) × (x.id ≢ e.id)

abbrev pub Ordered {ℓ} : {Action : Type ℓ} → List (Event Action) → Type ℓ
Ordered [] = Unit
Ordered (e ∷ q) = All (λ x. Before e x) q × Ordered q

-- The events that are not cancelled.
abbrev pub live {ℓ} : {Action : Type ℓ} → List (Event Action) → List ℕ → List (Event Action)
live [] c = []
live (e ∷ q) c = if has e.id c then live q c else e ∷ live q c

-- `remove_event id` leaves the event of that id out.
abbrev pub remove_event {ℓ} : {Action : Type ℓ} → ℕ → List (Event Action) → List (Event Action)
remove_event id [] = []
remove_event id (e ∷ q) = if e.id == id then remove_event id q else e ∷ remove_event id q

pub has-insert : (k j : ℕ) (c : List ℕ) → has k (insert j c) ≡ (if j == k then true else has k c)
unfolding has insert
has-insert k j [] = refl
has-insert k j (x ∷ c) = ground (arith, has-insert k j c)

pub has-erase : (k j : ℕ) (c : List ℕ) → k ≢ j → has k (erase j c) ≡ has k c
unfolding has erase
has-erase k j [] h = refl
has-erase k j (x ∷ c) h = ground (arith, has-erase k j c h)

pub not_yet : (k n : ℕ) (c : List ℕ) → All (λ x. x < n) c → n ≤ k → has k c ≡ false
unfolding has
not_yet k n [] a h = refl
not_yet k n (x ∷ c) a h = ground (arith, not_yet k n c a.1 h)

pub All-erase : (P : ℕ → Type 0) (j : ℕ) (c : List ℕ) → All P c → All P (erase j c)
unfolding erase
All-erase P j [] a = tt
All-erase P j (x ∷ c) a =
    if_intro (All P) (x == j) c (x ∷ erase j c) (λ _. a.1) (λ _. (a.0, All-erase P j c a.1))

pub All-insert : (P : ℕ → Type 0) (j : ℕ) (c : List ℕ) → All P c → P j → All P (insert j c)
unfolding insert
All-insert P j [] a p = (p, tt)
All-insert P j (x ∷ c) a p =
    if_intro (All P) (ltb j x) _ _ (λ _. (p, (a.0, a.1)))
      (λ _. if_intro (All P) (x == j) _ _ (λ _. a) (λ _. (a.0, All-insert P j c a.1 p)))

module _ {ℓ} {Action : Type ℓ} where
  pub All-push {κ} :
      (P : Event Action → Type κ) (e : Event Action) (q : List (Event Action))
      → All P q
      → P e
      → All P (push_event e q)
  unfolding push_event
  All-push P e [] a p = (p, tt)
  All-push P e (x ∷ q) a p =
      if_intro (All P) (later_first e.when e.id x.when x.id) _ _ (λ _. (a.0, All-push P e q a.1 p))
        (λ _. (p, a))

  pub All-live {κ} :
      (P : Event Action → Type κ) (q : List (Event Action)) (c : List ℕ)
      → All P q
      → All P (live q c)
  All-live P [] c a = tt
  All-live P (e ∷ q) c a =
      if_intro (All P) (has e.id c) _ _ (λ _. All-live P q c a.1) (λ _. (a.0, All-live P q c a.1))

  -- What is first of the events after it stays first of those after them.
  Before-others :
      (e x : Event Action) (q : List (Event Action))
      → later_first e.when e.id x.when x.id ≡ false
      → x.id ≢ e.id
      → All (λ y. Before x y) q
      → All (λ y. y.id ≢ e.id) q
      → All (λ y. Before e y) q
  Before-others e x [] h d a b = tt
  Before-others e x (y ∷ q) h d a b =
      let l = a.0.0 in ((ground arith, b.0), Before-others e x q h d a.1 b.1)

  pub push_event-Ordered :
      (e : Event Action) (q : List (Event Action))
      → Ordered q
      → All (λ x. x.id ≢ e.id) q
      → Ordered (push_event e q)
  unfolding push_event
  push_event-Ordered e [] o f = (tt, tt)
  push_event-Ordered e (x ∷ q) o f =
      if_intro Ordered (later_first e.when e.id x.when x.id) _ _
        (λ t. (
          All-push (λ y. Before x y) e q o.0 (t, λ p. f.0 (sym p)),
          push_event-Ordered e q o.1 f.1,
        ))
        (λ t. (((ground arith, f.0), Before-others e x q t f.0 o.0 f.1), o))

  push_first :
      (e : Event Action) (q : List (Event Action))
      → All (λ x. Before e x) q
      → push_event e q ≡ e ∷ q
  unfolding push_event
  push_first e [] a = refl
  push_first e (x ∷ q) a =
      let l = a.0.0 in
      let n : later_first e.when e.id x.when x.id ≡ false = ground arith in rw n refl

  pub live-push :
      (e : Event Action) (q : List (Event Action)) (c : List ℕ)
      → Ordered q
      → All (λ x. x.id ≢ e.id) q
      → has e.id c ≡ false
      → live (push_event e q) c ≡ push_event e (live q c)
  unfolding push_event
  live-push e [] c o f h = rw h refl
  live-push e (x ∷ q) c o f h = elim (Bool-cases (later_first e.when e.id x.when x.id)) [
    | inl t ↦ elim (Bool-cases (has x.id c)) [
      | inl g ↦ rw (t, g) (live-push e q c o.1 f.1 h)
      | inr g ↦ rw (t, g, t) (ap (λ l. x ∷ l) (live-push e q c o.1 f.1 h))
    ]
    | inr t ↦
        rw (t, h)
          (sym (
            push_first e (live (x ∷ q) c) (
              All-live (λ y. Before e y) (x ∷ q) c
                ((ground arith, f.0), Before-others e x q t f.0 o.0 f.1))))
  ]
