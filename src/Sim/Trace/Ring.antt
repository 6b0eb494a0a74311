-- ===== src/Sim/Trace/Ring.antt =====
-- src/sim/trace.cpp: the ring holds the last lines of the trace.
use log_engine.Prelude.{
  ℕ, zero, suc, ◌+◌, ◌-◌, ◌%◌, ◌≤◌, ◌<◌, ◌≡◌, refl, sym, ap, subst, ◌∙◌, ◌⊎◌, inl, inr, Bool, true,
  false, not, List, [], ◌∷◌, ◌++◌, arith, ◌==◌, if◌then◌else◌, Bool-cases, length, take, drop,
  write_at, length-replicate, length-append, length-drop, length-write_at, drop-nil, drop-drop,
  drop-append, take_all, drop_all,
}
use mathlib.Core.List.{append-nil, append_assoc}
use mathlib.Core.Path.{ap₂}
use native.Mathlib.Decide.{dec_lt}
use native.Mathlib.Nat.{mod_self, mod-eq_of_lt}
use native.Mathlib.Numerals.{add-one}
use log_engine.Sim.Trace.{
  TraceEvent, empty_event, Trace, new_trace, record_event, recent, record_all,
}

-- The next slot, and when the ring has gone round.
next_slot-cases :
    (i n : ℕ) → i < n → (((i + 1) % n ≡ suc i) × (suc i < n)) ⊎ (((i + 1) % n ≡ 0) × (suc i ≡ n))
next_slot-cases i n h = elim (dec_lt (suc i) n) [
  | yes p ↦ inl (ap (λ m. m % n) (add-one i) ∙ mod-eq_of_lt p, p)
  | no q ↦ let w : suc i ≡ n = omega arith in inr (ap (λ m. m % n) (add-one i ∙ w) ∙ mod_self n, w)
]

round_false : (s : ℕ) (w : Bool) → (if s == 0 then true else w) ≡ false → w ≡ false
round_false zero w h = absurd (ground arith)
round_false (suc s) w h = ground arith

round_true : (s : ℕ) (w : Bool) → 1 ≤ s → (if s == 0 then true else w) ≡ true → w ≡ true
round_true zero w p h = absurd (omega arith)
round_true (suc s) w p h = ground arith

module _ {ℓ} {A : Type ℓ} where
  take_next :
      (i : ℕ) (xs : List A) (a : A)
      → i < length xs
      → take (suc i) (write_at xs i (a ∷ [])) ≡ take i xs ++ (a ∷ [])
  take_next i [] a h = absurd (omega arith)
  take_next zero (x ∷ xs) a h = refl
  take_next (suc i) (x ∷ xs) a h = ap (λ t. x ∷ t) (take_next i xs a (omega arith))

  drop_next :
      (i : ℕ) (xs : List A) (a : A) → drop (suc i) (write_at xs i (a ∷ [])) ≡ drop (suc i) xs
  drop_next zero [] a = refl
  drop_next (suc i) [] a = refl
  drop_next zero (x ∷ []) a = refl
  drop_next zero (x ∷ y ∷ xs) a = refl
  drop_next (suc i) (x ∷ xs) a = drop_next i xs a

  -- What a ring shows, its next slot being `i`.
  abbrev ring : Bool → ℕ → List A → List A
  ring w i xs = if not w then take i xs else drop i xs ++ take i xs

  -- The lines that survive the next one.
  abbrev older : Bool → ℕ → List A → List A
  older w i xs = if w then drop (suc i) xs else []

  ring_whole :
      (w : Bool) (i : ℕ) (xs : List A) (a : A)
      → suc i ≡ length xs
      → write_at xs i (a ∷ []) ++ [] ≡ older w i xs ++ (take i xs ++ (a ∷ []))
  ring_whole w i xs a h =
      append-nil (write_at xs i (a ∷ []))
      ∙ sym
          (take_all (suc i) (write_at xs i (a ∷ [])) (omega (arith, length-write_at xs i (a ∷ []))))
      ∙ take_next i xs a (omega arith)
      ∙ ap (λ o. o ++ (take i xs ++ (a ∷ []))) (sym (nothing_older w))
    where
      nothing_older : (w : Bool) → ◌≡◌ {A = List A} (older w i xs) []
      nothing_older true = drop_all (suc i) xs (omega arith)
      nothing_older false = refl

  ring_part :
      (w : Bool) (i : ℕ) (xs : List A) (a : A)
      → i < length xs
      → ring w (suc i) (write_at xs i (a ∷ [])) ≡ older w i xs ++ (take i xs ++ (a ∷ []))
  ring_part true i xs a h = ap₂ (λ p q. p ++ q) (drop_next i xs a) (take_next i xs a h)
  ring_part false i xs a h = take_next i xs a h

  ring_next :
      (w : Bool) (i s : ℕ) (xs : List A) (a : A)
      → i < length xs
      → s ≡ (i + 1) % length xs
      → ring (if s == 0 then true else w) s (write_at xs i (a ∷ []))
        ≡ older w i xs ++ (take i xs ++ (a ∷ []))
  ring_next w i s xs a h e = elim (next_slot-cases i (length xs) h) [
    | inl (m, p) ↦
        let z : (suc i == 0) ≡ false = ground arith in rw (e, m, z) (ring_part w i xs a h)
    | inr (m, q) ↦ rw (e, m) (ring_whole w i xs a q)
  ]

  last_filling :
      (cap i : ℕ) (es xs : List A) (a : A)
      → length es ≡ i
      → i < cap
      → take i xs ≡ drop (length es - cap) es
      → take i xs ++ (a ∷ []) ≡ drop (length (es ++ (a ∷ [])) - cap) (es ++ (a ∷ []))
  last_filling cap i es xs a l p h =
      ap (λ t. t ++ (a ∷ [])) (h ∙ ap (λ n. drop n es) none_gone)
      ∙ sym (ap (λ n. drop n (es ++ (a ∷ []))) still_none)
    where
      none_gone : length es - cap ≡ 0
      none_gone = omega arith

      still_none : length (es ++ (a ∷ [])) - cap ≡ 0
      still_none = omega (arith, length-append es (a ∷ []))

  last_full :
      (cap i : ℕ) (es xs : List A) (a : A)
      → cap ≤ length es
      → i < length xs
      → 1 ≤ cap
      → drop i xs ++ take i xs ≡ drop (length es - cap) es
      → drop (suc i) xs ++ (take i xs ++ (a ∷ []))
        ≡ drop (length (es ++ (a ∷ [])) - cap) (es ++ (a ∷ []))
  last_full cap i es xs a l p c h =
      ap (λ t. t ++ (take i xs ++ (a ∷ [])))
        (ap (λ n. drop n xs) (sym (add-one i)) ∙ sym (drop-drop i 1 xs))
      ∙ sym (drop-append 1 (drop i xs) (take i xs ++ (a ∷ [])) (omega (arith, length-drop i xs)))
      ∙ ap (drop 1)
          (sym (append_assoc (drop i xs) (take i xs) (a ∷ [])) ∙ ap (λ t. t ++ (a ∷ [])) h)
      ∙ ap (drop 1) (sym (drop-append (length es - cap) es (a ∷ []) (omega arith)))
      ∙ drop-drop (length es - cap) 1 (es ++ (a ∷ []))
      ∙ ap (λ n. drop n (es ++ (a ∷ []))) one_more
    where
      one_more : length es - cap + 1 ≡ length (es ++ (a ∷ [])) - cap
      one_more = omega (arith, length-append es (a ∷ []))

-- What the ring should hold: the last `cap` events.
abbrev pub last_events : ℕ → List TraceEvent → List TraceEvent
last_events cap es = drop (length es - cap) es

-- The ring after the events `es`.
pub record Rings (cap : ℕ) (es : List TraceEvent) (t : Trace) : Type 0 where
  pub room : length t.recent_events ≡ cap
  pub positive : 1 ≤ cap
  pub at : t.next_slot < cap
  pub filling : t.wrapped ≡ false → length es ≡ t.next_slot
  pub full : t.wrapped ≡ true → cap ≤ length es
  pub holds : recent t ≡ last_events cap es

new_trace-Rings : (n : ℕ) → 1 ≤ n → Rings n [] (new_trace n)
unfolding new_trace recent
new_trace-Rings zero h = absurd (omega arith)
new_trace-Rings (suc n) h = record {
  room = length-replicate _ empty_event ∙ given;
  positive = h;
  at = h;
  filling = λ _. refl;
  full = λ e. ground arith;
  holds = sym (drop-nil (0 - suc n));
}
  where
    given : (if suc n == 0 then 1 else suc n) ≡ suc n
    given = ground arith

-- What the ring shows after one more event.
recent_next :
    (e : TraceEvent) (t : Trace)
    → t.next_slot < length t.recent_events
    → recent (record_event e t)
      ≡ older t.wrapped t.next_slot t.recent_events
        ++ (take t.next_slot t.recent_events ++ (e ∷ []))
unfolding recent record_event
recent_next e t h = ring_next t.wrapped t.next_slot _ t.recent_events e h refl

-- The ring keeps the last events, whether it is still filling or has gone round.
holds_next :
    (cap : ℕ) (es : List TraceEvent) (e : TraceEvent) (t : Trace)
    → Rings cap es t
    → older t.wrapped t.next_slot t.recent_events ++ (take t.next_slot t.recent_events ++ (e ∷ []))
      ≡ last_events cap (es ++ (e ∷ []))
unfolding recent
holds_next cap es e t r = elim (Bool-cases t.wrapped) [
  | inl w ↦ rw w (
      last_full cap t.next_slot es t.recent_events e (r.full w) (omega (arith, r.at, r.room))
        r.positive (rw w at r.holds))
  | inr w ↦
      rw w (last_filling cap t.next_slot es t.recent_events e (r.filling w) r.at (rw w at r.holds))
]

record_event-Rings :
    (cap : ℕ) (es : List TraceEvent) (e : TraceEvent) (t : Trace)
    → Rings cap es t
    → Rings cap (es ++ (e ∷ [])) (record_event e t)
unfolding record_event
record_event-Rings cap es e t r =
    elim (next_slot-cases t.next_slot (length t.recent_events) inside) [
      | inl (m, p) ↦ record {
        room = length-write_at t.recent_events t.next_slot (e ∷ []) ∙ r.room;
        positive = r.positive;
        at = omega (arith, r.room);
        filling = λ w. omega (arith, m, more, r.filling (round_false _ t.wrapped w));
        full = λ w. omega (arith, more, r.full (round_true _ t.wrapped (omega arith) w));
        holds = shown;
      }
      | inr (m, q) ↦ record {
        room = length-write_at t.recent_events t.next_slot (e ∷ []) ∙ r.room;
        positive = r.positive;
        at = omega (arith, r.positive);
        filling = λ w. absurd (ground arith);
        full = λ w. elim (Bool-cases t.wrapped) [
          | inl g ↦ omega (arith, more, r.full g)
          | inr g ↦ omega (arith, more, r.filling g, r.room)
        ];
        holds = shown;
      }
    ]
  where
    inside : t.next_slot < length t.recent_events
    inside = omega (arith, r.at, r.room)

    more : length (es ++ (e ∷ [])) ≡ length es + 1
    more = length-append es (e ∷ [])

    shown : recent (record_event e t) ≡ last_events cap (es ++ (e ∷ []))
    shown = recent_next e t inside ∙ holds_next cap es e t r

record_all-Rings :
    (cap : ℕ) (old es : List TraceEvent) (t : Trace)
    → Rings cap old t
    → Rings cap (old ++ es) (record_all es t)
unfolding record_all
record_all-Rings cap old [] t r = subst (λ l. Rings cap l t) (sym (append-nil old)) r
record_all-Rings cap old (e ∷ es) t r =
    subst (λ l. Rings cap l (record_all es (record_event e t))) (append_assoc old (e ∷ []) es)
      (record_all-Rings cap (old ++ (e ∷ [])) es (record_event e t)
        (record_event-Rings cap old e t r))

-- A new trace that has recorded some events shows the last of them, oldest first, as many as it has
-- room for. It has room for at least one.
pub recent-record_all :
    (cap : ℕ) (es : List TraceEvent)
    → 1 ≤ cap
    → recent (record_all es (new_trace cap)) ≡ last_events cap es
recent-record_all cap es h =
    (record_all-Rings cap [] es (new_trace cap) (new_trace-Rings cap h)).holds
