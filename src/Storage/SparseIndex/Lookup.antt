-- ===== src/Storage/SparseIndex/Lookup.antt =====
-- src/storage/sparse_index.cpp: where a scan for an offset may start.
use log_engine.Prelude.{
  ℕ, ◌≤◌, ◌≡◌, refl, sym, ap, subst, ◌⊎◌, inl, inr, true, Option, none, some, List, [], ◌∷◌, arith,
  ltb, if_intro, In,
}
use native.Mathlib.Nat.{le_refl}
use log_engine.Storage.SparseIndex.{IndexEntry, first_entry, last_before, lookup_index}
use log_engine.Storage.SparseIndex.Sorted.{RisesFrom, IsIndex, later_entries}

last_before-ge :
    (best : IndexEntry) (es : List IndexEntry) (rel : ℕ)
    → RisesFrom (some best) es
    → (best.rel_offset ≤ (last_before best es rel).rel_offset)
      × (best.file_pos ≤ (last_before best es rel).file_pos)
unfolding last_before
last_before-ge best [] rel h = (le_refl _, le_refl _)
last_before-ge best (e ∷ es) rel h =
    let ih = last_before-ge e es rel h.1 in let f = h.0 in (ground arith, ground arith)

-- The entry that is found: it is one of the entries and not past the target, or it is the start of
-- the segment; and no entry that is not past the target lies further.
pub record Found (es : List IndexEntry) (rel : ℕ) (r : IndexEntry) : Type 0 where
  pub place : (r ≡ first_entry) ⊎ (In r es × (r.rel_offset ≤ rel))
  pub furthest :
      (e : IndexEntry)
      → In e es
      → e.rel_offset ≤ rel
      → (e.rel_offset ≤ r.rel_offset) × (e.file_pos ≤ r.file_pos)

last_before-place :
    (best : IndexEntry) (es : List IndexEntry) (rel : ℕ)
    → (last_before best es rel ≡ best)
      ⊎ (In (last_before best es rel) es × ((last_before best es rel).rel_offset ≤ rel))
unfolding last_before
last_before-place best [] rel = inl refl
last_before-place best (e ∷ es) rel =
    if_intro (λ r. (r ≡ best) ⊎ (In r (e ∷ es) × (r.rel_offset ≤ rel))) (ltb rel e.rel_offset) best
      _ (λ _. inl refl)
      (λ p. elim (last_before-place e es rel) [
        | inl q ↦ inr (inl q, subst (λ x. x.rel_offset ≤ rel) (sym q) (ground arith))
        | inr q ↦ inr (inr q.0, q.1)
      ])

last_before-furthest :
    (b : Option IndexEntry) (best : IndexEntry) (es : List IndexEntry) (rel : ℕ) (e : IndexEntry)
    → RisesFrom b es
    → In e es
    → e.rel_offset ≤ rel
    → (e.rel_offset ≤ (last_before best es rel).rel_offset)
      × (e.file_pos ≤ (last_before best es rel).file_pos)
unfolding last_before
last_before-furthest b best [] rel e h i l = elim i [ ]
last_before-furthest b best (d ∷ es) rel e h i l =
    if_intro (λ r. (e.rel_offset ≤ r.rel_offset) × (e.file_pos ≤ r.file_pos)) (ltb rel d.rel_offset)
      best _ (λ p. absurd (too_far i p))
      (λ _. within (λ j. last_before-furthest (some d) d es rel e h.1 j l) i)
  where
    too_far : In e (d ∷ es) → ltb rel d.rel_offset ≡ true → ⊥
    too_far (inl q) p = ground (arith, ap (λ x. x.rel_offset) q)
    too_far (inr j) p = ground (arith, later_entries d es e h.1 j)

    Near : IndexEntry → Type 0
    Near x =
        (x.rel_offset ≤ (last_before d es rel).rel_offset)
        × (x.file_pos ≤ (last_before d es rel).file_pos)

    within : (In e es → Near e) → In e (d ∷ es) → Near e
    within k (inl q) = subst Near (sym q) (last_before-ge d es rel h.1)
    within k (inr j) = k j

-- In a sorted index the lookup finds the greatest entry that is not past the target, or the start of
-- the segment, which always is a right place to start.
pub lookup_index-Found :
    (es : List IndexEntry) (rel : ℕ) → IsIndex es → Found es rel (lookup_index es rel)
unfolding lookup_index
lookup_index-Found es rel h = record {
  place = last_before-place first_entry es rel;
  furthest = λ e i l. last_before-furthest none first_entry es rel e h i l;
}
