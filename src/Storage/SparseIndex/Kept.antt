-- ===== src/Storage/SparseIndex/Kept.antt =====
-- src/storage/sparse_index.cpp: what holds of every entry of an index holds of those that are found, kept
-- or added.
use log_engine.Prelude.{
  ℕ, ◌≡◌, sym, subst, inl, inr, some, List, [], ◌∷◌, arith, ltb, if_intro, All, In,
}
use log_engine.Storage.SparseIndex.{
  IndexEntry, back, push_back, leaves_room, maybe_add, truncate_index,
}

pub back-All :
    (P : IndexEntry → Type 0) (es : List IndexEntry) (e : IndexEntry)
    → All P es
    → back es ≡ some e
    → P e
back-All P [] e a h = absurd (ground arith)
back-All P (x ∷ []) e a h = subst P (ground arith) a.0
back-All P (x ∷ y ∷ es) e a h = back-All P (y ∷ es) e a.1 h

pub truncate_index-All :
    (P : IndexEntry → Type 0) (es : List IndexEntry) (pos : ℕ)
    → All P es
    → All P (truncate_index es pos)
unfolding truncate_index
truncate_index-All P [] pos a = tt
truncate_index-All P (e ∷ es) pos a =
    if_intro (All P) (ltb e.file_pos pos) _ _ (λ _. (a.0, truncate_index-All P es pos a.1))
      (λ _. tt)

pub maybe_add-All :
    (P : IndexEntry → Type 0) (es : List IndexEntry) (rel pos interval : ℕ)
    → All P es
    → P (record { rel_offset = rel; file_pos = pos })
    → All P (maybe_add es rel pos interval)
unfolding maybe_add
maybe_add-All P es rel pos interval a q =
    if_intro (All P) (leaves_room (back es) rel pos interval) _ _ (λ _. pushed es a) (λ _. a)
  where
    pushed :
        (es : List IndexEntry)
        → All P es
        → All P (push_back es (record { rel_offset = rel; file_pos = pos }))
    pushed [] a = (q, tt)
    pushed (e ∷ es) a = (a.0, pushed es a.1)

pub All-In :
    (P : IndexEntry → Type 0) (es : List IndexEntry) (e : IndexEntry) → All P es → In e es → P e
All-In P [] e a i = elim i [ ]
All-In P (x ∷ es) e a (inl q) = subst P (sym q) a.0
All-In P (x ∷ es) e a (inr i) = All-In P es e a.1 i

pub All-both :
    (P Q R : IndexEntry → Type 0) (es : List IndexEntry)
    → ((e : IndexEntry) → P e → Q e → R e)
    → All P es
    → All Q es
    → All R es
All-both P Q R [] f a b = tt
All-both P Q R (e ∷ es) f a b = (f e a.0 b.0, All-both P Q R es f a.1 b.1)
