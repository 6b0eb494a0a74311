-- ===== src/Storage/SparseIndex/Sorted.antt =====
-- src/storage/sparse_index.cpp: the entries rise strictly in both fields, whatever is read back.
use log_engine.Prelude.{
  ℕ, ◌<◌, ◌≡◌, refl, sym, ap, subst, inl, inr, true, false, Option, none, some, List, [], ◌∷◌,
  arith, ltb, if_intro, All, In,
}
use log_engine.Storage.SparseIndex.{
  IndexEntry, back, push_back, leaves_room, maybe_add, truncate_index, follows,
}

-- Entry after entry, both fields rise.
abbrev pub RisesFrom : Option IndexEntry → List IndexEntry → Type 0
RisesFrom b [] = Unit {0}
RisesFrom b (e ∷ es) = (follows b e ≡ true) × RisesFrom (some e) es

abbrev pub IsIndex : List IndexEntry → Type 0
IsIndex es = RisesFrom none es

last_or : Option IndexEntry → List IndexEntry → Option IndexEntry
last_or b [] = b
last_or b (e ∷ es) = last_or (some e) es

back_lem : (es : List IndexEntry) → back es ≡ last_or none es
unfolding last_or
back_lem [] = refl
back_lem (e ∷ es) = from e es
  where
    from : (e : IndexEntry) (es : List IndexEntry) → back (e ∷ es) ≡ last_or (some e) es
    from e [] = refl
    from e (d ∷ es) = from d es

push_back-RisesFrom :
    (b : Option IndexEntry) (es : List IndexEntry) (e : IndexEntry)
    → RisesFrom b es
    → follows (last_or b es) e ≡ true
    → RisesFrom b (push_back es e)
unfolding last_or
push_back-RisesFrom b [] e h f = (f, tt)
push_back-RisesFrom b (d ∷ es) e h f = (h.0, push_back-RisesFrom (some d) es e h.1 f)

pub push_back-IsIndex :
    (es : List IndexEntry) (e : IndexEntry)
    → IsIndex es
    → follows (back es) e ≡ true
    → IsIndex (push_back es e)
push_back-IsIndex es e h f =
    push_back-RisesFrom none es e h (subst (λ b. follows b e ≡ true) (back_lem es) f)

room-follows :
    (b : Option IndexEntry) (rel pos interval : ℕ)
    → leaves_room b rel pos interval ≡ true
    → follows b (record { rel_offset = rel; file_pos = pos }) ≡ true
room-follows none rel pos interval h = refl
room-follows (some last) rel pos interval h = ground arith

-- Adding keeps the order: an entry that would break it is left out.
pub maybe_add-IsIndex :
    (es : List IndexEntry) (rel pos interval : ℕ)
    → IsIndex es
    → IsIndex (maybe_add es rel pos interval)
unfolding maybe_add
maybe_add-IsIndex es rel pos interval h =
    if_intro IsIndex (leaves_room (back es) rel pos interval) _ _
      (λ p. push_back-IsIndex es _ h (room-follows (back es) rel pos interval p)) (λ _. h)

truncate_index-RisesFrom :
    (b : Option IndexEntry) (es : List IndexEntry) (pos : ℕ)
    → RisesFrom b es
    → RisesFrom b (truncate_index es pos)
unfolding truncate_index
truncate_index-RisesFrom b [] pos h = tt
truncate_index-RisesFrom b (e ∷ es) pos h =
    if_intro (RisesFrom b) (ltb e.file_pos pos) _ _
      (λ _. (h.0, truncate_index-RisesFrom (some e) es pos h.1)) (λ _. tt)

-- Every entry points below the position.
abbrev pub PointsBelow : ℕ → List IndexEntry → Type 0
PointsBelow pos es = All (λ e. e.file_pos < pos) es

truncate_index-PointsBelow :
    (es : List IndexEntry) (pos : ℕ) → PointsBelow pos (truncate_index es pos)
unfolding truncate_index
truncate_index-PointsBelow [] pos = tt
truncate_index-PointsBelow (e ∷ es) pos =
    if_intro (PointsBelow pos) (ltb e.file_pos pos) _ _
      (λ p. (ground arith, truncate_index-PointsBelow es pos)) (λ _. tt)

-- Whatever comes after an entry is past it in both fields.
pub later_entries :
    (d : IndexEntry) (es : List IndexEntry) (e : IndexEntry)
    → RisesFrom (some d) es
    → In e es
    → (d.rel_offset < e.rel_offset) × (d.file_pos < e.file_pos)
later_entries d [] e h i = elim i [ ]
later_entries d (x ∷ es) e h (inl q) =
    subst (λ y. (d.rel_offset < y.rel_offset) × (d.file_pos < y.file_pos)) (sym q) (past (h.0))
  where
    past : follows (some d) x ≡ true → (d.rel_offset < x.rel_offset) × (d.file_pos < x.file_pos)
    past f = (ground arith, ground arith)
later_entries d (x ∷ es) e h (inr i) =
    let (r, p) = later_entries x es e h.1 i in let f = h.0 in (ground arith, ground arith)

-- Nothing that stays in range is lost.
truncate_index-keeps :
    (b : Option IndexEntry) (es : List IndexEntry) (pos : ℕ) (e : IndexEntry)
    → RisesFrom b es
    → In e es
    → e.file_pos < pos
    → In e (truncate_index es pos)
unfolding truncate_index
truncate_index-keeps b [] pos e h i l = elim i [ ]
truncate_index-keeps b (d ∷ es) pos e h i l =
    if_intro (In e) (ltb d.file_pos pos) _ _
      (λ _. here (λ j. truncate_index-keeps (some d) es pos e h.1 j l) i)
      (λ p. absurd (out_of_range i p))
  where
    here :
        (In e es → In e (truncate_index es pos)) → In e (d ∷ es) → In e (d ∷ truncate_index es pos)
    here k (inl q) = inl q
    here k (inr j) = inr (k j)

    out_of_range : In e (d ∷ es) → ltb d.file_pos pos ≡ false → ⊥
    out_of_range (inl q) p = ground (arith, ap (λ x. x.file_pos) q)
    out_of_range (inr j) p = ground (arith, later_entries d es e h.1 j)

-- Truncation keeps the order, and exactly the entries that point below the position.
pub truncate_index_lem :
    (es : List IndexEntry) (pos : ℕ)
    → IsIndex es
    → IsIndex (truncate_index es pos)
      × PointsBelow pos (truncate_index es pos)
      × ((e : IndexEntry) → In e es → e.file_pos < pos → In e (truncate_index es pos))
truncate_index_lem es pos h = (
  truncate_index-RisesFrom none es pos h,
  truncate_index-PointsBelow es pos,
  λ e i l. truncate_index-keeps none es pos e h i l,
)
