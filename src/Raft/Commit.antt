-- ===== src/Raft/Commit.antt =====
-- src/raft/node.cpp: `advance_commit_index`, the rule of Raft 5.3 and 5.4.2.
use log_engine.Prelude.{
  ℕ, zero, suc, ◌+◌, ◌-◌, ◌≤◌, ◌<◌, ◌≡◌, refl, ap, ◌∙◌, ◌≢◌, ◌↔◌, inl, inr, sym, List, [], ◌∷◌,
  ◌++◌, map, All, Bool-cases, arith, leb, if◌then◌else◌, length, get_or,
}
use mathlib.Core.List.{append_assoc}
use log_engine.Raft.Epochs.{epoch_of, term_or_none, term_at}
use log_engine.Raft.Quiet.{All-append}
use log_engine.Raft.Replication.{
  match_end, insert_desc, sort_desc, ends, quorum_end, advance_commit_index,
}
use log_engine.Raft.State.{Node}
use log_engine.Raft.Types.{Epoch, no_term, leader, cluster_size, quorum}

-- How many of the numbers reach `c`.
abbrev pub count_reaching : ℕ → List ℕ → ℕ
count_reaching c [] = 0
count_reaching c (x ∷ xs) = if leb c x then suc (count_reaching c xs) else count_reaching c xs

-- How many members are known to hold the log up to `c`, this one included.
abbrev pub holders : Node → ℕ → ℕ
holders n c = count_reaching c (ends n)

-- Falling numbers, none above `hi`.
abbrev Falling : ℕ → List ℕ → Type 0
Falling hi [] = Unit {0}
Falling hi (x ∷ xs) = (x ≤ hi) × Falling x xs

insert_desc-Falling :
    (hi x : ℕ) (xs : List ℕ) → x ≤ hi → Falling hi xs → Falling hi (insert_desc x xs)
unfolding insert_desc
insert_desc-Falling hi x [] h f = (h, tt)
insert_desc-Falling hi x (y ∷ ys) h f = ground (arith, insert_desc-Falling y x ys)

Falling-mono : (lo hi : ℕ) (xs : List ℕ) → lo ≤ hi → Falling lo xs → Falling hi xs
Falling-mono lo hi [] h f = tt
Falling-mono lo hi (x ∷ xs) h f = (omega arith, f.1)

highest : List ℕ → ℕ
highest [] = 0
highest (x ∷ xs) = x + highest xs

sort_desc-Falling : (xs : List ℕ) → Falling (highest xs) (sort_desc xs)
unfolding sort_desc highest
sort_desc-Falling [] = tt
sort_desc-Falling (x ∷ xs) =
    insert_desc-Falling _ x (sort_desc xs) (omega arith)
      (Falling-mono (highest xs) _ (sort_desc xs) (omega arith) (sort_desc-Falling xs))

count_reaching-insert_desc :
    (c x : ℕ) (xs : List ℕ) → count_reaching c (insert_desc x xs) ≡ count_reaching c (x ∷ xs)
unfolding insert_desc
count_reaching-insert_desc c x [] = refl
count_reaching-insert_desc c x (y ∷ ys) = ground (arith, count_reaching-insert_desc c x ys)

count_reaching-sort_desc :
    (c : ℕ) (xs : List ℕ) → count_reaching c (sort_desc xs) ≡ count_reaching c xs
unfolding sort_desc
count_reaching-sort_desc c [] = refl
count_reaching-sort_desc c (x ∷ xs) =
    ground (arith, count_reaching-insert_desc c x (sort_desc xs), count_reaching-sort_desc c xs)

length-insert_desc : (x : ℕ) (xs : List ℕ) → length (insert_desc x xs) ≡ suc (length xs)
unfolding insert_desc
length-insert_desc x [] = refl
length-insert_desc x (y ∷ ys) = ground (arith, length-insert_desc x ys)

length-sort_desc : (xs : List ℕ) → length (sort_desc xs) ≡ length xs
unfolding sort_desc
length-sort_desc [] = refl
length-sort_desc (x ∷ xs) = length-insert_desc x (sort_desc xs) ∙ ap suc (length-sort_desc xs)

none_reach : (c hi : ℕ) (xs : List ℕ) → hi < c → Falling hi xs → count_reaching c xs ≡ 0
none_reach c hi [] h f = refl
none_reach c hi (x ∷ xs) h f = ground (arith, none_reach c x xs)

get_or-Falling : (hi i : ℕ) (xs : List ℕ) → Falling hi xs → get_or xs i 0 ≤ hi
get_or-Falling hi i [] f = omega arith
get_or-Falling hi zero (x ∷ xs) f = f.0
get_or-Falling hi (suc i) (x ∷ xs) f = omega (arith, get_or-Falling x i xs f.1, f.0)

-- In a falling list the number at place `i` is the highest that `i + 1` numbers reach.
reached_at :
    (c hi i : ℕ) (xs : List ℕ)
    → Falling hi xs
    → i < length xs
    → (c ≤ get_or xs i 0) ↔ (suc i ≤ count_reaching c xs)
reached_at c hi i [] f h = absurd (omega arith)
reached_at c hi zero (x ∷ xs) f h = ground (arith, none_reach c x xs)
reached_at c hi (suc i) (x ∷ xs) f h =
    let r = reached_at c x i xs f.1 (omega arith) in
    let g = get_or-Falling x i xs f.1 in ground (arith, none_reach c x xs)

length-ends : (n : Node) → length (ends n) ≡ cluster_size n.config
unfolding ends
length-ends n = omega (arith, length-map (match_end n) n.config.peers)
  where
    length-map : (f : ℕ → ℕ) (xs : List ℕ) → length (map f xs) ≡ length xs
    length-map f [] = refl
    length-map f (x ∷ xs) = ap suc (length-map f xs)

-- The quorum-th of the sorted ends is the highest end that a quorum has reached: a quorum holds
-- the log up to `c` exactly when `c` is not above it.
pub quorum_end_lem : (n : Node) (c : ℕ) → (c ≤ quorum_end n) ↔ (quorum n.config ≤ holders n c)
unfolding quorum_end
quorum_end_lem n c =
    let r =
      reached_at c (highest (ends n)) (quorum n.config - 1) (sort_desc (ends n))
        (sort_desc-Falling (ends n)) (omega (arith, length-sort_desc (ends n), length-ends n)) in
    let e = count_reaching-sort_desc c (ends n) in ground arith

-- The entry at `index` is in the log, and the newest epoch that starts at or before it is one of the
-- term `t`.
pub record IsOfTerm (n : Node) (index t : ℕ) : Type 0 where
  pub held : index < n.log_end
  pub newer : List Epoch
  pub epoch : Epoch
  pub older : List Epoch
  pub split : n.epochs ≡ newer ++ (epoch ∷ older)
  pub later : All (λ d. index < d.start) newer
  pub started : epoch.start ≤ index
  pub term : epoch.term ≡ t

in_epoch :
    (n : Node) (index t : ℕ) (newer es : List Epoch)
    → index < n.log_end
    → t ≢ no_term
    → n.epochs ≡ newer ++ es
    → All (λ d. index < d.start) newer
    → term_or_none (epoch_of es index) ≡ t
    → IsOfTerm n index t
unfolding epoch_of
in_epoch n index t newer [] l z s a e = absurd (z (sym e))
in_epoch n index t newer (d ∷ es) l z s a e = elim (Bool-cases (leb d.start index)) [
  | inl h ↦ record {
    held = l;
    newer = newer;
    epoch = d;
    older = es;
    split = s;
    later = a;
    started = ground (arith, h);
    term = rw h at e;
  }
  | inr h ↦
      in_epoch n index t (newer ++ (d ∷ [])) es l z (s ∙ sym (append_assoc newer (d ∷ []) es))
        (All-append _ newer (d ∷ []) a (ground (arith, h), tt)) (rw h at e)
]

term_at-IsOfTerm : (n : Node) (index t : ℕ) → t ≢ no_term → term_at n index ≡ t → IsOfTerm n index t
unfolding term_at
term_at-IsOfTerm n index t z e = elim (Bool-cases (leb n.log_end index)) [
  | inl h ↦ absurd (z (sym (rw h at e)))
  | inr h ↦ in_epoch n index t [] n.epochs (ground (arith, h)) z refl tt (rw h at e)
]

pub record Commits (n n' : Node) : Type 0 where
  pub only : n' ≡ record n { commit_index = n'.commit_index }
  pub forward : n.commit_index ≤ n'.commit_index
  pub held : n'.commit_index ≢ n.commit_index → quorum n.config ≤ holders n n'.commit_index
  pub current : n'.commit_index ≢ n.commit_index → term_at n (n'.commit_index - 1) ≡ n.hard.term
  pub owned :
      n'.commit_index ≢ n.commit_index
      → n.hard.term ≢ no_term
      → IsOfTerm n (n'.commit_index - 1) n.hard.term
  pub highest_held :
      (c : ℕ)
      → n.role ≡ leader
      → quorum n.config ≤ holders n c
      → term_at n (quorum_end n - 1) ≡ n.hard.term
      → c ≤ n'.commit_index

-- Nothing but the commit index changes, and it does not fall. Where it moves, a quorum holds the log
-- up to it and the last entry below it is of the node's own term, which, unless it is 0, is the term
-- of the newest epoch that starts at or before that entry of the log. If the node is a leader and the
-- last entry that a quorum holds is of its term, then everything that a quorum holds is committed.
pub advance_commit_index-Commits : (n : Node) → Commits n (advance_commit_index n)
unfolding advance_commit_index
advance_commit_index-Commits n = record {
  only = ground arith;
  forward = ground arith;
  held = λ d. (quorum_end_lem n _).0 (ground arith);
  current = ground arith;
  owned = λ d z. term_at-IsOfTerm n _ n.hard.term z (ground arith);
  highest_held = λ c r h t. let b = (quorum_end_lem n c).1 h in ground arith;
}
