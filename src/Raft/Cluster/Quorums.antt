-- ===== src/Raft/Cluster/Quorums.antt =====
-- Two quorums of one cluster have a member in common.
use log_engine.Prelude.{
  ℕ, suc, ◌+◌, ◌/◌, ◌≤◌, ◌<◌, ◌≡◌, refl, ◌≢◌, ◌⊎◌, inl, inr, List, [], ◌∷◌, ◌++◌, arith, ◌==◌,
  if◌then◌else◌, Bool-cases, length, length-append, All, In,
}
use log_engine.Raft.Ballots.{Rising}
use log_engine.Raft.Quiet.{All-append}

remove : ℕ → List ℕ → List ℕ
remove a [] = []
remove a (x ∷ xs) = if x == a then xs else x ∷ remove a xs

length-remove : (a : ℕ) (xs : List ℕ) → In a xs → suc (length (remove a xs)) ≡ length xs
unfolding remove
length-remove a [] h = elim h [ ]
length-remove a (x ∷ xs) h = ground (arith, length-remove a xs)

In-remove : (a b : ℕ) (xs : List ℕ) → In b xs → b ≢ a → In b (remove a xs)
unfolding remove
In-remove a b [] h d = elim h [ ]
In-remove a b (x ∷ xs) h d = ground (arith, In-remove a b xs)

-- No number twice.
abbrev pub Distinct : List ℕ → Type 0
Distinct [] = Unit {0}
Distinct (x ∷ xs) = All (λ y. y ≢ x) xs × Distinct xs

abbrev AllIn : List ℕ → List ℕ → Type 0
AllIn xs ys = All (λ v. In v ys) xs

remove-AllIn : (a : ℕ) (xs ys : List ℕ) → All (λ y. y ≢ a) xs → AllIn xs ys → AllIn xs (remove a ys)
remove-AllIn a [] ys d h = tt
remove-AllIn a (x ∷ xs) ys d h = (In-remove a x ys h.0 d.0, remove-AllIn a xs ys d.1 h.1)

Distinct-length : (xs ys : List ℕ) → Distinct xs → AllIn xs ys → length xs ≤ length ys
Distinct-length [] ys d h = omega arith
Distinct-length (x ∷ xs) ys d h = omega (
  arith,
  length-remove x ys h.0,
  Distinct-length xs (remove x ys) d.1 (remove-AllIn x xs ys d.0 h.1),
)

Rising-above : (lo x : ℕ) (xs : List ℕ) → Rising lo xs → x < lo → All (λ y. y ≢ x) xs
Rising-above lo x [] r h = tt
Rising-above lo x (y ∷ ys) r h = (λ e. omega arith, Rising-above (suc y) x ys r.1 (omega arith))

Rising-Distinct : (lo : ℕ) (xs : List ℕ) → Rising lo xs → Distinct xs
Rising-Distinct lo [] r = tt
Rising-Distinct lo (x ∷ xs) r =
    (Rising-above (suc x) x xs r.1 (omega arith), Rising-Distinct (suc x) xs r.1)

find-In : (a : ℕ) (ys : List ℕ) → In a ys ⊎ All (λ y. y ≢ a) ys
find-In a [] = inr tt
find-In a (y ∷ ys) = elim (Bool-cases (y == a)) [
  | inl e ↦ inl (inl (ground arith))
  | inr e ↦ elim (find-In a ys) [ inl h ↦ inl (inr h) | inr h ↦ inr (ground arith, h) ]
]

-- A common member, or none.
find_common : (xs ys : List ℕ) → ((v : ℕ) × In v xs × In v ys) ⊎ All (λ x. All (λ y. y ≢ x) ys) xs
find_common [] ys = inr tt
find_common (x ∷ xs) ys = elim (find-In x ys) [
  | inl h ↦ inl (x, inl refl, h)
  | inr d ↦ elim (find_common xs ys) [ inl (v, p, q) ↦ inl (v, inr p, q) | inr r ↦ inr (d, r) ]
]

apart :
    (xs ys : List ℕ)
    → All (λ x. All (λ y. y ≢ x) ys) xs
    → Distinct xs
    → Distinct ys
    → Distinct (xs ++ ys)
apart [] ys a dx dy = dy
apart (x ∷ xs) ys a dx dy = (All-append _ xs ys dx.0 a.0, apart xs ys a.1 dx.1 dy)

too_many :
    (ids xs ys : List ℕ)
    → All (λ x. All (λ y. y ≢ x) ys) xs
    → Distinct xs
    → Distinct ys
    → AllIn xs ids
    → AllIn ys ids
    → length xs + length ys ≤ length ids
too_many ids xs ys a dx dy hx hy = omega (
  arith,
  length-append xs ys,
  Distinct-length (xs ++ ys) ids (apart xs ys a dx dy) (All-append _ xs ys hx hy),
)

pub quorums_meet :
    (ids xs ys : List ℕ)
    → Rising 0 xs
    → Rising 0 ys
    → All (λ v. In v ids) xs
    → All (λ v. In v ids) ys
    → length ids / 2 + 1 ≤ length xs
    → length ids / 2 + 1 ≤ length ys
    → (v : ℕ) × In v xs × In v ys
quorums_meet ids xs ys rx ry hx hy qx qy = elim (find_common xs ys) [
  | inl c ↦ c
  | inr a ↦ absurd (
      omega (arith, too_many ids xs ys a (Rising-Distinct 0 xs rx) (Rising-Distinct 0 ys ry) hx hy))
]
