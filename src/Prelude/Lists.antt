-- ===== src/Prelude/Lists.antt =====
-- Lists measured and indexed by native numbers, under the library's names.
use Prim.Native.Nat.{ℕ, zero, suc, ◌+◌, ◌-◌, ◌≤◌}
use mathlib.Core.Path.{◌≡◌, refl, sym, ap, subst, ◌∙◌}
use mathlib.Core.Logic.{◌⊎◌, inl, inr}
use mathlib.Core.List.{List, [], ◌∷◌, ◌++◌}
use mathlib.Core.Bool.{Bool, true, false}
use native.Mathlib.Nat.{zero-add}
use native.Mathlib.Omega.{arith}

module _ {ℓ} {A : Type ℓ} where
  abbrev pub length : List A → ℕ
  length [] = 0
  length (x ∷ xs) = suc (length xs)

  abbrev pub is_empty : List A → Bool
  is_empty [] = true
  is_empty (x ∷ xs) = false

  abbrev pub get_or : List A → ℕ → A → A
  get_or [] i d = d
  get_or (x ∷ xs) zero d = x
  get_or (x ∷ xs) (suc i) d = get_or xs i d

  abbrev pub take : ℕ → List A → List A
  take zero xs = []
  take (suc n) [] = []
  take (suc n) (x ∷ xs) = x ∷ take n xs

  abbrev pub drop : ℕ → List A → List A
  drop zero xs = xs
  drop (suc n) [] = []
  drop (suc n) (x ∷ xs) = drop n xs

  abbrev pub replicate : ℕ → A → List A
  replicate zero a = []
  replicate (suc n) a = a ∷ replicate n a

  -- `memcpy` of `ys` to position `i`: what falls past the end of `xs` is dropped.
  abbrev pub write_at : List A → ℕ → List A → List A
  write_at xs zero [] = xs
  write_at [] zero (y ∷ ys) = []
  write_at (x ∷ xs) zero (y ∷ ys) = y ∷ write_at xs zero ys
  write_at [] (suc i) ys = []
  write_at (x ∷ xs) (suc i) ys = x ∷ write_at xs i ys

  pub length-replicate : (n : ℕ) (a : A) → length (replicate n a) ≡ n
  length-replicate zero a = refl
  length-replicate (suc n) a = ap suc (length-replicate n a)

  pub length-append : (xs ys : List A) → length (xs ++ ys) ≡ length xs + length ys
  length-append [] ys = omega arith
  length-append (x ∷ xs) ys = omega (arith, length-append xs ys)

  pub write_at_whole : (p q : List A) → length p ≡ length q → write_at p 0 q ≡ q
  write_at_whole [] [] h = refl
  write_at_whole [] (b ∷ q) h = absurd (omega arith)
  write_at_whole (a ∷ p) [] h = absurd (omega arith)
  write_at_whole (a ∷ p) (b ∷ q) h = ap (λ t. b ∷ t) (write_at_whole p q (omega arith))

  pub length-drop : (n : ℕ) (p : List A) → length (drop n p) ≡ length p - n
  length-drop zero p = omega arith
  length-drop (suc n) [] = omega arith
  length-drop (suc n) (a ∷ p) = omega (arith, length-drop n p)

  pub take-whole : (p : List A) → take (length p) p ≡ p
  take-whole [] = refl
  take-whole (b ∷ p) = ap (λ t. b ∷ t) (take-whole p)

  pub nothing_left : (p : List A) → length p ≡ 0 → p ≡ []
  nothing_left [] h = refl
  nothing_left (b ∷ p) h = absurd (omega arith)

  pub drop-write_at : (n : ℕ) (p q : List A) → drop n (write_at p n q) ≡ write_at (drop n p) 0 q
  drop-write_at zero p q = refl
  drop-write_at (suc n) [] [] = refl
  drop-write_at (suc n) [] (b ∷ q) = refl
  drop-write_at (suc n) (a ∷ p) q = drop-write_at n p q

  pub take-write_at : (n : ℕ) (p q : List A) → take n (write_at p n q) ≡ take n p
  take-write_at zero p q = refl
  take-write_at (suc n) [] q = refl
  take-write_at (suc n) (a ∷ p) q = ap (λ t. a ∷ t) (take-write_at n p q)

  -- What is written is read, and what comes after it is left alone.
  pub take_written : (p q : List A) → length q ≤ length p → take (length q) (write_at p 0 q) ≡ q
  take_written p [] h = refl
  take_written [] (b ∷ q) h = absurd (omega arith)
  take_written (a ∷ p) (b ∷ q) h = ap (λ t. b ∷ t) (take_written p q (omega arith))

  pub drop_written : (p q : List A) → drop (length q) (write_at p 0 q) ≡ drop (length q) p
  drop_written p [] = refl
  drop_written [] (b ∷ q) = refl
  drop_written (a ∷ p) (b ∷ q) = drop_written p q

  pub length-write_at : (p : List A) (n : ℕ) (q : List A) → length (write_at p n q) ≡ length p
  length-write_at p zero [] = refl
  length-write_at [] zero (b ∷ q) = refl
  length-write_at (a ∷ p) zero (b ∷ q) = ap suc (length-write_at p zero q)
  length-write_at [] (suc n) q = refl
  length-write_at (a ∷ p) (suc n) q = ap suc (length-write_at p n q)

  pub drop-nil : (n : ℕ) → ◌≡◌ {A = List A} (drop n []) []
  drop-nil zero = refl
  drop-nil (suc n) = refl

  pub drop-drop : (n m : ℕ) (xs : List A) → drop m (drop n xs) ≡ drop (n + m) xs
  drop-drop zero m xs = ap (λ k. drop k xs) (sym (zero-add m))
  drop-drop (suc n) m [] = drop-nil m ∙ sym (drop-nil (suc n + m))
  drop-drop (suc n) m (x ∷ xs) = drop-drop n m xs ∙ ap (λ k. drop k (x ∷ xs)) (shifted n m)
    where
      shifted : (n m : ℕ) → suc (n + m) ≡ suc n + m
      shifted n m = omega arith

  pub drop-append : (n : ℕ) (xs ys : List A) → n ≤ length xs → drop n (xs ++ ys) ≡ drop n xs ++ ys
  drop-append zero xs ys h = refl
  drop-append (suc n) [] ys h = absurd (omega arith)
  drop-append (suc n) (x ∷ xs) ys h = drop-append n xs ys (omega arith)

  pub take_front : (p q : List A) → take (length p) (p ++ q) ≡ p
  take_front [] q = refl
  take_front (b ∷ p) q = ap (λ t. b ∷ t) (take_front p q)

  pub drop_front : (p q : List A) → drop (length p) (p ++ q) ≡ q
  drop_front [] q = refl
  drop_front (b ∷ p) q = drop_front p q

  pub length-take : (n : ℕ) (p : List A) → length (take n p) ≤ n
  length-take zero p = omega arith
  length-take (suc n) [] = omega arith
  length-take (suc n) (b ∷ p) = omega (arith, length-take n p)

  pub length-take_within : (n : ℕ) (p : List A) → n ≤ length p → length (take n p) ≡ n
  length-take_within zero p h = refl
  length-take_within (suc n) [] h = absurd (omega arith)
  length-take_within (suc n) (b ∷ p) h = ap suc (length-take_within n p (omega arith))

  pub take-append : (n : ℕ) (xs ys : List A) → n ≤ length xs → take n (xs ++ ys) ≡ take n xs
  take-append zero xs ys h = refl
  take-append (suc n) [] ys h = absurd (omega arith)
  take-append (suc n) (x ∷ xs) ys h = ap (λ t. x ∷ t) (take-append n xs ys (omega arith))

  -- What is taken from inside a front is not affected by what follows the front.
  pub take_inside :
      (n pos k : ℕ) (xs : List A)
      → pos + k ≤ n
      → take k (drop pos (take n xs)) ≡ take k (drop pos xs)
  take_inside zero pos zero xs h = refl
  take_inside zero pos (suc k) xs h = absurd (omega arith)
  take_inside (suc n) zero zero xs h = refl
  take_inside (suc n) zero (suc k) [] h = refl
  take_inside (suc n) zero (suc k) (x ∷ xs) h =
      ap (λ t. x ∷ t) (take_inside n zero k xs (omega arith))
  take_inside (suc n) (suc pos) k [] h = refl
  take_inside (suc n) (suc pos) k (x ∷ xs) h = take_inside n pos k xs (omega arith)

  pub take-take : (n k : ℕ) (xs : List A) → k ≤ n → take k (take n xs) ≡ take k xs
  take-take n k xs h = take_inside n zero k xs (omega arith)

  pub take_all : (n : ℕ) (xs : List A) → length xs ≤ n → take n xs ≡ xs
  take_all zero [] h = refl
  take_all (suc n) [] h = refl
  take_all zero (x ∷ xs) h = absurd (omega arith)
  take_all (suc n) (x ∷ xs) h = ap (λ t. x ∷ t) (take_all n xs (omega arith))

  pub drop_all : (n : ℕ) (xs : List A) → length xs ≤ n → ◌≡◌ {A = List A} (drop n xs) []
  drop_all n [] h = drop-nil n
  drop_all zero (x ∷ xs) h = absurd (omega arith)
  drop_all (suc n) (x ∷ xs) h = drop_all n xs (omega arith)

  pub take-drop : (n : ℕ) (xs : List A) → take n xs ++ drop n xs ≡ xs
  take-drop zero xs = refl
  take-drop (suc n) [] = refl
  take-drop (suc n) (x ∷ xs) = ap (λ t. x ∷ t) (take-drop n xs)

  pub take-nil : (n : ℕ) → ◌≡◌ {A = List A} (take n []) []
  take-nil zero = refl
  take-nil (suc n) = refl

pub data Empty {ℓ} : Type ℓ where

-- A predicate by recursion computes to tuples, which the tactics read and build.
abbrev pub All {ℓ κ} : {A : Type ℓ} → (A → Type κ) → List A → Type κ
All P [] = Unit
All P (x ∷ xs) = P x × All P xs

-- Membership that can be taken apart into any type.
abbrev pub In {ℓ} : {A : Type ℓ} → A → List A → Type ℓ
In a [] = Empty
In a (x ∷ xs) = (a ≡ x) ⊎ In a xs

module _ {ℓ} {A : Type ℓ} where
  pub In-append : (a : A) (xs ys : List A) → In a (xs ++ ys) → In a xs ⊎ In a ys
  In-append a [] ys h = inr h
  In-append a (x ∷ xs) ys (inl e) = inl (inl e)
  In-append a (x ∷ xs) ys (inr h) = elim (In-append a xs ys h) [
    | inl p ↦ inl (inr p)
    | inr q ↦ inr q
  ]

  pub In-append_left : (a : A) (xs ys : List A) → In a xs → In a (xs ++ ys)
  In-append_left a [] ys h = elim h [ ]
  In-append_left a (x ∷ xs) ys (inl e) = inl e
  In-append_left a (x ∷ xs) ys (inr h) = inr (In-append_left a xs ys h)

  pub In-append_right : (a : A) (xs ys : List A) → In a ys → In a (xs ++ ys)
  In-append_right a [] ys h = h
  In-append_right a (x ∷ xs) ys h = inr (In-append_right a xs ys h)

  pub all_in {κ} : (P : A → Type κ) (a : A) (xs : List A) → All P xs → In a xs → P a
  all_in P a [] h i = elim i [ ]
  all_in P a (x ∷ xs) h (inl e) = subst P (sym e) h.0
  all_in P a (x ∷ xs) h (inr i) = all_in P a xs h.1 i

  pub All-map {κ μ} :
      (P : A → Type κ) (Q : A → Type μ) (xs : List A) → ((a : A) → P a → Q a) → All P xs → All Q xs
  All-map P Q [] f h = tt
  All-map P Q (x ∷ xs) f h = (f x h.0, All-map P Q xs f h.1)
