-- ===== src/Io/Paths/Find.antt =====
-- src/io/sim/sim_disk.cpp: what is found under a path after another path has changed.
use log_engine.Prelude.{
  ℕ, ◌≡◌, refl, sym, ◌∙◌, ◌≢◌, inl, inr, true, none, some, List, [], ◌∷◌, arith, Bool-cases, lookup,
}
use log_engine.Io.Paths.{
  same_path, path_before, find_path, put_path, change_path, erase_path, erase_key,
}

pub same_path_eq : (p q : List ℕ) → same_path p q ≡ true → p ≡ q
unfolding same_path
same_path_eq [] [] h = refl
same_path_eq [] (b ∷ q) h = absurd (ground arith)
same_path_eq (a ∷ p) [] h = absurd (ground arith)
same_path_eq (a ∷ p) (b ∷ q) h = ground (arith, same_path_eq p q)

pub same_path_self : (p : List ℕ) → same_path p p ≡ true
unfolding same_path
same_path_self [] = refl
same_path_self (a ∷ p) = ground (arith, same_path_self p)

module _ {ℓ} {V : Type ℓ} where
  pub find-change_other :
      (p q : List ℕ) (g : V → V) (m : List (List ℕ × V))
      → q ≢ p
      → find_path q (change_path p g m) ≡ find_path q m
  unfolding find_path change_path
  find-change_other p q g [] d = refl
  find-change_other p q g ((r, v) ∷ m) d = elim (Bool-cases (same_path r p)) [
    | inl h ↦ elim (Bool-cases (same_path r q)) [
      | inl k ↦ absurd (d (sym (same_path_eq r q k) ∙ same_path_eq r p h))
      | inr k ↦ rw (h, k) refl
    ]
    | inr h ↦ elim (Bool-cases (same_path r q)) [
      | inl k ↦ rw (h, k) refl
      | inr k ↦ rw (h, k) (find-change_other p q g m d)
    ]
  ]

  pub find-erase_other :
      (p q : List ℕ) (m : List (List ℕ × V)) → q ≢ p → find_path q (erase_path p m) ≡ find_path q m
  unfolding find_path erase_path
  find-erase_other p q [] d = refl
  find-erase_other p q ((r, v) ∷ m) d = elim (Bool-cases (same_path r p)) [
    | inl h ↦ elim (Bool-cases (same_path r q)) [
      | inl k ↦ absurd (d (sym (same_path_eq r q k) ∙ same_path_eq r p h))
      | inr k ↦ rw (h, k) refl
    ]
    | inr h ↦ elim (Bool-cases (same_path r q)) [
      | inl k ↦ rw (h, k) refl
      | inr k ↦ rw (h, k) (find-erase_other p q m d)
    ]
  ]

  pub find-put_self :
      (p : List ℕ) (w : V) (m : List (List ℕ × V)) → find_path p (put_path p w m) ≡ some w
  unfolding find_path put_path
  find-put_self p w [] = rw (same_path_self p) refl
  find-put_self p w ((r, u) ∷ m) = elim (Bool-cases (path_before p r)) [
    | inl b ↦ rw (b, same_path_self p) refl
    | inr b ↦ elim (Bool-cases (same_path r p)) [
      | inl k ↦ rw (b, k, same_path_self p) refl
      | inr k ↦ rw (b, k, k) (find-put_self p w m)
    ]
  ]

  pub find-put_absent :
      (p q : List ℕ) (w v : V) (m : List (List ℕ × V))
      → q ≢ p
      → find_path p m ≡ none
      → find_path q m ≡ some v
      → find_path q (put_path p w m) ≡ some v
  unfolding find_path put_path
  find-put_absent p q w v [] d n h = absurd (ground arith)
  find-put_absent p q w v ((r, u) ∷ m) d n h = elim (Bool-cases (path_before p r)) [
    | inl b ↦ elim (Bool-cases (same_path p q)) [
      | inl k ↦ absurd (d (sym (same_path_eq p q k)))
      | inr k ↦ rw (b, k) h
    ]
    | inr b ↦ elim (Bool-cases (same_path r p)) [
      | inl k ↦ absurd (ground (arith, rw k at n))
      | inr k ↦ elim (Bool-cases (same_path r q)) [
        | inl e ↦ rw (b, k, e) (rw e at h)
        | inr e ↦ rw (b, k, e) (find-put_absent p q w v m d (rw k at n) (rw e at h))
      ]
    ]
  ]

  pub lookup-erase_key :
      (k j : ℕ) (m : List (ℕ × V)) → j ≢ k → lookup j (erase_key k m) ≡ lookup j m
  unfolding lookup erase_key
  lookup-erase_key k j [] d = refl
  lookup-erase_key k j ((i, v) ∷ m) d = ground (arith, lookup-erase_key k j m d)
