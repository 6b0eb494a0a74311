-- ===== src/Io/SimFile/Images.antt =====
-- src/io/sim/sim_disk.cpp: images byte by byte. Past its end an image reads as zero, which is what it
-- is filled with when it grows.
use log_engine.Prelude.{
  ℕ, zero, suc, ◌+◌, ◌-◌, ◌≤◌, ◌<◌, ◌≡◌, refl, sym, ap, ◌∙◌, inl, inr, true, List, [], ◌∷◌, arith,
  ltb, leb, ◌==◌, Bool-cases, if_intro, length, get_or, take, write_at, length-write_at,
  length-take,
}
use mathlib.Core.Path.{ap₂}
use log_engine.Base.Endian.{byte_at}
use log_engine.Io.SimFile.{resize, apply_bytes}

pub length-resize : (n : ℕ) (p : List ℕ) → length (resize n p) ≡ n
unfolding resize
length-resize zero p = refl
length-resize (suc n) [] = ap suc (length-resize n [])
length-resize (suc n) (b ∷ p) = ap suc (length-resize n p)

byte_at-resize : (n : ℕ) (p : List ℕ) (i : ℕ) → i < n → byte_at (resize n p) i ≡ byte_at p i
unfolding resize
byte_at-resize zero p i h = absurd (omega arith)
byte_at-resize (suc n) [] zero h = refl
byte_at-resize (suc n) [] (suc i) h = byte_at-resize n [] i (omega arith)
byte_at-resize (suc n) (b ∷ p) zero h = refl
byte_at-resize (suc n) (b ∷ p) (suc i) h = byte_at-resize n p i (omega arith)

byte_at-past : (p : List ℕ) (i : ℕ) → length p ≤ i → byte_at p i ≡ 0
byte_at-past [] i h = refl
byte_at-past (b ∷ p) zero h = absurd (omega arith)
byte_at-past (b ∷ p) (suc i) h = byte_at-past p i (omega arith)

-- The byte at `i` where `q` lies over a byte `d` from `at` on.
abbrev pub patch : List ℕ → ℕ → ℕ → ℕ → ℕ
patch q zero i d = get_or q i d
patch q (suc at) zero d = d
patch q (suc at) (suc i) d = patch q at i d

byte_at-write_at :
    (p : List ℕ) (at : ℕ) (q : List ℕ) (i : ℕ)
    → at + length q ≤ length p
    → byte_at (write_at p at q) i ≡ patch q at i (byte_at p i)
byte_at-write_at p zero [] i h = refl
byte_at-write_at [] zero (b ∷ q) i h = absurd (omega arith)
byte_at-write_at (a ∷ p) zero (b ∷ q) zero h = refl
byte_at-write_at (a ∷ p) zero (b ∷ q) (suc i) h = byte_at-write_at p zero q i (omega arith)
byte_at-write_at [] (suc at) q i h = absurd (omega arith)
byte_at-write_at (a ∷ p) (suc at) q zero h = refl
byte_at-write_at (a ∷ p) (suc at) q (suc i) h = byte_at-write_at p at q i (omega arith)

grown_reads : (n : ℕ) (p : List ℕ) (i : ℕ) → length p ≤ n → byte_at (resize n p) i ≡ byte_at p i
grown_reads n p i h = elim (Bool-cases (ltb i n)) [
  | inl e ↦ byte_at-resize n p i (ground arith)
  | inr e ↦
      byte_at-past (resize n p) i (ground (arith, length-resize n p))
      ∙ sym (byte_at-past p i (ground arith))
]

-- A write puts its bytes over the image, which reads as zero where it had not been.
pub byte_at-apply_bytes :
    (p : List ℕ) (at : ℕ) (q : List ℕ) (i : ℕ)
    → byte_at (apply_bytes p at q) i ≡ patch q at i (byte_at p i)
unfolding apply_bytes
byte_at-apply_bytes p at q i =
    if_intro (λ r. byte_at r i ≡ patch q at i (byte_at p i)) (length q == 0) p _
      (λ e. sym (no_patch q at i (byte_at p i) (ground arith)))
      λ e.
        if_intro (λ r. byte_at (write_at r at q) i ≡ patch q at i (byte_at p i))
          (ltb (length p) (at + length q)) (resize (at + length q) p) p
          (λ s.
            byte_at-write_at (resize (at + length q) p) at q i
              (omega (arith, length-resize (at + length q) p))
            ∙ ap (patch q at i) (grown_reads (at + length q) p i (ground arith)))
          (λ s. byte_at-write_at p at q i (ground arith))
  where
    no_patch : (q : List ℕ) (at i d : ℕ) → length q ≡ 0 → patch q at i d ≡ d
    no_patch [] zero i d h = refl
    no_patch (b ∷ q) zero i d h = absurd (omega arith)
    no_patch q (suc at) zero d h = refl
    no_patch q (suc at) (suc i) d h = no_patch q at i d h

pub length-apply_bytes :
    (p : List ℕ) (at : ℕ) (q : List ℕ)
    → at + length q ≤ length p
    → length (apply_bytes p at q) ≡ length p
unfolding apply_bytes
length-apply_bytes p at q h =
    if_intro (λ r. length r ≡ length p) (length q == 0) p _ (λ _. refl)
      λ _.
        if_intro (λ r. length (write_at r at q) ≡ length p) (ltb (length p) (at + length q)) _ p
          (λ s. absurd (ground arith)) (λ _. length-write_at p at q)

-- Two images of one length that read the same are the same.
same_image :
    (p q : List ℕ)
    → length p ≡ length q
    → ((i : ℕ) → i < length p → byte_at p i ≡ byte_at q i)
    → p ≡ q
same_image [] [] e f = refl
same_image [] (b ∷ q) e f = absurd (omega arith)
same_image (a ∷ p) [] e f = absurd (omega arith)
same_image (a ∷ p) (b ∷ q) e f =
    ap₂ (λ x y. x ∷ y) (f 0 (omega arith))
      (same_image p q (omega arith) (λ i h. f (suc i) (omega arith)))

-- Within its first `k` bytes a write that is cut off after them reads like the whole one.
patch-take : (q : List ℕ) (at i k d : ℕ) → i < at + k → patch (take k q) at i d ≡ patch q at i d
patch-take q zero i zero d h = absurd (omega arith)
patch-take [] zero i (suc k) d h = refl
patch-take (b ∷ q) zero zero (suc k) d h = refl
patch-take (b ∷ q) zero (suc i) (suc k) d h = patch-take q zero i k d (omega arith)
patch-take q (suc at) zero k d h = refl
patch-take q (suc at) (suc i) k d h = patch-take q at i k d (omega arith)

clipped_length :
    (n : ℕ) (p : List ℕ) (at : ℕ) (q : List ℕ)
    → length (apply_bytes (resize n p) at (take (n - at) q)) ≡ n
unfolding apply_bytes
clipped_length n p at q = elim (Bool-cases (leb n at)) [
  | inl e ↦
      ap (λ k. length (apply_bytes (resize n p) at (take k q))) (nothing e) ∙ length-resize n p
  | inr e ↦
      length-apply_bytes (resize n p) at (take (n - at) q)
        (ground (arith, length-resize n p, length-take (n - at) q))
      ∙ length-resize n p
]
  where
    nothing : leb n at ≡ true → n - at ≡ 0
    nothing e = ground arith

-- Truncation after a write is the write of what is left inside, after truncation.
pub resize-apply_bytes :
    (n : ℕ) (p : List ℕ) (at : ℕ) (q : List ℕ)
    → resize n (apply_bytes p at q) ≡ apply_bytes (resize n p) at (take (n - at) q)
resize-apply_bytes n p at q =
    same_image _ _ (length-resize n (apply_bytes p at q) ∙ sym (clipped_length n p at q)) λ i h.
      let l : i < n = omega (arith, length-resize n (apply_bytes p at q)) in
      byte_at-resize n (apply_bytes p at q) i l
      ∙ byte_at-apply_bytes p at q i
      ∙ sym (
          byte_at-apply_bytes (resize n p) at (take (n - at) q) i
          ∙ ap (patch (take (n - at) q) at i) (byte_at-resize n p i l)
          ∙ patch-take q at i (n - at) (byte_at p i) (omega arith))
