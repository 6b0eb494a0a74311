-- ===== src/Io/SimFile/Patch.antt =====
-- src/io/sim/sim_disk.cpp: a write inside or at the end of an image, a read, and a cut.
use log_engine.Prelude.{
  ℕ, zero, suc, ◌+◌, ◌≤◌, ◌<◌, min, ◌≡◌, refl, sym, ap, ◌∙◌, inl, inr, false, List, [], ◌∷◌, ◌++◌,
  arith, ltb, leb, ◌==◌, Bool-cases, if_intro, length, take, drop, write_at, length-drop,
  take-whole, take_all, drop_all, take-drop, take-nil,
}
use native.Mathlib.Nat.{min-eq_left, min-eq_right}
use log_engine.Io.SimFile.{File, resize, apply_bytes, read_file}
use log_engine.Io.SimFile.Images.{length-resize}

pub resize_shorter : (n : ℕ) (b : List ℕ) → n ≤ length b → resize n b ≡ take n b
unfolding resize
resize_shorter zero b h = refl
resize_shorter (suc n) [] h = absurd (omega arith)
resize_shorter (suc n) (x ∷ b) h = ap (λ t. x ∷ t) (resize_shorter n b (omega arith))

take-resize : (n k : ℕ) (b : List ℕ) → k ≤ n → k ≤ length b → take k (resize n b) ≡ take k b
unfolding resize
take-resize n zero b h l = refl
take-resize zero (suc k) b h l = absurd (omega arith)
take-resize (suc n) (suc k) [] h l = absurd (omega arith)
take-resize (suc n) (suc k) (x ∷ b) h l =
    ap (λ t. x ∷ t) (take-resize n k b (omega arith) (omega arith))

shifted : (m n : ℕ) → suc (m + n) ≡ m + suc n
shifted m n = omega arith

moved : (m n : ℕ) → suc (m + n) ≡ suc m + n
moved m n = omega arith

write_at_lem :
    (b new : List ℕ) (pos : ℕ)
    → pos + length new ≤ length b
    → write_at b pos new ≡ take pos b ++ (new ++ drop (pos + length new) b)
write_at_lem b [] zero h = refl
write_at_lem [] (x ∷ new) zero h = absurd (omega arith)
write_at_lem (y ∷ b) (x ∷ new) zero h =
    ap (λ t. x ∷ t) (write_at_lem b new 0 (omega arith))
    ∙ ap (λ n. x ∷ (new ++ drop n (y ∷ b))) (shifted 0 (length new))
write_at_lem [] new (suc pos) h = absurd (omega arith)
write_at_lem (y ∷ b) new (suc pos) h =
    ap (λ t. y ∷ t) (write_at_lem b new pos (omega arith))
    ∙ ap (λ n. y ∷ (take pos b ++ (new ++ drop n (y ∷ b)))) (moved pos (length new))

pub apply_bytes_lem :
    (b new : List ℕ) (pos : ℕ)
    → pos ≤ length b
    → apply_bytes b pos new ≡ take pos b ++ (new ++ drop (pos + length new) b)
unfolding apply_bytes
apply_bytes_lem b [] pos h = sym (ap (λ n. take pos b ++ drop n b) (none pos) ∙ take-drop pos b)
  where
    none : (n : ℕ) → n + 0 ≡ n
    none n = omega arith
apply_bytes_lem b (x ∷ new) pos h = rw positive (
    if_intro
      (λ (l : List ℕ).
        write_at l pos (x ∷ new) ≡ take pos b ++ ((x ∷ new) ++ drop (pos + suc (length new)) b))
      (ltb (length b) (pos + suc (length new))) _ _ (λ t. grown (ground arith))
      (λ t. write_at_lem b (x ∷ new) pos (ground arith)))
  where
    positive : (suc (length new) == 0) ≡ false
    positive = ground arith

    end : ℕ
    end = pos + suc (length new)

    grown :
        length b < end
        → write_at (resize end b) pos (x ∷ new) ≡ take pos b ++ ((x ∷ new) ++ drop end b)
    grown t =
        write_at_lem (resize end b) (x ∷ new) pos (omega (arith, length-resize end b))
        ∙ ap (λ l. l ++ ((x ∷ new) ++ drop end (resize end b)))
            (take-resize end pos b (omega arith) h)
        ∙ ap (λ l. take pos b ++ ((x ∷ new) ++ l))
            (drop_all end (resize end b) (omega (arith, length-resize end b))
              ∙ sym (drop_all end b (omega arith)))

take-min : (k : ℕ) (b : List ℕ) → take (min k (length b)) b ≡ take k b
take-min k b = elim (Bool-cases (leb k (length b))) [
  | inl h ↦ ap (λ n. take n b) (min-eq_left (ground arith))
  | inr h ↦
      ap (λ n. take n b) (min-eq_right (ground arith))
      ∙ take-whole b
      ∙ sym (take_all k b (ground arith))
]

pub read_file_lem :
    (count pos : ℕ) (f : File) → read_file count pos f ≡ take count (drop pos f.visible)
unfolding read_file
read_file_lem count pos f = elim (Bool-cases (leb (length f.visible) pos)) [
  | inl h ↦ rw h (sym (ap (take count) (drop_all pos f.visible (ground arith)) ∙ take-nil count))
  | inr h ↦ rw h (
      ap (λ n. take (min count n) (drop pos f.visible)) (sym (length-drop pos f.visible))
      ∙ take-min count (drop pos f.visible))
]
