-- ===== src/Base/Buffer/View.antt =====
-- src/base/buffer.h: what a reader of the buffer sees is a queue of bytes; where the bytes lie and
-- when they are moved does not show.
use log_engine.Prelude.{
  ℕ, zero, suc, ◌+◌, ◌-◌, ◌*◌, ◌≤◌, ◌≡◌, refl, sym, ap, ◌∙◌, List, [], ◌∷◌, ◌++◌, arith, leb, ◌==◌,
  if_intro, length, take, drop, replicate, write_at, length-replicate, length-append,
  write_at_whole, nothing_left, drop-drop, drop-append,
}
use mathlib.Core.List.{append-nil, append_assoc}
use native.Mathlib.Nat.{zero-add}
use log_engine.Base.Buffer.{
  Buffer, contents, size, clear, compact, consume, append, append_fixed, append_u16_le,
  append_u32_le, append_uninitialized, shrink_by,
}
use log_engine.Base.Endian.{split_u16, split_u32, store_u16_le, store_u32_le, low_half, high_half}

abbrev pub IsBuffer : Buffer → Type 0
IsBuffer b = b.read_pos ≤ length b.bytes

-- A store at the old end of a buffer that has grown.
write_at_end :
    (xs ys zs : List ℕ) → length ys ≡ length zs → write_at (xs ++ ys) (length xs) zs ≡ xs ++ zs
write_at_end [] ys zs h = write_at_whole ys zs h
write_at_end (x ∷ xs) ys zs h = ap (λ t. x ∷ t) (write_at_end xs ys zs h)

-- The four bytes of a word, and the eight of a long one.
abbrev pub split_u64 : ℕ → List ℕ
split_u64 v = split_u32 (low_half v) ++ split_u32 (high_half v)

pub append_lem : (s : List ℕ) (b : Buffer) → append s b ≡ record b { bytes = b.bytes ++ s }
unfolding append
append_lem [] b = ap (λ t. record b { bytes = t }) (sym (append-nil b.bytes))
append_lem (x ∷ s) b = refl

pub append_u32_le_lem :
    (v : ℕ) (b : Buffer) → append_u32_le v b ≡ record b { bytes = b.bytes ++ split_u32 v }
unfolding append_u32_le append_fixed store_u32_le
append_u32_le_lem v b =
    ap (λ t. record b { bytes = t }) (write_at_end b.bytes (replicate 4 0) (split_u32 v) refl)

-- What each operation does to the bytes that are still to be read.
pub record Appends (s : List ℕ) (b c : Buffer) : Type 0 where
  pub view : contents c ≡ contents b ++ s
  pub valid : IsBuffer c

grown : (s : List ℕ) (b : Buffer) → IsBuffer b → Appends s b (record b { bytes = b.bytes ++ s })
grown s b h = record {
  view = drop-append b.read_pos b.bytes s h;
  valid = omega (arith, length-append b.bytes s);
}

pub append-Appends : (s : List ℕ) (b : Buffer) → IsBuffer b → Appends s b (append s b)
unfolding append
append-Appends [] b h = record { view = sym (append-nil (contents b)); valid = h }
append-Appends (x ∷ s) b h = grown (x ∷ s) b h

pub append_u16_le-Appends :
    (v : ℕ) (b : Buffer) → IsBuffer b → Appends (split_u16 v) b (append_u16_le v b)
unfolding append_u16_le append_fixed store_u16_le
append_u16_le-Appends v b h =
    rw (write_at_end b.bytes (replicate 2 0) (split_u16 v) refl) (grown (split_u16 v) b h)

pub append_u32_le-Appends :
    (v : ℕ) (b : Buffer) → IsBuffer b → Appends (split_u32 v) b (append_u32_le v b)
unfolding append_u32_le append_fixed store_u32_le
append_u32_le-Appends v b h =
    rw (write_at_end b.bytes (replicate 4 0) (split_u32 v) refl) (grown (split_u32 v) b h)

pub Appends-trans :
    (s t : List ℕ) (a b c : Buffer) → Appends s a b → Appends t b c → Appends (s ++ t) a c
Appends-trans s t a b c p q = record {
  view = q.view ∙ ap (λ u. u ++ t) p.view ∙ append_assoc (contents a) s t;
  valid = q.valid;
}

pub record Consumes (n : ℕ) (b c : Buffer) : Type 0 where
  pub view : contents c ≡ drop n (contents b)
  pub valid : IsBuffer c

-- Consuming drops bytes from the front of what is read, whether or not the buffer is compacted.
pub consume-Consumes : (n : ℕ) (b : Buffer) → n ≤ size b → IsBuffer b → Consumes n b (consume n b)
unfolding consume clear compact
consume-Consumes n b h v =
    if_intro (Consumes n b) (b.read_pos + n == length b.bytes) _ _
      (λ e. record {
        view =
            sym (
              drop-drop b.read_pos n b.bytes ∙ all_dropped (b.read_pos + n) b.bytes (ground arith));
        valid = omega arith;
      })
      (λ e.
        if_intro (Consumes n b) (leb (length b.bytes) ((b.read_pos + n) * 2)) _ _
          (λ _.
            if_intro (Consumes n b) (b.read_pos + n == 0) _ _ (λ _. kept)
              (λ _. record { view = sym (drop-drop b.read_pos n b.bytes); valid = omega arith }))
          (λ _. kept))
  where
    all_dropped : (k : ℕ) (xs : List ℕ) → length xs ≤ k → drop k xs ≡ []
    all_dropped zero xs q = nothing_left xs (omega arith)
    all_dropped (suc k) [] q = refl
    all_dropped (suc k) (x ∷ xs) q = all_dropped k xs (omega arith)

    kept : Consumes n b (record b { read_pos = b.read_pos + n })
    kept = record { view = sym (drop-drop b.read_pos n b.bytes); valid = omega arith }

take-replicate : (j n a : ℕ) → j ≤ n → take j (replicate n a) ≡ replicate j a
take-replicate zero n a h = refl
take-replicate (suc j) zero a h = absurd (omega arith)
take-replicate (suc j) (suc n) a h = ap (λ t. a ∷ t) (take-replicate j n a (omega arith))

take_past : (xs ys : List ℕ) (j : ℕ) → take (length xs + j) (xs ++ ys) ≡ xs ++ take j ys
take_past [] ys j = ap (λ i. take i ys) (zero-add j)
take_past (x ∷ xs) ys j =
    ap (λ i. take i (x ∷ (xs ++ ys))) (inside (length xs) j) ∙ ap (λ t. x ∷ t) (take_past xs ys j)
  where
    inside : (n j : ℕ) → suc n + j ≡ suc (n + j)
    inside n j = omega arith

-- A reader that filled only a part of what it grew gives the rest back.
pub shrink_by-append_uninitialized :
    (n k : ℕ) (b : Buffer)
    → k ≤ n
    → IsBuffer b
    → Appends (replicate (n - k) 0) b (shrink_by k (append_uninitialized n b))
unfolding shrink_by append_uninitialized
shrink_by-append_uninitialized n k b h v = rw kept (grown (replicate (n - k) 0) b v)
  where
    left : length (b.bytes ++ replicate n 0) - k ≡ length b.bytes + (n - k)
    left = omega (arith, length-append b.bytes (replicate n 0), length-replicate {A = ℕ} n 0)

    kept :
        take (length (b.bytes ++ replicate n 0) - k) (b.bytes ++ replicate n 0)
        ≡ b.bytes ++ replicate (n - k) 0
    kept =
        ap (λ i. take i (b.bytes ++ replicate n 0)) left
        ∙ take_past b.bytes (replicate n 0) (n - k)
        ∙ ap (λ t. b.bytes ++ t) (take-replicate (n - k) n 0 (omega arith))
