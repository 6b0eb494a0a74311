-- ===== src/Base/Crc32c/Detection.antt =====
-- src/base/crc32c.cpp: the CRC of a stream, its width, and the errors that it cannot miss.
use log_engine.Prelude.{
  ℕ, zero, suc, ◌+◌, ◌*◌, ◌/◌, ◌%◌, ◌^◌, ◌≤◌, ◌<◌, ◌≡◌, refl, sym, ap, ◌∙◌, List, [], ◌∷◌, ◌++◌,
  arith, get_or, All, IsByte, IsU32,
}
use Prim.Native.Nat.{bit_and, bit_xor}
use log_engine.Base.Crc32c.{
  reflected_poly, all_ones, crc_round, crc_rounds, table_from, crc_table, crc_byte, crc_loop,
  crc32c_software, crc32c,
}
use log_engine.Base.Crc32c.Bitwise.{
  mask, crc_round_lem, table_from_lem, crc_reference, crc_loop_lem,
}
use log_engine.Prelude.Bits.{bit_and_byte}
use log_engine.Prelude.Xor.{
  zero-bit_xor, bit_xor_comm, bit_xor_assoc, bit_xor_cancel, bit_xor-lt, bit_xor_disjoint,
}

crc_loop-append : (c : ℕ) (xs ys : List ℕ) → crc_loop c (xs ++ ys) ≡ crc_loop (crc_loop c xs) ys
unfolding crc_loop
crc_loop-append c [] ys = refl
crc_loop-append c (x ∷ xs) ys = crc_loop-append (crc_byte c x) xs ys

-- The CRC of the first part carries on to the second: in pieces or at once, the result is the same.
crc32c_software-append :
    (crc : ℕ) (xs ys : List ℕ)
    → crc32c_software (crc32c_software crc xs) ys ≡ crc32c_software crc (xs ++ ys)
unfolding crc32c_software
crc32c_software-append crc xs ys =
    ap (λ c. bit_xor c all_ones)
      (ap (λ c. crc_loop c ys) (bit_xor_cancel (crc_loop (bit_xor crc all_ones) xs) all_ones)
        ∙ sym (crc_loop-append (bit_xor crc all_ones) xs ys))

mask-lt : (b : ℕ) → mask b < 2 ^ 32
unfolding mask
mask-lt zero = omega arith
mask-lt (suc b) = omega arith

crc_round-lt : (c : ℕ) → IsU32 c → IsU32 (crc_round c)
crc_round-lt c h =
    rw (crc_round_lem c) (bit_xor-lt 32 (mask (c % 2)) (c / 2) (mask-lt (c % 2)) (omega arith))

crc_rounds-lt : (k c : ℕ) → IsU32 c → IsU32 (crc_rounds k c)
unfolding crc_rounds
crc_rounds-lt zero c h = h
crc_rounds-lt (suc k) c h = crc_rounds-lt k (crc_round c) (crc_round-lt c h)

crc_reference-lt :
    (c : ℕ) (bytes : List ℕ) → All IsByte bytes → IsU32 c → IsU32 (crc_reference c bytes)
unfolding crc_reference
crc_reference-lt c [] b h = h
crc_reference-lt c (x ∷ xs) b h =
    crc_reference-lt (crc_rounds 8 (bit_xor c x)) xs b.1
      (crc_rounds-lt 8 (bit_xor c x) (bit_xor-lt 32 c x h (omega (arith, b.0))))

crc_byte-lt : (c b : ℕ) → IsU32 c → IsU32 (crc_byte c b)
unfolding crc_byte crc_table
crc_byte-lt c b h =
    bit_xor-lt 32 (get_or (table_from 0 256) (bit_and (bit_xor c b) 0xff) 0) (c / 2 ^ 8) entry
      (omega arith)
  where
    index : bit_and (bit_xor c b) 0xff < 256
    index = omega (arith, bit_and_byte (bit_xor c b))

    entry : IsU32 (get_or (table_from 0 256) (bit_and (bit_xor c b) 0xff) 0)
    entry = rw (table_from_lem 256 0 (bit_and (bit_xor c b) 0xff) index) (
        crc_rounds-lt 8 (0 + bit_and (bit_xor c b) 0xff)
          (omega (arith, bit_and_byte (bit_xor c b))))

crc_loop-lt : (c : ℕ) (bytes : List ℕ) → IsU32 c → IsU32 (crc_loop c bytes)
unfolding crc_loop
crc_loop-lt c [] h = h
crc_loop-lt c (b ∷ bs) h = crc_loop-lt (crc_byte c b) bs (crc_byte-lt c b h)

pub crc32c-lt : (bytes : List ℕ) → IsU32 (crc32c bytes)
unfolding crc32c crc32c_software
crc32c-lt bytes =
    bit_xor-lt 32 (crc_loop (bit_xor 0 all_ones) bytes) all_ones
      (crc_loop-lt (bit_xor 0 all_ones) bytes
        (bit_xor-lt 32 0 all_ones (omega arith) (omega arith)))
      (omega arith)

bit_xor_inj_right : (a b c : ℕ) → bit_xor a c ≡ bit_xor b c → a ≡ b
bit_xor_inj_right a b c e = sym (bit_xor_cancel a c) ∙ ap (λ t. bit_xor t c) e ∙ bit_xor_cancel b c

bit_xor_inj_left : (c a b : ℕ) → bit_xor c a ≡ bit_xor c b → a ≡ b
bit_xor_inj_left c a b e = bit_xor_inj_right a b c (bit_xor_comm a c ∙ e ∙ bit_xor_comm c b)

-- The polynomial has the top bit and a halved word has not: a round can be undone.
poly_top : (x : ℕ) → x < 2 ^ 31 → 2 ^ 31 ≤ bit_xor reflected_poly x
poly_top x h =
    let low : bit_xor 0x02f63b78 x < 2 ^ 31 = bit_xor-lt 31 0x02f63b78 x (omega arith) h in
    let top = bit_xor_disjoint 31 (bit_xor 0x02f63b78 x) 1 low in
    let poly : bit_xor 0x02f63b78 (1 * 2 ^ 31) ≡ reflected_poly =
      bit_xor_disjoint 31 0x02f63b78 1 (omega arith) in
    let swap : bit_xor (bit_xor 0x02f63b78 x) (1 * 2 ^ 31) ≡ bit_xor reflected_poly x =
      bit_xor_assoc 0x02f63b78 x (1 * 2 ^ 31)
      ∙ ap (bit_xor 0x02f63b78) (bit_xor_comm x (1 * 2 ^ 31))
      ∙ sym (bit_xor_assoc 0x02f63b78 (1 * 2 ^ 31) x)
      ∙ ap (λ t. bit_xor t x) poly in
    omega (arith, swap, top)

mask_inj :
    (a b x y : ℕ)
    → x < 2 ^ 31
    → y < 2 ^ 31
    → a < 2
    → b < 2
    → bit_xor (mask a) x ≡ bit_xor (mask b) y
    → (a ≡ b) × (x ≡ y)
unfolding mask
mask_inj zero zero x y p q h k e = (refl, bit_xor_inj_left 0 x y e)
mask_inj zero (suc b) x y p q h k e = absurd (omega (arith, zero-bit_xor x, poly_top y q))
mask_inj (suc a) zero x y p q h k e = absurd (omega (arith, zero-bit_xor y, poly_top x p))
mask_inj (suc a) (suc b) x y p q h k e = (omega arith, bit_xor_inj_left reflected_poly x y e)

crc_round_inj : (a b : ℕ) → IsU32 a → IsU32 b → crc_round a ≡ crc_round b → a ≡ b
crc_round_inj a b p q e =
    let (r, s) =
      mask_inj (a % 2) (b % 2) (a / 2) (b / 2) (omega arith) (omega arith) (omega arith)
        (omega arith) (sym (crc_round_lem a) ∙ e ∙ crc_round_lem b) in
    omega arith

crc_rounds_inj : (k a b : ℕ) → IsU32 a → IsU32 b → crc_rounds k a ≡ crc_rounds k b → a ≡ b
unfolding crc_rounds
crc_rounds_inj zero a b p q e = e
crc_rounds_inj (suc k) a b p q e =
    crc_round_inj a b p q
      (crc_rounds_inj k (crc_round a) (crc_round b) (crc_round-lt a p) (crc_round-lt b q) e)

crc_reference_inj :
    (bytes : List ℕ) (a b : ℕ)
    → All IsByte bytes
    → IsU32 a
    → IsU32 b
    → crc_reference a bytes ≡ crc_reference b bytes
    → a ≡ b
unfolding crc_reference
crc_reference_inj [] a b w p q e = e
crc_reference_inj (x ∷ xs) a b w p q e =
    let wide : IsU32 x = omega (arith, w.0) in
    let pa = bit_xor-lt 32 a x p wide in
    let pb = bit_xor-lt 32 b x q wide in
    bit_xor_inj_right a b x (
      crc_rounds_inj 8 (bit_xor a x) (bit_xor b x) pa pb
        (crc_reference_inj xs _ _ w.1 (crc_rounds-lt 8 _ pa) (crc_rounds-lt 8 _ pb) e))

-- Two messages that differ in one byte have different CRCs: where the CRCs agree, so do the bytes.
pub crc32c_detects_byte :
    (pre : List ℕ) (b c : ℕ) (post : List ℕ)
    → All IsByte pre
    → IsByte b
    → IsByte c
    → All IsByte post
    → crc32c (pre ++ b ∷ post) ≡ crc32c (pre ++ c ∷ post)
    → b ≡ c
unfolding crc32c crc32c_software crc_reference
crc32c_detects_byte pre b c post hp hb hc hq e = bit_xor_inj_left s b c (
    crc_rounds_inj 8 (bit_xor s b) (bit_xor s c) wb wc (
      crc_reference_inj post _ _ hq (crc_rounds-lt 8 _ wb) (crc_rounds-lt 8 _ wc)
        (sym (split b hb) ∙ bit_xor_inj_right _ _ all_ones e ∙ split c hc)))
  where
    start : ℕ
    start = bit_xor 0 all_ones

    s : ℕ
    s = crc_reference start pre

    ws : IsU32 s
    ws = crc_reference-lt start pre hp (bit_xor-lt 32 0 all_ones (omega arith) (omega arith))

    wb : IsU32 (bit_xor s b)
    wb = bit_xor-lt 32 s b ws (omega arith)

    wc : IsU32 (bit_xor s c)
    wc = bit_xor-lt 32 s c ws (omega arith)

    split :
        (x : ℕ)
        → IsByte x
        → crc_loop start (pre ++ x ∷ post) ≡ crc_reference (crc_rounds 8 (bit_xor s x)) post
    split x h =
        crc_loop-append start pre (x ∷ post)
        ∙ ap (λ t. crc_loop t (x ∷ post)) (crc_loop_lem start pre hp)
        ∙ crc_loop_lem s (x ∷ post) (h, hq)
