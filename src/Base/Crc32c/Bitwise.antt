-- ===== src/Base/Crc32c/Bitwise.antt =====
-- src/base/crc32c.cpp: the table does eight rounds at once.
use log_engine.Prelude.{
  ℕ, zero, suc, ◌+◌, ◌*◌, ◌/◌, ◌%◌, ◌^◌, ◌<◌, ◌≡◌, refl, sym, ap, ◌∙◌, ◌⊎◌, inl, inr, List, [], ◌∷◌,
  arith, ◌==◌, Bool-cases, get_or, All, IsByte,
}
use mathlib.Core.Path.{ap₂}
use native.Mathlib.Nat.{zero-add}
use Prim.Native.Nat.{bit_xor}
use log_engine.Base.Crc32c.{
  reflected_poly, all_ones, crc_round, crc_rounds, table_from, crc_table, crc_byte, crc_loop,
  crc32c_software,
}
use log_engine.Prelude.Bits.{shift_suc, bit_and-one, bit_and_byte}
use log_engine.Prelude.Xor.{
  zero-bit_xor, half_xor, parity_xor, bit_xor_comm, bit_xor_assoc, bit_xor-zero, bit_xor_disjoint,
}

parity : (c : ℕ) → (c % 2 ≡ 0) ⊎ (c % 2 ≡ 1)
parity c = elim (Bool-cases (c % 2 == 0)) [
  | inl e ↦ inl (ground arith)
  | inr e ↦ inr (ground arith)
]

unfoldable pub mask : ℕ → ℕ
mask zero = 0
mask (suc b) = reflected_poly

pub crc_round_lem : (c : ℕ) → crc_round c ≡ bit_xor (mask (c % 2)) (c / 2)
unfolding crc_round mask
crc_round_lem c = elim (parity c) [
  | inl e ↦ rw (bit_and-one c, e, zero-bit_xor (c / 2)) refl
  | inr e ↦ rw (bit_and-one c, e) refl
]

mask_sum : (a b : ℕ) → mask ((a + b) % 2) ≡ bit_xor (mask (a % 2)) (mask (b % 2))
unfolding mask
mask_sum a b = elim (parity a) [
  | inl e ↦ rw (e, zero-bit_xor (mask (b % 2))) (ap mask (omega arith))
  | inr e ↦ elim (parity b) [
    | inl f ↦ rw (f, e, bit_xor-zero reflected_poly) (ap mask (odd e f))
    | inr f ↦ rw (f, e) (ap mask (even e f))
  ]
]
  where
    odd : a % 2 ≡ 1 → b % 2 ≡ 0 → (a + b) % 2 ≡ 1
    odd e f = omega arith

    even : a % 2 ≡ 1 → b % 2 ≡ 1 → (a + b) % 2 ≡ 0
    even e f = omega arith

medial : (a b c d : ℕ) → bit_xor (bit_xor a b) (bit_xor c d) ≡ bit_xor (bit_xor a c) (bit_xor b d)
medial a b c d =
    bit_xor_assoc a b (bit_xor c d)
    ∙ ap (bit_xor a)
        (sym (bit_xor_assoc b c d) ∙ ap (λ t. bit_xor t d) (bit_xor_comm b c) ∙ bit_xor_assoc c b d)
    ∙ sym (bit_xor_assoc a c (bit_xor b d))

crc_round-bit_xor : (a b : ℕ) → crc_round (bit_xor a b) ≡ bit_xor (crc_round a) (crc_round b)
crc_round-bit_xor a b =
    crc_round_lem (bit_xor a b)
    ∙ ap₂ bit_xor (ap mask (parity_xor a b) ∙ mask_sum a b) (half_xor a b)
    ∙ medial (mask (a % 2)) (mask (b % 2)) (a / 2) (b / 2)
    ∙ sym (ap₂ bit_xor (crc_round_lem a) (crc_round_lem b))

-- The rounds are linear.
crc_rounds-bit_xor :
    (k a b : ℕ) → crc_rounds k (bit_xor a b) ≡ bit_xor (crc_rounds k a) (crc_rounds k b)
unfolding crc_rounds
crc_rounds-bit_xor zero a b = refl
crc_rounds-bit_xor (suc k) a b =
    ap (crc_rounds k) (crc_round-bit_xor a b) ∙ crc_rounds-bit_xor k (crc_round a) (crc_round b)

crc_round_even : (x : ℕ) → crc_round (2 * x) ≡ x
unfolding mask
crc_round_even x = crc_round_lem (2 * x) ∙ ap₂ bit_xor (ap mask even) half ∙ zero-bit_xor x
  where
    even : 2 * x % 2 ≡ 0
    even = omega arith

    half : 2 * x / 2 ≡ x
    half = omega arith

crc_rounds_shift : (k q : ℕ) → crc_rounds k (q * 2 ^ k) ≡ q
unfolding crc_rounds
crc_rounds_shift zero q = omega arith
crc_rounds_shift (suc k) q =
    ap (crc_rounds k) (ap crc_round (shift_suc q k) ∙ crc_round_even (q * 2 ^ k))
    ∙ crc_rounds_shift k q

eight_rounds : (x : ℕ) → crc_rounds 8 x ≡ bit_xor (crc_rounds 8 (x % 256)) (x / 256)
eight_rounds x =
    ap (crc_rounds 8) (sym (bit_xor_disjoint 8 (x % 256) (x / 256) (omega arith) ∙ whole))
    ∙ crc_rounds-bit_xor 8 (x % 256) (x / 256 * 2 ^ 8)
    ∙ ap (bit_xor (crc_rounds 8 (x % 256))) (crc_rounds_shift 8 (x / 256))
  where
    whole : x % 256 + x / 256 * 2 ^ 8 ≡ x
    whole = omega arith

pub table_from_lem : (n i j : ℕ) → j < n → get_or (table_from i n) j 0 ≡ crc_rounds 8 (i + j)
unfolding table_from
table_from_lem zero i j h = absurd (omega arith)
table_from_lem (suc n) i zero h = ap (crc_rounds 8) (sym (omega arith))
table_from_lem (suc n) i (suc j) h =
    table_from_lem n (suc i) j (omega arith) ∙ ap (crc_rounds 8) (shifted i j)
  where
    shifted : (i j : ℕ) → suc i + j ≡ i + suc j
    shifted i j = omega arith

byte_shift : (a b : ℕ) → bit_xor a b / 2 ^ 8 ≡ bit_xor (a / 2 ^ 8) (b / 2 ^ 8)
byte_shift a b = omega (
  arith,
  half_xor a b,
  half_xor (a / 2) (b / 2),
  half_xor (a / 2 / 2) (b / 2 / 2),
  half_xor (a / 2 / 2 / 2) (b / 2 / 2 / 2),
  half_xor (a / 2 / 2 / 2 / 2) (b / 2 / 2 / 2 / 2),
  half_xor (a / 2 / 2 / 2 / 2 / 2) (b / 2 / 2 / 2 / 2 / 2),
  half_xor (a / 2 / 2 / 2 / 2 / 2 / 2) (b / 2 / 2 / 2 / 2 / 2 / 2),
  half_xor (a / 2 / 2 / 2 / 2 / 2 / 2 / 2) (b / 2 / 2 / 2 / 2 / 2 / 2 / 2),
  ap₂ bit_xor (halves a) (halves b),
)
  where
    halves : (x : ℕ) → x / 2 / 2 / 2 / 2 / 2 / 2 / 2 / 2 ≡ x / 2 ^ 8
    halves x = omega arith

-- One byte through the table is eight rounds.
pub crc_byte_lem : (c b : ℕ) → IsByte b → crc_byte c b ≡ crc_rounds 8 (bit_xor c b)
unfolding crc_byte crc_table
crc_byte_lem c b h =
    ap₂ bit_xor
      (ap (λ i. get_or (table_from 0 256) i 0) (bit_and_byte (bit_xor c b))
        ∙ table_from_lem 256 0 (bit_xor c b % 256) (omega arith)
        ∙ ap (crc_rounds 8) (zero-add (bit_xor c b % 256)))
      (sym (byte_shift c b ∙ ap (bit_xor (c / 2 ^ 8)) gone ∙ bit_xor-zero (c / 2 ^ 8)))
    ∙ sym (eight_rounds (bit_xor c b))
  where
    gone : b / 2 ^ 8 ≡ 0
    gone = omega arith

-- The definition of CRC-32C bit by bit, with no table.
unfoldable pub crc_reference : ℕ → List ℕ → ℕ
crc_reference c [] = c
crc_reference c (b ∷ bs) = crc_reference (crc_rounds 8 (bit_xor c b)) bs

pub crc_loop_lem :
    (c : ℕ) (bytes : List ℕ) → All IsByte bytes → crc_loop c bytes ≡ crc_reference c bytes
unfolding crc_loop crc_reference
crc_loop_lem c [] h = refl
crc_loop_lem c (b ∷ bs) h =
    ap (λ d. crc_loop d bs) (crc_byte_lem c b h.0)
    ∙ crc_loop_lem (crc_rounds 8 (bit_xor c b)) bs h.1

-- The table-driven loop computes the CRC that is defined bit by bit.
pub crc32c_software_lem :
    (crc : ℕ) (bytes : List ℕ)
    → All IsByte bytes
    → crc32c_software crc bytes ≡ bit_xor (crc_reference (bit_xor crc all_ones) bytes) all_ones
unfolding crc32c_software
crc32c_software_lem crc bytes h =
    ap (λ c. bit_xor c all_ones) (crc_loop_lem (bit_xor crc all_ones) bytes h)
