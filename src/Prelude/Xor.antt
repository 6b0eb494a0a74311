-- ===== src/Prelude/Xor.antt =====
-- Exclusive or on the native numbers: an abelian group of exponent two, digit by digit.
use Prim.Native.Nat.{
  ℕ, zero, suc, ◌+◌, ◌*◌, ◌/◌, ◌%◌, ◌^◌, ◌≤◌, ◌<◌, differ, bit_xor, bit_xor-bitwise,
}
use mathlib.Core.Path.{◌≡◌, refl, ap, ◌∙◌}
use native.Mathlib.Nat.{le_refl, pow-suc}
use native.Mathlib.Omega.{arith}
use log_engine.Prelude.Bits.{lowest_digit, shift_suc}

differ_sum : (x y : ℕ) → x < 2 → y < 2 → differ x y ≡ (x + y) % 2
differ_sum zero zero p q = refl
differ_sum zero (suc zero) p q = refl
differ_sum zero (suc (suc y)) p q = absurd (omega arith)
differ_sum (suc zero) zero p q = refl
differ_sum (suc zero) (suc zero) p q = refl
differ_sum (suc zero) (suc (suc y)) p q = absurd (omega arith)
differ_sum (suc (suc x)) y p q = absurd (omega arith)

pub zero-bit_xor : (b : ℕ) → bit_xor 0 b ≡ b
zero-bit_xor b = bit_xor-bitwise 0 b

pub bit_xor_step : (a b : ℕ) → bit_xor a b ≡ (a + b) % 2 + 2 * bit_xor (a / 2) (b / 2)
bit_xor_step zero b = omega (arith, zero-bit_xor b, zero-bit_xor (b / 2))
bit_xor_step (suc a) b =
    let d : differ (suc a % 2) (b % 2) ≡ (suc a % 2 + b % 2) % 2 =
      differ_sum (suc a % 2) (b % 2) (omega arith) (omega arith) in
    omega (
      arith,
      d,
      bit_xor-bitwise (suc a) b,
      bit_xor-bitwise (suc a / 2) (b / 2),
      lowest_digit (λ y. y) differ a b,
    )

pub half_xor : (a b : ℕ) → bit_xor a b / 2 ≡ bit_xor (a / 2) (b / 2)
half_xor a b = omega (arith, bit_xor_step a b)

pub parity_xor : (a b : ℕ) → bit_xor a b % 2 ≡ (a + b) % 2
parity_xor a b = omega (arith, bit_xor_step a b)

-- Induction on the binary digits of the first number.
comm_below : (n a b : ℕ) → a ≤ n → b ≤ n → bit_xor a b ≡ bit_xor b a
comm_below zero zero zero p q = refl
comm_below zero zero (suc b) p q = absurd (omega arith)
comm_below zero (suc a) b p q = absurd (omega arith)
comm_below (suc n) a b p q =
    let ih = comm_below n (a / 2) (b / 2) (omega arith) (omega arith) in
    omega (arith, bit_xor_step a b, bit_xor_step b a, ih)

pub bit_xor_comm : (a b : ℕ) → bit_xor a b ≡ bit_xor b a
bit_xor_comm a b = comm_below (a + b) a b (omega arith) (omega arith)

assoc_below : (n a b c : ℕ) → a ≤ n → bit_xor (bit_xor a b) c ≡ bit_xor a (bit_xor b c)
assoc_below n zero b c p = rw (zero-bit_xor b, zero-bit_xor (bit_xor b c)) refl
assoc_below zero (suc a) b c p = absurd (omega arith)
assoc_below (suc n) (suc a) b c p =
    let ih = assoc_below n (suc a / 2) (b / 2) (c / 2) (omega arith) in
    omega (
      arith,
      bit_xor_step (bit_xor (suc a) b) c,
      bit_xor_step (suc a) (bit_xor b c),
      parity_xor (suc a) b,
      parity_xor b c,
      ap (λ (t : ℕ). bit_xor t (c / 2)) (half_xor (suc a) b),
      ap (λ (t : ℕ). bit_xor (suc a / 2) t) (half_xor b c),
      ih,
    )

pub bit_xor_assoc : (a b c : ℕ) → bit_xor (bit_xor a b) c ≡ bit_xor a (bit_xor b c)
bit_xor_assoc a b c = assoc_below a a b c (le_refl a)

pub bit_xor-zero : (a : ℕ) → bit_xor a 0 ≡ a
bit_xor-zero a = bit_xor_comm a 0 ∙ zero-bit_xor a

self_below : (n a : ℕ) → a ≤ n → bit_xor a a ≡ 0
self_below n zero p = zero-bit_xor 0
self_below zero (suc a) p = absurd (omega arith)
self_below (suc n) (suc a) p =
    omega (arith, bit_xor_step (suc a) (suc a), self_below n (suc a / 2) (omega arith))

pub bit_xor_self : (a : ℕ) → bit_xor a a ≡ 0
bit_xor_self a = self_below a a (le_refl a)

-- The bits that are set in one only cancel.
pub bit_xor_cancel : (a b : ℕ) → bit_xor (bit_xor a b) b ≡ a
bit_xor_cancel a b = rw (bit_xor_assoc a b b, bit_xor_self b) (bit_xor-zero a)

pub bit_xor-lt : (k a b : ℕ) → a < 2 ^ k → b < 2 ^ k → bit_xor a b < 2 ^ k
bit_xor-lt zero zero zero p q = omega (arith, zero-bit_xor 0)
bit_xor-lt zero zero (suc b) p q = absurd (omega arith)
bit_xor-lt zero (suc a) b p q = absurd (omega arith)
bit_xor-lt (suc k) a b p q =
    let w = pow-suc 2 k in
    let ih = bit_xor-lt k (a / 2) (b / 2) (omega arith) (omega arith) in
    omega (arith, bit_xor_step a b)

-- `r ^ (q << k)` is a sum when `r` fits `k` bits.
pub bit_xor_disjoint : (k r q : ℕ) → r < 2 ^ k → bit_xor r (q * 2 ^ k) ≡ r + q * 2 ^ k
bit_xor_disjoint zero zero q h = rw zero-bit_xor (omega arith)
bit_xor_disjoint zero (suc r) q h = absurd (omega arith)
bit_xor_disjoint (suc k) r q h =
    let w = pow-suc 2 k in
    let e : q * 2 ^ suc k ≡ 2 * (q * 2 ^ k) = shift_suc q k in
    let half : q * 2 ^ suc k / 2 ≡ q * 2 ^ k = omega arith in
    let ih = bit_xor_disjoint k (r / 2) q (omega arith) in
    omega (arith, bit_xor_step r (q * 2 ^ suc k), ap (λ (t : ℕ). bit_xor (r / 2) t) half, ih)
