-- ===== src/Prelude/Bits.antt =====
-- Bit operations on the native numbers as arithmetic, at every width.
use Prim.Native.Nat.{ℕ, zero, suc, ◌+◌, ◌*◌, ◌/◌, ◌%◌, ◌^◌, ◌≤◌, ◌<◌, min, max}
use Prim.Native.Nat.{bit_and, bit_or, digits, bitwise}
use Prim.Native.Nat.{bit_and-bitwise, bit_or-bitwise}
use mathlib.Core.Path.{◌≡◌, refl, sym, ap}
use native.Mathlib.Nat.{le_refl, pow-suc}
use native.Mathlib.Omega.{arith}

-- `digits` recurses on fuel. Any two amounts that reach the first number give the same, which leaves
-- one equation for the lowest digit.
module _ (z : ℕ → ℕ) (f : ℕ → ℕ → ℕ) where
  same_digits : (a b m n : ℕ) → a ≤ m → a ≤ n → digits z f m a b ≡ digits z f n a b
  same_digits zero b (suc m) (suc n) p q = refl
  same_digits zero b (suc m) zero p q = refl
  same_digits zero b zero (suc n) p q = refl
  same_digits zero b zero zero p q = refl
  same_digits (suc a) b zero n p q = absurd (omega arith)
  same_digits (suc a) b (suc m) zero p q = absurd (omega arith)
  same_digits (suc a) b (suc m) (suc n) p q =
      let h : suc a / 2 ≤ m = omega arith in
      let k : suc a / 2 ≤ n = omega arith in rw (same_digits (suc a / 2) (b / 2) m n h k)

  pub lowest_digit :
      (a b : ℕ)
      → f (suc a % 2) (b % 2) + 2 * bitwise z f (suc a / 2) (b / 2) ≡ bitwise z f (suc a) b
  lowest_digit a b =
      let h : suc a / 2 ≤ a = omega arith in
      omega (arith, same_digits (suc a / 2) (b / 2) (suc a / 2) a (le_refl _) h)

pub bit_and_step : (a b : ℕ) → bit_and a b ≡ min (a % 2) (b % 2) + 2 * bit_and (a / 2) (b / 2)
bit_and_step zero b = simp bit_and-bitwise (omega arith)
bit_and_step (suc a) b = simp bit_and-bitwise (sym (lowest_digit (λ y. 0) min a b))

pub bit_or_step : (a b : ℕ) → bit_or a b ≡ max (a % 2) (b % 2) + 2 * bit_or (a / 2) (b / 2)
bit_or_step zero b = simp bit_or-bitwise (omega arith)
bit_or_step (suc a) b = simp bit_or-bitwise (sym (lowest_digit (λ y. y) max a b))

zero-bit_or : (b : ℕ) → bit_or 0 b ≡ b
zero-bit_or b = bit_or-bitwise 0 b

pub shift_suc : (q k : ℕ) → q * 2 ^ suc k ≡ 2 * (q * 2 ^ k)
shift_suc q k = omega (arith, ap (λ (t : ℕ). q * t) (pow-suc 2 k))

-- `r | (q << k)` is a sum when `r` fits `k` bits.
pub bit_or_disjoint : (k r q : ℕ) → r < 2 ^ k → bit_or r (q * 2 ^ k) ≡ r + q * 2 ^ k
bit_or_disjoint zero zero q h = rw zero-bit_or (omega arith)
bit_or_disjoint zero (suc r) q h = absurd (omega arith)
bit_or_disjoint (suc k) r q h = omega (
  arith,
  bit_or_step r (q * 2 ^ suc k),
  shift_suc q k,
  pow-suc 2 k,
  ap (λ (t : ℕ). bit_or (r / 2) t) (half_shift q k),
  bit_or_disjoint k (r / 2) q (omega (arith, pow-suc 2 k)),
)
  where
    half_shift : (q k : ℕ) → q * 2 ^ suc k / 2 ≡ q * 2 ^ k
    half_shift q k = omega (arith, shift_suc q k)

zero-bit_and : (b : ℕ) → bit_and 0 b ≡ 0
zero-bit_and b = bit_and-bitwise 0 b

bit_and-zero_below : (n a : ℕ) → a ≤ n → bit_and a 0 ≡ 0
bit_and-zero_below n zero h = zero-bit_and 0
bit_and-zero_below zero (suc a) h = absurd (omega arith)
bit_and-zero_below (suc n) (suc a) h =
    omega (arith, bit_and_step (suc a) 0, bit_and-zero_below n (suc a / 2) (omega arith))

pub bit_and-one : (a : ℕ) → bit_and a 1 ≡ a % 2
bit_and-one a = omega (arith, bit_and_step a 1, bit_and-zero_below (a / 2) (a / 2))

bit_and_fifteen : (a : ℕ) → bit_and a 15 ≡ a % 16
bit_and_fifteen a = omega (
  arith,
  bit_and_step a 15,
  bit_and_step (a / 2) 7,
  bit_and_step (a / 2 / 2) 3,
  bit_and-one (a / 2 / 2 / 2),
)

-- `a & 0xFF` is the low byte.
pub bit_and_byte : (a : ℕ) → bit_and a 0xff ≡ a % 256
bit_and_byte a = omega (
  arith,
  bit_and_step a 255,
  bit_and_step (a / 2) 127,
  bit_and_step (a / 2 / 2) 63,
  bit_and_step (a / 2 / 2 / 2) 31,
  bit_and_fifteen (a / 2 / 2 / 2 / 2),
)

bit_and_odd : (a q : ℕ) → bit_and a (q * 2 + 1) ≡ a % 2 + 2 * bit_and (a / 2) q
bit_and_odd a q =
    omega (arith, bit_and_step a (q * 2 + 1), ap (λ (t : ℕ). bit_and (a / 2) t) (half_odd q))
  where
    half_odd : (q : ℕ) → (q * 2 + 1) / 2 ≡ q
    half_odd q = omega arith

bit_and_two_bytes : (a : ℕ) → bit_and a 0xffff ≡ a % 65536
bit_and_two_bytes a = omega (
  arith,
  bit_and_odd a 0x7fff,
  bit_and_odd (a / 2) 0x3fff,
  bit_and_odd (a / 2 / 2) 0x1fff,
  bit_and_odd (a / 2 / 2 / 2) 0xfff,
  bit_and_odd (a / 2 / 2 / 2 / 2) 0x7ff,
  bit_and_odd (a / 2 / 2 / 2 / 2 / 2) 0x3ff,
  bit_and_odd (a / 2 / 2 / 2 / 2 / 2 / 2) 0x1ff,
  bit_and_odd (a / 2 / 2 / 2 / 2 / 2 / 2 / 2) 0xff,
  bit_and_byte (a / 2 / 2 / 2 / 2 / 2 / 2 / 2 / 2),
)

bit_and_three_bytes : (a : ℕ) → bit_and a 0xffffff ≡ a % 16777216
bit_and_three_bytes a = omega (
  arith,
  bit_and_odd a 0x7fffff,
  bit_and_odd (a / 2) 0x3fffff,
  bit_and_odd (a / 2 / 2) 0x1fffff,
  bit_and_odd (a / 2 / 2 / 2) 0xfffff,
  bit_and_odd (a / 2 / 2 / 2 / 2) 0x7ffff,
  bit_and_odd (a / 2 / 2 / 2 / 2 / 2) 0x3ffff,
  bit_and_odd (a / 2 / 2 / 2 / 2 / 2 / 2) 0x1ffff,
  bit_and_odd (a / 2 / 2 / 2 / 2 / 2 / 2 / 2) 0xffff,
  bit_and_two_bytes (a / 2 / 2 / 2 / 2 / 2 / 2 / 2 / 2),
)

-- `a & 0xFFFFFFFF` is the low word.
pub bit_and_word : (a : ℕ) → bit_and a 0xffffffff ≡ a % 4294967296
bit_and_word a = omega (
  arith,
  bit_and_odd a 0x7fffffff,
  bit_and_odd (a / 2) 0x3fffffff,
  bit_and_odd (a / 2 / 2) 0x1fffffff,
  bit_and_odd (a / 2 / 2 / 2) 0xfffffff,
  bit_and_odd (a / 2 / 2 / 2 / 2) 0x7ffffff,
  bit_and_odd (a / 2 / 2 / 2 / 2 / 2) 0x3ffffff,
  bit_and_odd (a / 2 / 2 / 2 / 2 / 2 / 2) 0x1ffffff,
  bit_and_odd (a / 2 / 2 / 2 / 2 / 2 / 2 / 2) 0xffffff,
  bit_and_three_bytes (a / 2 / 2 / 2 / 2 / 2 / 2 / 2 / 2),
)
