-- ===== src/Base/Endian/RoundTrip.antt =====
-- src/base/endian.h: what is stored is loaded.
use log_engine.Prelude.{
  ℕ, zero, suc, ◌+◌, ◌*◌, ◌/◌, ◌%◌, ◌^◌, ◌≤◌, ◌<◌, ◌≡◌, refl, ap, ◌∙◌, List, [], ◌∷◌, ◌++◌, arith,
  length, get_or, drop, replicate, IsU16, IsU32, IsU64,
}
use mathlib.Core.Path.{ap₂}
use native.Mathlib.Nat.{zero-add}
use log_engine.Base.Endian.{
  byte_of, low_half, high_half, join_u16, join_u32, join_u64, load_u32_le, zero_fill,
}
use log_engine.Prelude.Bits.{bit_or_disjoint, bit_and_byte, bit_and_word}

pub byte_of_lem : (v n : ℕ) → byte_of v n ≡ v / 2 ^ n % 256
byte_of_lem v n = omega (arith, bit_and_byte (v / 2 ^ n))

low_half_lem : (v : ℕ) → low_half v ≡ v % 2 ^ 32
low_half_lem v = omega (arith, bit_and_word v)

high_half_lem : (v : ℕ) → high_half v ≡ v / 2 ^ 32 % 2 ^ 32
high_half_lem v = omega (arith, bit_and_word (v / 2 ^ 32))

join_u16_sum : (a b : ℕ) → a < 256 → b < 256 → join_u16 a b ≡ a + b * 2 ^ 8
unfolding join_u16
join_u16_sum a b ha hb = omega (arith, bit_or_disjoint 8 a b ha)

pub join_u32_sum :
    (a b c d : ℕ)
    → a < 256
    → b < 256
    → c < 256
    → join_u32 a b c d ≡ a + b * 2 ^ 8 + c * 2 ^ 16 + d * 2 ^ 24
unfolding join_u32
join_u32_sum a b c d ha hb hc =
    rw
      (
        bit_or_disjoint 8 a b ha,
        bit_or_disjoint 16 (a + b * 2 ^ 8) c (omega arith),
        bit_or_disjoint 24 (a + b * 2 ^ 8 + c * 2 ^ 16) d (omega arith),
      )
      refl

pub join_u16-split : (v : ℕ) → IsU16 v → join_u16 (byte_of v 0) (byte_of v 8) ≡ v
join_u16-split v h = omega (
  arith,
  byte_of_lem v 0,
  byte_of_lem v 8,
  join_u16_sum (byte_of v 0) (byte_of v 8) (omega arith) (omega arith),
)

pub join_u32-split :
    (v : ℕ) → IsU32 v → join_u32 (byte_of v 0) (byte_of v 8) (byte_of v 16) (byte_of v 24) ≡ v
join_u32-split v h = omega (
  arith,
  byte_of_lem v 0,
  byte_of_lem v 8,
  byte_of_lem v 16,
  byte_of_lem v 24,
  join_u32_sum (byte_of v 0) (byte_of v 8) (byte_of v 16) (byte_of v 24) (omega arith) (omega arith)
      (omega arith),
)

pub join_u64-split : (v : ℕ) → IsU64 v → join_u64 (low_half v) (high_half v) ≡ v
unfolding join_u64
join_u64-split v h = omega (
  arith,
  low_half_lem v,
  high_half_lem v,
  bit_or_disjoint 32 (low_half v) (high_half v) (omega arith),
)

-- The four stores and loads of eight bytes, as the loads of a stored value see them.
pub join_u64-stored :
    (v : ℕ)
    → IsU64 v
    → join_u64
        (join_u32
          (byte_of (low_half v) 0)
          (byte_of (low_half v) 8)
          (byte_of (low_half v) 16)
          (byte_of (low_half v) 24))
        (join_u32
          (byte_of (high_half v) 0)
          (byte_of (high_half v) 8)
          (byte_of (high_half v) 16)
          (byte_of (high_half v) 24))
      ≡ v
join_u64-stored v h =
    ap₂ join_u64 (join_u32-split (low_half v) (omega arith))
      (join_u32-split (high_half v) (omega arith))
    ∙ join_u64-split v h

pub zero_fill_lem : (n : ℕ) (p : List ℕ) → n ≤ length p → zero_fill n p ≡ replicate n 0 ++ drop n p
unfolding zero_fill
zero_fill_lem zero p h = refl
zero_fill_lem (suc n) [] h = absurd (omega arith)
zero_fill_lem (suc n) (b ∷ p) h = ap (λ t. 0 ∷ t) (zero_fill_lem n p (omega arith))

get_or-drop : (p : List ℕ) (i k : ℕ) → get_or p (i + k) 0 ≡ get_or (drop i p) k 0
get_or-drop p zero k = ap (λ j. get_or p j 0) (zero-add k)
get_or-drop [] (suc i) k = refl
get_or-drop (b ∷ p) (suc i) k = ap (λ j. get_or (b ∷ p) j 0) (moved i k) ∙ get_or-drop p i k
  where
    moved : (i k : ℕ) → suc i + k ≡ suc (i + k)
    moved i k = omega arith

get_or-front : (p : List ℕ) (i : ℕ) → get_or p i 0 ≡ get_or (drop i p) 0 0
get_or-front p zero = refl
get_or-front [] (suc i) = refl
get_or-front (b ∷ p) (suc i) = get_or-front p i

-- A load at a position is a load at the front of what stands there.
pub load_u32_le-drop : (p : List ℕ) (i : ℕ) → load_u32_le p i ≡ load_u32_le (drop i p) 0
unfolding load_u32_le
load_u32_le-drop p i =
    rw (get_or-drop p i 1, get_or-drop p i 2, get_or-drop p i 3, get_or-front p i) refl
