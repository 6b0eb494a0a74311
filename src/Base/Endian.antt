-- ===== src/Base/Endian.antt =====
-- src/base/endian.h: little-endian loads and stores. A `u8*` is a list of bytes and a position.
pub mod RoundTrip
use log_engine.Prelude.{
  ℕ, zero, suc, ◌+◌, ◌*◌, ◌/◌, ◌^◌, List, [], ◌∷◌, get_or, write_at, to_u8, to_u16, to_u32,
}
use Prim.Native.Nat.{bit_and, bit_or}

-- `p[i]`; every load of the program is inside its buffer.
abbrev pub byte_at : List ℕ → ℕ → ℕ
byte_at p i = get_or p i 0

-- `static_cast<u8>((v >> n) & 0xFFu)`
abbrev pub byte_of : ℕ → ℕ → ℕ
byte_of v n = to_u8 (bit_and (v / 2 ^ n) 0xff)

abbrev pub split_u16 : ℕ → List ℕ
split_u16 v = byte_of v 0 ∷ byte_of v 8 ∷ []

abbrev pub split_u32 : ℕ → List ℕ
split_u32 v = byte_of v 0 ∷ byte_of v 8 ∷ byte_of v 16 ∷ byte_of v 24 ∷ []

unfoldable pub store_u16_le : List ℕ → ℕ → ℕ → List ℕ
store_u16_le p i v = write_at p i (split_u16 v)

unfoldable pub store_u32_le : List ℕ → ℕ → ℕ → List ℕ
store_u32_le p i v = write_at p i (split_u32 v)

abbrev pub low_half : ℕ → ℕ
low_half v = to_u32 (bit_and v 0xffffffff)

abbrev pub high_half : ℕ → ℕ
high_half v = to_u32 (bit_and (v / 2 ^ 32) 0xffffffff)

unfoldable pub store_u64_le : List ℕ → ℕ → ℕ → List ℕ
unfolding store_u32_le
store_u64_le p i v = store_u32_le (store_u32_le p i (low_half v)) (i + 4) (high_half v)

unfoldable pub join_u16 : ℕ → ℕ → ℕ
join_u16 a b = to_u16 (bit_or a (b * 2 ^ 8))

unfoldable pub join_u32 : ℕ → ℕ → ℕ → ℕ → ℕ
join_u32 a b c d = bit_or (bit_or (bit_or a (b * 2 ^ 8)) (c * 2 ^ 16)) (d * 2 ^ 24)

unfoldable pub join_u64 : ℕ → ℕ → ℕ
join_u64 low high = bit_or low (high * 2 ^ 32)

unfoldable pub load_u16_le : List ℕ → ℕ → ℕ
load_u16_le p i = join_u16 (byte_at p i) (byte_at p (i + 1))

unfoldable pub load_u32_le : List ℕ → ℕ → ℕ
load_u32_le p i = join_u32 (byte_at p i) (byte_at p (i + 1)) (byte_at p (i + 2)) (byte_at p (i + 3))

unfoldable pub load_u64_le : List ℕ → ℕ → ℕ
unfolding load_u32_le
load_u64_le p i = join_u64 (load_u32_le p i) (load_u32_le p (i + 4))

-- `p[i] = v`
unfoldable pub store_u8 : List ℕ → ℕ → ℕ → List ℕ
store_u8 p i v = write_at p i (to_u8 v ∷ [])

-- `for (i = 0; i < n; ++i) p[i] = 0;`
unfoldable pub zero_fill : ℕ → List ℕ → List ℕ
zero_fill zero p = p
zero_fill (suc n) [] = []
zero_fill (suc n) (b ∷ p) = 0 ∷ zero_fill n p
