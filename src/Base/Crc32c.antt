-- ===== src/Base/Crc32c.antt =====
-- src/base/crc32c.cpp: CRC-32C in the portable build. The hardware path rests on instructions of the
-- processor and is left out.
pub mod Bitwise
pub mod Detection
use log_engine.Prelude.{ℕ, zero, suc, ◌/◌, ◌^◌, not, List, [], ◌∷◌, ◌==◌, if◌then◌else◌, get_or}
use Prim.Native.Nat.{bit_and, bit_xor}

abbrev pub reflected_poly : ℕ
reflected_poly = 0x82f63b78

abbrev pub all_ones : ℕ
all_ones = 0xffffffff

-- `(c & 1u) ? (kReflectedPoly ^ (c >> 1)) : (c >> 1)`
unfoldable pub crc_round : ℕ → ℕ
crc_round c = if not (bit_and c 1 == 0) then bit_xor reflected_poly (c / 2) else c / 2

unfoldable pub crc_rounds : ℕ → ℕ → ℕ
crc_rounds zero c = c
crc_rounds (suc k) c = crc_rounds k (crc_round c)

-- `n` entries of the table, from `i` on.
unfoldable pub table_from : ℕ → ℕ → List ℕ
table_from i zero = []
table_from i (suc n) = crc_rounds 8 i ∷ table_from (suc i) n

unfoldable pub crc_table : List ℕ
crc_table = table_from 0 256

unfoldable pub crc_byte : ℕ → ℕ → ℕ
crc_byte c b = bit_xor (get_or crc_table (bit_and (bit_xor c b) 0xff) 0) (c / 2 ^ 8)

unfoldable pub crc_loop : ℕ → List ℕ → ℕ
crc_loop c [] = c
crc_loop c (b ∷ bs) = crc_loop (crc_byte c b) bs

unfoldable pub crc32c_software : ℕ → List ℕ → ℕ
crc32c_software crc bytes = bit_xor (crc_loop (bit_xor crc all_ones) bytes) all_ones

-- `crc32c(Slice)`
unfoldable pub crc32c : List ℕ → ℕ
crc32c bytes = crc32c_software 0 bytes
