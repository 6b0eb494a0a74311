-- ===== src/Base/Tests.antt =====
-- The primitives of src/base at concrete inputs.
use log_engine.Prelude.{ℕ, ◌≡◌, refl, List, [], ◌∷◌, arith, All, IsByte}
use Prim.Native.Nat.{bit_xor}
use log_engine.Base.Buffer.{Buffer, append}
use log_engine.Base.Buffer.View.{Appends, append-Appends}
use log_engine.Base.Crc32c.{
  all_ones, crc_round, crc_rounds, table_from, crc_table, crc_byte, crc_loop, crc32c_software,
  crc32c,
}
use log_engine.Base.Crc32c.Bitwise.{crc_reference, crc32c_software_lem}
use log_engine.Base.Crc32c.Detection.{crc32c_detects_byte}

-- "123456789"
abbrev digits : List ℕ
digits = 0x31 ∷ 0x32 ∷ 0x33 ∷ 0x34 ∷ 0x35 ∷ 0x36 ∷ 0x37 ∷ 0x38 ∷ 0x39 ∷ []

abbrev two_bytes : List ℕ
two_bytes = 1 ∷ 2 ∷ []

two_bytes-IsByte : All IsByte two_bytes
two_bytes-IsByte = (omega arith, (omega arith, tt))

-- The check value of the standard.
check_value : crc32c digits ≡ 0xe3069283
unfolding crc32c crc32c_software crc_loop crc_byte crc_table table_from crc_rounds crc_round
check_value = refl

crc32c_software_example :
    crc32c_software 0 two_bytes ≡ bit_xor (crc_reference (bit_xor 0 all_ones) two_bytes) all_ones
crc32c_software_example = crc32c_software_lem 0 two_bytes two_bytes-IsByte

crc32c_detects_byte_example : ◌≡◌ {A = ℕ} 5 5
crc32c_detects_byte_example =
    crc32c_detects_byte two_bytes 5 5 two_bytes two_bytes-IsByte (omega arith) (omega arith)
      two_bytes-IsByte refl

abbrev half_read : Buffer
half_read = record { bytes = 9 ∷ 8 ∷ 7 ∷ 6 ∷ []; read_pos = 1 }

append-Appends_example : Appends two_bytes half_read (append two_bytes half_read)
append-Appends_example = append-Appends two_bytes half_read (omega arith)
