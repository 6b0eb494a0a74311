-- ===== src/Base/Buffer.antt =====
-- src/base/buffer.h: bytes appended at the back and consumed from the front. The capacity of the
-- vector is not modelled.
pub mod View
use log_engine.Prelude.{
  ℕ, ◌+◌, ◌-◌, ◌*◌, List, [], ◌∷◌, ◌++◌, leb, ◌==◌, if◌then◌else◌, length, is_empty, take, drop,
  replicate, to_u8,
}
use log_engine.Base.Endian.{store_u16_le, store_u32_le, store_u64_le}

pub record Buffer : Type 0 where
  pub bytes : List ℕ
  pub read_pos : ℕ

abbrev pub empty_buffer : Buffer
empty_buffer = record { bytes = []; read_pos = 0 }

-- `slice()`
abbrev pub contents : Buffer → List ℕ
contents b = drop b.read_pos b.bytes

abbrev pub size : Buffer → ℕ
size b = length b.bytes - b.read_pos

unfoldable pub clear : Buffer → Buffer
clear b = record { bytes = []; read_pos = 0 }

unfoldable pub compact : Buffer → Buffer
compact b = if b.read_pos == 0 then b else record { bytes = drop b.read_pos b.bytes; read_pos = 0 }

unfoldable pub consume : ℕ → Buffer → Buffer
unfolding clear compact
consume n b =
    let c : Buffer = record b { read_pos = b.read_pos + n } in
    if c.read_pos == length c.bytes
    then clear c
    else if leb (length c.bytes) (c.read_pos * 2)
    then compact c
    else c

unfoldable pub append : List ℕ → Buffer → Buffer
append s b = if is_empty s then b else record b { bytes = b.bytes ++ s }

unfoldable pub append_u8 : ℕ → Buffer → Buffer
append_u8 v b = record b { bytes = b.bytes ++ (to_u8 v ∷ []) }

-- `append_fixed<N>`: grow by `n` and store at the old end.
unfoldable pub append_fixed : ℕ → (List ℕ → ℕ → List ℕ) → Buffer → Buffer
append_fixed n store b = record b { bytes = store (b.bytes ++ replicate n 0) (length b.bytes) }

unfoldable pub append_u16_le : ℕ → Buffer → Buffer
append_u16_le v = append_fixed 2 (λ p i. store_u16_le p i v)

unfoldable pub append_u32_le : ℕ → Buffer → Buffer
append_u32_le v = append_fixed 4 (λ p i. store_u32_le p i v)

unfoldable pub append_u64_le : ℕ → Buffer → Buffer
append_u64_le v = append_fixed 8 (λ p i. store_u64_le p i v)

-- The caller fills the `n` new bytes; a fresh element of the vector is 0.
unfoldable pub append_uninitialized : ℕ → Buffer → Buffer
append_uninitialized n b = record b { bytes = b.bytes ++ replicate n 0 }

unfoldable pub shrink_by : ℕ → Buffer → Buffer
shrink_by n b = record b { bytes = take (length b.bytes - n) b.bytes }
