-- ===== src/Raft/StateFile/RoundTrip.antt =====
-- src/raft/state_file.cpp: a slot that was written whole is read back.
use log_engine.Prelude.{
  ℕ, ◌≡◌, refl, List, arith, ==_self, length, drop, replicate, length-drop, nothing_left, IsU32,
  IsU64,
}
use log_engine.Base.Crc32c.{crc32c}
use log_engine.Base.Crc32c.Detection.{crc32c-lt}
use log_engine.Base.Endian.{store_u32_le, load_u32_le, load_u64_le}
use log_engine.Base.Endian.RoundTrip.{join_u32-split, join_u64-stored, zero_fill_lem}
use log_engine.Base.Error.{ok}
use log_engine.Raft.StateFile.{
  state_slot_bytes, covered, store_state, encode_state_slot, load_state, decode_state_slot,
}
use log_engine.Raft.Types.{HardState}

module _ (h : HardState) (sequence : ℕ) where
  abbrev stored : List ℕ
  stored = store_state h sequence (replicate state_slot_bytes 0)

  crc-word : IsU32 (crc32c (covered stored))
  crc-word = crc32c-lt (covered stored)

  -- The slot as a list.
  abbrev slot : List ℕ
  slot = store_u32_le stored 0 (crc32c (covered stored))

  module _ (t : IsU64 h.term) (v : IsU32 h.voted_for) (s : IsU64 sequence) where
    load_state-slot : load_state slot ≡ record { hard = h; sequence = sequence }
    unfolding store_state store_u32_le load_state load_u32_le load_u64_le
    load_state-slot =
        rw (join_u64-stored h.term t, join_u32-split h.voted_for v, join_u64-stored sequence s) refl

    load_crc : load_u32_le slot 0 ≡ crc32c (covered stored)
    unfolding store_state store_u32_le load_u32_le
    load_crc = join_u32-split (crc32c (covered stored)) crc-word

    covered-slot : covered slot ≡ covered stored
    unfolding store_state store_u32_le
    covered-slot = refl

    decode-slot : decode_state_slot slot ≡ ok (record { hard = h; sequence = sequence })
    unfolding store_state store_u32_le decode_state_slot
    decode-slot =
        rw (load_crc, covered-slot, ==_self (crc32c (covered stored)), load_state-slot) refl

-- A slot that is encoded is decoded, whatever the buffer held before.
pub decode_state_slot-encode_state_slot :
    (out : List ℕ) (h : HardState) (sequence : ℕ)
    → length out ≡ state_slot_bytes
    → IsU64 h.term
    → IsU32 h.voted_for
    → IsU64 sequence
    → decode_state_slot (encode_state_slot out h sequence)
      ≡ ok (record { hard = h; sequence = sequence })
unfolding encode_state_slot
decode_state_slot-encode_state_slot out h sequence e t v s =
    rw
      (
        e,
        zero_fill_lem state_slot_bytes out (omega arith),
        nothing_left (drop 32 out) (omega (arith, length-drop 32 out)),
      )
      (decode-slot h sequence t v s)

pub length-encode_state_slot :
    (out : List ℕ) (h : HardState) (sequence : ℕ)
    → length out ≡ state_slot_bytes
    → length (encode_state_slot out h sequence) ≡ state_slot_bytes
unfolding encode_state_slot store_state store_u32_le
length-encode_state_slot out h sequence e =
    rw
      (
        e,
        zero_fill_lem state_slot_bytes out (omega arith),
        nothing_left (drop 32 out) (omega (arith, length-drop 32 out)),
      )
      refl
