-- ===== src/Raft/StateFile.antt =====
-- src/raft/state_file.h and src/raft/state_file.cpp: `raft.state`, two slots written in turn.
pub mod RoundTrip
pub mod Torn
use log_engine.Prelude.{
  ℕ, zero, suc, ◌*◌, ◌/◌, ◌%◌, min, not, Option, none, some, List, ltb, ◌==◌, if◌then◌else◌, length,
  take, drop,
}
use log_engine.Base.Crc32c.{crc32c}
use log_engine.Base.Endian.{
  byte_at, store_u16_le, store_u32_le, store_u64_le, load_u32_le, load_u64_le, store_u8, zero_fill,
}
use log_engine.Base.Error.{corrupt_record, unsupported_version, Result, ok, fail}
use log_engine.Raft.Types.{HardState}

abbrev pub state_slot_bytes : ℕ
state_slot_bytes = 32

abbrev pub state_file_bytes : ℕ
state_file_bytes = 64

abbrev pub state_magic : ℕ
state_magic = 0x52

abbrev pub state_version : ℕ
state_version = 0

pub record PersistedState : Type 0 where
  pub hard : HardState
  pub sequence : ℕ

abbrev pub state_slot_offset : ℕ → ℕ
state_slot_offset sequence = sequence % 2 * state_slot_bytes

-- What the CRC covers: bytes 4 to 31.
abbrev pub covered : List ℕ → List ℕ
covered p = take 28 (drop 4 p)

-- The stores into a slot that is all zero, the CRC excepted.
unfoldable pub store_state : HardState → ℕ → List ℕ → List ℕ
unfolding store_u8 store_u16_le store_u32_le store_u64_le
store_state h sequence p0 =
    let p1 = store_u8 p0 4 state_magic in
    let p2 = store_u8 p1 5 state_version in
    let p3 = store_u16_le p2 6 0 in
    let p4 = store_u64_le p3 8 sequence in
    let p5 = store_u64_le p4 16 h.term in
    let p6 = store_u32_le p5 24 h.voted_for in store_u32_le p6 28 0

unfoldable pub encode_state_slot : List ℕ → HardState → ℕ → List ℕ
unfolding zero_fill
encode_state_slot out h sequence =
    if not (length out == state_slot_bytes)
    then out
    else (let p = store_state h sequence (zero_fill state_slot_bytes out) in
        store_u32_le p 0 (crc32c (covered p)))

unfoldable pub load_state : List ℕ → PersistedState
unfolding load_u32_le load_u64_le
load_state p = record {
  hard = record { term = load_u64_le p 16; voted_for = load_u32_le p 24 };
  sequence = load_u64_le p 8;
}

unfoldable pub decode_state_slot : List ℕ → Result PersistedState
unfolding load_state load_u32_le
decode_state_slot p =
    if not (length p == state_slot_bytes)
    then fail corrupt_record
    else if not (byte_at p 4 == state_magic)
    then fail corrupt_record
    else if not (byte_at p 5 == state_version)
    then fail unsupported_version
    else if not (load_u32_le p 0 == crc32c (covered p))
    then fail corrupt_record
    else ok (load_state p)

-- One turn of the loop: `best`, if `found`, and the slot just read.
unfoldable pub newer : Option PersistedState → Result PersistedState → Option PersistedState
newer best (fail e) = best
newer none (ok s) = some s
newer (some b) (ok s) = if ltb b.sequence s.sequence then some s else some b

-- `slots` turns from the slot number `i` on.
unfoldable pub scan_slots : List ℕ → ℕ → ℕ → Option PersistedState → Option PersistedState
scan_slots file i zero best = best
scan_slots file i (suc slots) best =
    scan_slots file (suc i) slots
      (newer best (decode_state_slot (take state_slot_bytes (drop (i * state_slot_bytes) file))))

abbrev pub found_or_corrupt : Option PersistedState → Result PersistedState
found_or_corrupt none = fail corrupt_record
found_or_corrupt (some s) = ok s

unfoldable pub scan_state_file : List ℕ → Result PersistedState
scan_state_file file =
    if ltb (length file) state_slot_bytes
    then fail corrupt_record
    else found_or_corrupt
        (scan_slots file 0 (min (length file) state_file_bytes / state_slot_bytes) none)
