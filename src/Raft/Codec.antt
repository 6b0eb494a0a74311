-- ===== src/Raft/Codec.antt =====
-- src/raft/codec.h and src/raft/codec.cpp: a Raft message as bytes, a fixed header and the batch.
pub mod RoundTrip
use log_engine.Prelude.{
  ℕ, ◌+◌, Bool, not, ◌&&◌, Option, none, some, List, [], ltb, ◌==◌, if◌then◌else◌, differ, length,
  is_empty, take, drop, write_at, to_u32,
}
use log_engine.Base.Endian.{
  byte_at, store_u16_le, store_u32_le, store_u64_le, load_u32_le, load_u64_le, store_u8, zero_fill,
}
use log_engine.Base.Error.{invalid_request, Result, ok, fail}
use log_engine.Raft.Types.{
  no_index, no_term, MessageType, request_vote, request_vote_response, append_entries,
  append_entries_response, Message, carries_entry,
}
use log_engine.Wire.Api.{request_vote_key, append_entries_key}

abbrev pub message_header_bytes : ℕ
message_header_bytes = 72

abbrev pub message_bytes : ℕ → ℕ
message_bytes entry_size = message_header_bytes + entry_size

-- `static_cast<u8>(message.type)`
abbrev pub type_number : MessageType → ℕ
type_number request_vote = 1
type_number request_vote_response = 2
type_number append_entries = 3
type_number append_entries_response = 4

abbrev pub flag : Bool → ℕ
flag b = if b then 1 else 0

abbrev pub is_attached : Message → List ℕ → Bool
is_attached m entry = carries_entry m && not (is_empty entry)

-- The stores into a header that is all zero.
unfoldable pub store_fields : Message → Bool → ℕ → List ℕ → List ℕ
unfolding store_u8 store_u16_le store_u32_le store_u64_le
store_fields m attached entry_size p0 =
    let p1 = store_u8 p0 0 (type_number m.type) in
    let p2 = store_u8 p1 1 (flag m.granted) in
    let p3 = store_u16_le p2 2 0 in
    let p4 = store_u32_le p3 4 m.from in
    let p5 = store_u32_le p4 8 m.to in
    let p6 = store_u32_le p5 12 (to_u32 entry_size) in
    let p7 = store_u64_le p6 16 m.term in
    let p8 = store_u64_le p7 24 m.log_index in
    let p9 = store_u64_le p8 32 m.log_term in
    let p10 = store_u64_le p9 40 m.commit_index in
    let p11 = store_u64_le p10 48 (if attached then m.entry_index else no_index) in
    let p12 = store_u64_le p11 56 (if attached then m.entry_term else no_term) in
    store_u64_le p12 64 (if attached then m.entry_end else 0)

-- The buffer after the call; one of the wrong size is left as it was.
unfoldable pub encode_message : List ℕ → Message → List ℕ → List ℕ
unfolding zero_fill
encode_message out m entry =
    let attached = is_attached m entry in
    let entry_size = if attached then length entry else 0 in
    if not (length out == message_bytes entry_size)
    then out
    else (let p = store_fields m attached entry_size (zero_fill message_header_bytes out) in
        if entry_size == 0 then p else write_at p message_header_bytes entry)

-- `static_cast<MessageType>(type)` of a byte in range.
abbrev pub message_type_of : ℕ → Option MessageType
message_type_of b =
    if b == 1
    then some request_vote
    else if b == 2
    then some request_vote_response
    else if b == 3
    then some append_entries
    else if b == 4
    then some append_entries_response
    else none

unfoldable pub load_fields : MessageType → List ℕ → Message
unfolding load_u32_le load_u64_le
load_fields t p = record {
  type = t;
  from = load_u32_le p 4;
  to = load_u32_le p 8;
  term = load_u64_le p 16;
  log_index = load_u64_le p 24;
  log_term = load_u64_le p 32;
  commit_index = load_u64_le p 40;
  entry_index = load_u64_le p 48;
  entry_end = load_u64_le p 64;
  entry_term = load_u64_le p 56;
  granted = not (byte_at p 1 == 0);
}

-- The message and the bytes that `*entry` points at.
unfoldable pub decode_fields : MessageType → List ℕ → Result (Message × List ℕ)
unfolding load_u32_le
decode_fields t p =
    let entry_size = load_u32_le p 12 in
    let m = load_fields t p in
    if not (length p == message_bytes entry_size)
    then fail invalid_request
    else if differ (carries_entry m) (not (entry_size == 0))
    then fail invalid_request
    else ok (m, if entry_size == 0 then [] else take entry_size (drop message_header_bytes p))

unfoldable pub decode_message : List ℕ → Result (Message × List ℕ)
decode_message p =
    if ltb (length p) message_header_bytes
    then fail invalid_request
    else elim (message_type_of (byte_at p 0)) [
      | none ↦ fail invalid_request
      | some t ↦ decode_fields t p
    ]

unfoldable pub api_key_for : MessageType → ℕ
api_key_for request_vote = request_vote_key
api_key_for request_vote_response = request_vote_key
api_key_for append_entries = append_entries_key
api_key_for append_entries_response = append_entries_key
