-- ===== src/Raft/FileTests.antt =====
-- Messages as bytes, and `raft.state` through a torn and through a whole write.
use log_engine.Prelude.{
  ℕ, ◌+◌, ◌≡◌, refl, ap, subst, ◌∙◌, true, List, [], ◌∷◌, ◌++◌, arith, length, take, replicate,
  length-append, take_front,
}
use log_engine.Base.Error.{corrupt_record, ok, fail}
use log_engine.Raft.Codec.{encode_message, decode_message}
use log_engine.Raft.Codec.RoundTrip.{IsWide, as_sent, decode_message-encode_message}
use log_engine.Raft.StateFile.{
  state_file_bytes, PersistedState, encode_state_slot, decode_state_slot, scan_state_file,
}
use log_engine.Raft.StateFile.RoundTrip.{
  decode_state_slot-encode_state_slot, length-encode_state_slot,
}
use log_engine.Raft.StateFile.Torn.{
  slot_of, written_slot, torn_write_keeps_state, whole_write_is_read,
}
use log_engine.Raft.Types.{HardState, append_entries, Message, fresh_message}

abbrev with_entry_attached : Message
with_entry_attached = record fresh_message {
  type = append_entries;
  from = 1;
  to = 2;
  term = 3;
  log_index = 4;
  log_term = 3;
  entry_index = 5;
  entry_end = 7;
  entry_term = 3;
}

with_entry_attached-IsWide : IsWide with_entry_attached
with_entry_attached-IsWide = record {
  from = omega arith;
  to = omega arith;
  term = omega arith;
  log_index = omega arith;
  log_term = omega arith;
  commit_index = omega arith;
  entry_index = omega arith;
  entry_end = omega arith;
  entry_term = omega arith;
}

abbrev batch : List ℕ
batch = 11 ∷ 12 ∷ []

decode_message-encode_message_example :
    decode_message (encode_message (replicate 74 0) with_entry_attached batch)
    ≡ ok (as_sent with_entry_attached true, batch)
decode_message-encode_message_example =
    decode_message-encode_message with_entry_attached batch (replicate 74 0)
      with_entry_attached-IsWide (omega arith) refl

abbrev blank : List ℕ
blank = replicate 32 0

abbrev voted : HardState
voted = record { term = 5; voted_for = 2 }

abbrev next_vote : HardState
next_vote = record { term = 6; voted_for = 1 }

abbrev on_disk : PersistedState
on_disk = record { hard = voted; sequence = 8 }

abbrev file : List ℕ
file = encode_state_slot blank voted 8 ++ blank

decode_state_slot-encode_state_slot_example :
    decode_state_slot (encode_state_slot blank voted 8) ≡ ok on_disk
decode_state_slot-encode_state_slot_example =
    decode_state_slot-encode_state_slot blank voted 8 refl (omega arith) (omega arith) (omega arith)

length-file : length file ≡ state_file_bytes
length-file =
    length-append (encode_state_slot blank voted 8) blank
    ∙ ap (λ n. n + 32) (length-encode_state_slot blank voted 8 refl)

file-holds : decode_state_slot (slot_of file 8) ≡ ok on_disk
file-holds =
    ap decode_state_slot (
      subst (λ n. take n file ≡ encode_state_slot blank voted 8)
        (length-encode_state_slot blank voted 8 refl)
        (take_front (encode_state_slot blank voted 8) blank))
    ∙ decode_state_slot-encode_state_slot blank voted 8 refl (omega arith) (omega arith)
        (omega arith)

damaged : decode_state_slot blank ≡ fail corrupt_record
unfolding decode_state_slot
damaged = refl

torn_write_keeps_state_example : scan_state_file (written_slot file 9 blank) ≡ ok on_disk
torn_write_keeps_state_example =
    torn_write_keeps_state file on_disk length-file file-holds blank corrupt_record refl damaged

whole_write_is_read_example :
    scan_state_file (written_slot file 9 (encode_state_slot blank next_vote 9))
    ≡ ok (record { hard = next_vote; sequence = 9 })
whole_write_is_read_example =
    whole_write_is_read file on_disk length-file file-holds blank next_vote refl (omega arith)
      (omega arith) (omega arith)
