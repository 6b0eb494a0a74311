-- ===== src/Raft/Codec/RoundTrip.antt =====
-- src/raft/codec.cpp: what is encoded is decoded.
use log_engine.Prelude.{
  ℕ, suc, ◌≤◌, ◌≡◌, refl, ap, inl, inr, Bool, true, false, not, some, List, [], ◌∷◌, ◌++◌, arith,
  ◌==◌, if◌then◌else◌, ==_self, Bool-cases, if_intro, differ, length, take, drop, replicate,
  write_at, write_at_whole, length-drop, take-whole, nothing_left, IsU32, IsU64, to_u8,
}
use native.Mathlib.Nat.{mod-eq_of_lt}
use log_engine.Base.Endian.{byte_at, load_u32_le, load_u64_le, zero_fill}
use log_engine.Base.Endian.RoundTrip.{join_u32-split, join_u64-stored, zero_fill_lem}
use log_engine.Base.Error.{invalid_request, Result, ok, fail}
use log_engine.Raft.Codec.{
  message_header_bytes, message_bytes, type_number, flag, is_attached, store_fields, encode_message,
  message_type_of, load_fields, decode_fields, decode_message,
}
use log_engine.Raft.Types.{
  no_index, no_term, MessageType, request_vote, request_vote_response, append_entries,
  append_entries_response, Message, carries_entry,
}

-- The numbers fit their fields.
pub record IsWide (m : Message) : Type 0 where
  pub from : IsU32 m.from
  pub to : IsU32 m.to
  pub term : IsU64 m.term
  pub log_index : IsU64 m.log_index
  pub log_term : IsU64 m.log_term
  pub commit_index : IsU64 m.commit_index
  pub entry_index : IsU64 m.entry_index
  pub entry_end : IsU64 m.entry_end
  pub entry_term : IsU64 m.entry_term

-- What arrives: a message whose entry was not attached arrives as a heartbeat.
unfoldable pub as_sent : Message → Bool → Message
as_sent m attached =
    if attached then m else record m { entry_index = no_index; entry_end = 0; entry_term = no_term }

type_back : (t : MessageType) → message_type_of (to_u8 (type_number t)) ≡ some t
type_back request_vote = refl
type_back request_vote_response = refl
type_back append_entries = refl
type_back append_entries_response = refl

flag_back : (b : Bool) → not (to_u8 (flag b) == 0) ≡ b
flag_back true = refl
flag_back false = refl

sent_fields :
    (m : Message) (b : Bool)
    → record m {
      entry_index = if b then m.entry_index else no_index;
      entry_end = if b then m.entry_end else 0;
      entry_term = if b then m.entry_term else no_term;
    }
      ≡ as_sent m b
unfolding as_sent
sent_fields m true = refl
sent_fields m false = refl

differ_self : (b : Bool) → differ b b ≡ false
differ_self true = refl
differ_self false = refl

accepted :
    (m : Message) (n : ℕ) (t : List ℕ)
    → length t ≡ n
    → ◌≡◌ {A = Result (Message × List ℕ)}
        (if not (message_bytes n == message_bytes n)
          then fail invalid_request
          else if differ (not (n == 0)) (not (n == 0))
          then fail invalid_request
          else ok (m, if n == 0 then [] else take n t))
        (ok (m, t))
accepted m n t e =
    rw (==_self (message_bytes n), differ_self (not (n == 0)))
      (ap (λ (s : List ℕ). ok (m, s)) (carried t n e))
  where
    carried : (t : List ℕ) (n : ℕ) → length t ≡ n → (if n == 0 then [] else take n t) ≡ t
    carried [] n e = rw (← e) refl
    carried (b ∷ t) n e = rw (← e) (
        if_intro (λ s. s ≡ b ∷ t) (suc (length t) == 0) [] _ (λ z. absurd (ground arith))
          (λ _. ap (λ s. b ∷ s) (take-whole t)))

module _ (m : Message) (w : IsWide m) (attached : Bool) (n : ℕ) (h : IsU32 n) (t : List ℕ) where
  -- The header with whatever follows it.
  abbrev sent : List ℕ
  sent = store_fields m attached n (replicate message_header_bytes 0 ++ t)

  length-sent : length sent ≡ message_bytes (length t)
  unfolding store_fields
  length-sent = omega arith

  rest_of_sent : drop message_header_bytes sent ≡ t
  unfolding store_fields
  rest_of_sent = refl

  load_type : message_type_of (byte_at sent 0) ≡ some m.type
  unfolding store_fields
  load_type = type_back m.type

  load_entry_size : load_u32_le sent 12 ≡ n
  unfolding store_fields load_u32_le
  load_entry_size = rw (mod-eq_of_lt h) (join_u32-split n h)

  load_fields-sent : load_fields m.type sent ≡ as_sent m attached
  unfolding store_fields load_fields load_u64_le load_u32_le as_sent
  load_fields-sent =
      rw
        (
          flag_back m.granted,
          join_u32-split m.from w.from,
          join_u32-split m.to w.to,
          join_u64-stored m.term w.term,
          join_u64-stored m.log_index w.log_index,
          join_u64-stored m.log_term w.log_term,
          join_u64-stored m.commit_index w.commit_index,
          join_u64-stored (if attached then m.entry_index else no_index)
              (ground (arith, w.entry_index)),
          join_u64-stored (if attached then m.entry_term else no_term)
              (ground (arith, w.entry_term)),
          join_u64-stored (if attached then m.entry_end else 0) (ground (arith, w.entry_end)),
        )
        (sent_fields m attached)

  decode_fields-sent :
      length t ≡ n
      → carries_entry (as_sent m attached) ≡ not (n == 0)
      → decode_fields m.type sent ≡ ok (as_sent m attached, t)
  unfolding decode_fields
  decode_fields-sent e c =
      rw (load_fields-sent, load_entry_size, rest_of_sent, length-sent, e, c)
        (accepted (as_sent m attached) n t e)

  decode-sent :
      length t ≡ n
      → carries_entry (as_sent m attached) ≡ not (n == 0)
      → decode_message sent ≡ ok (as_sent m attached, t)
  unfolding decode_message
  decode-sent e c = rw (length-sent, load_type, decode_fields-sent e c) (ground arith)

  memcpy-sent :
      (e : List ℕ)
      → write_at sent message_header_bytes e
        ≡ store_fields m attached n (replicate message_header_bytes 0 ++ write_at t 0 e)
  unfolding store_fields
  memcpy-sent e = refl

attached_lem :
    (m : Message) (entry : List ℕ)
    → is_attached m entry ≡ true
    → carries_entry m ≡ not (length entry == 0)
attached_lem m [] p = ground arith
attached_lem m (b ∷ entry) p = ground arith

not_empty :
    (m : Message) (entry : List ℕ) → is_attached m entry ≡ true → (length entry == 0) ≡ false
not_empty m [] p = ground arith
not_empty m (b ∷ entry) p = ground arith

module _ (m : Message) (w : IsWide m) (entry out : List ℕ) where
  zeroed : message_header_bytes ≤ length out → zero_fill 72 out ≡ replicate 72 0 ++ drop 72 out
  zeroed h = zero_fill_lem 72 out h

  heartbeat_arrives :
      is_attached m entry ≡ false
      → length out ≡ message_bytes 0
      → decode_message (encode_message out m entry) ≡ ok (as_sent m false, [])
  unfolding encode_message as_sent
  heartbeat_arrives p e =
      let t : drop 72 out ≡ [] = nothing_left (drop 72 out) (omega (arith, length-drop 72 out)) in
      rw (p, e, zeroed (omega arith), t) (decode-sent m w false 0 (omega arith) [] refl refl)

  attached_arrives :
      IsU32 (length entry)
      → is_attached m entry ≡ true
      → length out ≡ message_bytes (length entry)
      → decode_message (encode_message out m entry) ≡ ok (as_sent m true, entry)
  unfolding encode_message as_sent
  attached_arrives h p e =
      rw
        (
          p,
          e,
          ==_self (message_bytes (length entry)),
          not_empty m entry p,
          zeroed (omega arith),
          memcpy-sent m w true (length entry) h (drop 72 out) entry,
          write_at_whole (drop 72 out) entry (omega (arith, length-drop 72 out)),
        )
        (decode-sent m w true (length entry) h entry refl (attached_lem m entry p))

-- A message whose numbers fit their fields, encoded into a buffer of the size that it asks for, is
-- decoded with its entry. Where no entry is attached, it arrives as a heartbeat.
pub decode_message-encode_message :
    (m : Message) (entry out : List ℕ)
    → IsWide m
    → IsU32 (length entry)
    → length out ≡ message_bytes (if is_attached m entry then length entry else 0)
    → decode_message (encode_message out m entry)
      ≡ ok (as_sent m (is_attached m entry), if is_attached m entry then entry else [])
decode_message-encode_message m entry out w h e = elim (Bool-cases (is_attached m entry)) [
  | inl p ↦ rw p (attached_arrives m w entry out h p (rw p at e))
  | inr p ↦ rw p (heartbeat_arrives m w entry out p (rw p at e))
]
