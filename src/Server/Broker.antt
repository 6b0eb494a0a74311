-- ===== src/Server/Broker.antt =====
-- src/server/broker.h and src/server/broker.cpp: one node, its log, its `raft.state` and what it hands to
-- the network. What an observer is told, the connections and the timer are left out: `sent` are the
-- messages that go to the connections of the peers, each with its entry, in their order. A peer is its
-- id; a broker that runs has its log, its node and its state file.
pub mod Vote
pub mod Frames
pub mod Order
pub mod Start
pub mod Stored
pub mod Loaded
use log_engine.Storage.RecordBatch.{next_offset as offset_after}
use log_engine.Prelude.{
  ℕ, ◌*◌, Bool, true, false, not, List, [], ◌∷◌, ◌++◌, leb, ◌==◌, if◌then◌else◌, length, is_empty,
  take, replicate, to_u32, add_u64,
}
use log_engine.Base.Error.{
  not_leader, offset_out_of_range, corrupt_record, invalid_request, io_error, closed, Result, ok,
  fail, Status,
}
use log_engine.Io.Disk.{Disk, Run, pure, refuse, carry_on, ◌>>=◌, ◌>>◌, perform, lift}
use log_engine.Io.SimDisk.{fsync}
use log_engine.Raft.Codec.{decode_message}
use log_engine.Raft.Handlers.{step, take_ready, hard_state_persisted}
use log_engine.Raft.Replication.{log_appended}
use log_engine.Raft.Roles.{tick}
use log_engine.Raft.State.{Node, is_leader}
use log_engine.Raft.StateFile.{state_slot_bytes, state_slot_offset, encode_state_slot}
use log_engine.Raft.Types.{
  no_index, HardState, Message, carries_entry, Config, Ready, ready_is_empty,
}
use log_engine.Storage.Log.{Log, Store, append_log, append_replicated, sync_log}
use log_engine.Storage.Log.Cut.{truncate_log}
use log_engine.Storage.Log.Read.{read_log}
use log_engine.Storage.RecordBatch.{
  BatchHeader, total_bytes, BatchMeta, decode_header, BatchBuilder,
}

-- 64 KiB
abbrev pub entry_scratch_bytes : ℕ
entry_scratch_bytes = 64 * 1024

-- `raft.state`
abbrev pub state_file_name : List ℕ
state_file_name = 114 ∷ 97 ∷ 102 ∷ 116 ∷ 46 ∷ 115 ∷ 116 ∷ 97 ∷ 116 ∷ 101 ∷ []

-- `kDefaultIndexIntervalBytes`
abbrev pub default_index_interval_bytes : ℕ
default_index_interval_bytes = 4096

pub record BrokerConfig : Type 0 where
  pub data_dir : List ℕ
  pub raft : Config
  pub segment_max_bytes : ℕ
  pub fsync_hard_state : Bool
  pub ack_on_local_append : Bool

pub record Broker : Type 0 where
  pub config : BrokerConfig
  pub log : Log
  pub raft : Node
  pub state_file : ℕ
  pub state_sequence : ℕ
  pub last_commit_seen : ℕ
  pub ticks : ℕ
  pub appends : ℕ
  pub raft_received : ℕ
  pub hard_state_writes : ℕ
  pub running : Bool
  pub sent : List (Message × List ℕ)

-- The broker and its disk.
pub record Machine (D : Disk) : Type 0 where
  pub disk : D.State
  pub broker : Broker

-- What a batch of a term says of its producer: nothing.
abbrev pub meta_of_term : ℕ → BatchMeta
meta_of_term term = record {
  leader_epoch = to_u32 term;
  control = false;
  timestamp_ms = 0;
  producer_id = 0;
  producer_epoch = 0;
  base_sequence = 0;
}

unfoldable pub note_commit : ℕ → Broker → Broker
note_commit commit b =
    if leb commit b.last_commit_seen then b else record b { last_commit_seen = commit }

abbrev pub set_raft : Node → Broker → Broker
set_raft n b = record b { raft = n }

-- The search for the peer that a message is for.
unfoldable pub is_peer : ℕ → List ℕ → Bool
is_peer id [] = false
is_peer id (p ∷ ps) = let rest = is_peer id ps in if p == id then true else rest

module _ (D : Disk) where
  abbrev pub update : (Broker → Broker) → Machine D → Machine D
  update f w = record { disk = w.disk; broker = f w.broker }

  abbrev pub ask_disk : {A : Type 0} → Run D.State A → Run (Machine D) A
  ask_disk m w = let r = m w.disk in (r.0, record { disk = r.1; broker = w.broker })

  abbrev pub on_log : {A : Type 0} → Run (Store D) A → Run (Machine D) A
  on_log m w =
      let r = m (record { disk = w.disk; log = w.broker.log }) in
      (r.0, record { disk = r.1.disk; broker = record w.broker { log = r.1.log } })

  -- The write, its fsync and the count of them.
  unfoldable pub write_slot : Bool → ℕ → ℕ → List ℕ → Run D.State (Unit {0})
  write_slot fsync file sequence slot = do
    written ← D.pwrite file slot (state_slot_offset sequence)
    if not (written == length slot)
        then refuse io_error
        else if fsync
        then D.fsync file
        else pure tt

  unfoldable pub persist : HardState → Run (Machine D) (Unit {0})
  unfolding write_slot
  persist state w =
      carry_on
        (ask_disk
          (write_slot w.broker.config.fsync_hard_state w.broker.state_file w.broker.state_sequence
            (encode_state_slot (replicate state_slot_bytes 0) state w.broker.state_sequence))
          w)
        (λ u. perform (
          update (λ b. record b {
            state_sequence = add_u64 b.state_sequence 1;
            hard_state_writes = add_u64 b.hard_state_writes 1;
          })))

  unfoldable pub truncate_order : Ready → Run (Machine D) (Unit {0})
  truncate_order ready =
      if ready.truncate_from == no_index
      then pure tt
      else on_log (truncate_log D ready.truncate_from)

  unfoldable pub append_order : Ready → List ℕ → Run (Machine D) (Unit {0})
  append_order ready entry =
      if not ready.append_entry
      then pure tt
      else if is_empty entry
      then refuse invalid_request
      else on_log (append_replicated D entry) >> on_log (sync_log D)

  -- Truncate first, then append.
  unfoldable pub carry_out_log_orders : Ready → List ℕ → Run (Machine D) (Unit {0})
  unfolding truncate_order append_order
  carry_out_log_orders ready entry = truncate_order ready >> append_order ready entry

  -- The bytes of one entry; the log may return more than one.
  abbrev pub entry_of : ℕ → List ℕ → Result BatchHeader → Result (List ℕ)
  entry_of index framed (fail c) = fail corrupt_record
  entry_of index framed (ok h) =
      if not (h.base_offset == index)
      then fail offset_out_of_range
      else ok (take (total_bytes h) framed)

  unfoldable pub read_entry : ℕ → Run (Machine D) (List ℕ)
  read_entry index w =
      carry_on (ask_disk (read_log D w.broker.log index entry_scratch_bytes) w) (λ framed.
        if is_empty framed
        then refuse offset_out_of_range
        else lift (entry_of index framed (decode_header framed)))

  abbrev pub hand_over : Message → List ℕ → Broker → Broker
  hand_over m entry b = record b { sent = b.sent ++ ((m, entry) ∷ []) }

  -- The end of the entry is filled in, which only the log knows.
  abbrev pub hand_framed : Message → List ℕ → Result BatchHeader → Broker → Broker
  hand_framed m entry (fail c) b = b
  hand_framed m entry (ok h) b = hand_over (record m { entry_end = offset_after h }) entry b

  abbrev pub send_entry : Message → Result (List ℕ) × Machine D → Machine D
  send_entry m (fail c, w) = w
  send_entry m (ok entry, w) = update (hand_framed m entry (decode_header entry)) w

  unfoldable pub send_raft : Message → Machine D → Machine D
  unfolding is_peer read_entry
  send_raft m w =
      if not (is_peer m.to w.broker.config.raft.peers)
      then w
      else if carries_entry m
      then send_entry m (read_entry m.entry_index w)
      else update (hand_over m []) w

  unfoldable pub send_all : List Message → Machine D → Machine D
  unfolding send_raft
  send_all [] w = w
  send_all (m ∷ ms) w = send_all ms (send_raft m w)

  -- Nothing is sent when the state was not stored.
  abbrev pub sent_after : Ready → Status × Machine D → Machine D
  sent_after ready (fail c, w) = w
  sent_after ready (ok u, w) =
      send_all ready.messages (update (λ b. set_raft (hard_state_persisted b.raft) b) w)

  -- A broker whose disk refuses a log order stops serving.
  abbrev pub after_orders : Ready → Status × Machine D → Machine D
  after_orders ready (fail c, w) = update (λ b. record b { running = false }) w
  after_orders ready (ok u, w) =
      if ready.persist_hard_state
      then sent_after ready (persist ready.hard_state w)
      else send_all ready.messages w

  unfoldable pub drive_broker : List ℕ → Machine D → Machine D
  unfolding carry_out_log_orders persist send_all
  drive_broker entry w =
      let (ready, n) = take_ready w.broker.raft in
      let v = update (λ b. note_commit ready.commit_index (set_raft n b)) w in
      if ready_is_empty ready then v else after_orders ready (carry_out_log_orders ready entry v)

  unfoldable pub on_tick : Machine D → Machine D
  unfolding drive_broker
  on_tick w =
      if not w.broker.running
      then w
      else drive_broker []
          (update (λ b. record b { ticks = add_u64 b.ticks 1; raft = tick b.raft }) w)

  abbrev pub receive_decoded : Result (Message × List ℕ) → Machine D → Machine D
  receive_decoded (fail c) w = w
  receive_decoded (ok (m, entry)) w =
      if not (m.to == w.broker.config.raft.id)
      then w
      else drive_broker entry (
          update (λ b. record b { raft_received = add_u64 b.raft_received 1; raft = step m b.raft })
            w)

  unfoldable pub receive_raft : List ℕ → Machine D → Machine D
  unfolding drive_broker
  receive_raft payload = receive_decoded (decode_message payload)

  -- The leader's append, once it is on the disk, and its offset.
  abbrev pub proposed : ℕ → Machine D → Result ℕ × Machine D
  proposed base w = (
    ok base,
    drive_broker [] (
        update
          (λ b.
            record (if b.config.ack_on_local_append then note_commit b.log.next_offset b else b) {
              raft = log_appended base b.log.next_offset b.raft.hard.term b.raft;
              appends = add_u64 b.appends 1;
            })
          w),
  )

  unfoldable pub propose : BatchBuilder → Run (Machine D) ℕ
  unfolding drive_broker
  propose builder w =
      if not w.broker.running
      then (fail closed, w)
      else if not (is_leader w.broker.raft.role)
      then (fail not_leader, w)
      else carry_on (on_log (append_log D builder (meta_of_term w.broker.raft.hard.term)) w)
          (λ (base, rest). on_log (sync_log D) >>= λ u. proposed base)
