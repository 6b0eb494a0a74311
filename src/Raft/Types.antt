-- ===== src/Raft/Types.antt =====
-- src/raft/types.h, and the interface of src/io/random.h that the node draws from.
use log_engine.Prelude.{ℕ, ◌+◌, ◌-◌, ◌/◌, ◌^◌, Bool, false, not, ◌&&◌, List}
use log_engine.Prelude.{◌==◌, length, is_empty}

-- The sentinels: the largest u32, the largest u64, and term 0.
abbrev pub no_node : ℕ
no_node = 2 ^ 32 - 1

abbrev pub no_index : ℕ
no_index = 2 ^ 64 - 1

abbrev pub no_term : ℕ
no_term = 0

pub data Role : Type 0 where
  follower candidate leader : Role

-- A run of consecutive indices that one leader produced.
pub record Epoch : Type 0 where
  pub term : ℕ
  pub start : ℕ

pub record HardState : Type 0 where
  pub term : ℕ
  pub voted_for : ℕ

pub data MessageType : Type 0 where
  request_vote request_vote_response append_entries append_entries_response : MessageType

pub record Message : Type 0 where
  pub type : MessageType
  pub from : ℕ
  pub to : ℕ
  pub term : ℕ
  pub log_index : ℕ
  pub log_term : ℕ
  pub commit_index : ℕ
  pub entry_index : ℕ
  pub entry_end : ℕ
  pub entry_term : ℕ
  pub granted : Bool

-- `Message message;` with the initialisers of the struct.
abbrev pub fresh_message : Message
fresh_message = record {
  type = request_vote;
  from = no_node;
  to = no_node;
  term = 0;
  log_index = 0;
  log_term = 0;
  commit_index = 0;
  entry_index = no_index;
  entry_end = 0;
  entry_term = 0;
  granted = false;
}

abbrev pub carries_entry : Message → Bool
carries_entry m = not (m.entry_index == no_index)

pub record Config : Type 0 where
  pub id : ℕ
  pub peers : List ℕ
  pub election_timeout_ticks : ℕ
  pub election_timeout_jitter_ticks : ℕ
  pub heartbeat_timeout_ticks : ℕ

abbrev pub cluster_size : Config → ℕ
cluster_size c = length c.peers + 1

abbrev pub quorum : Config → ℕ
quorum c = cluster_size c / 2 + 1

pub record Ready : Type 0 where
  pub persist_hard_state : Bool
  pub hard_state : HardState
  pub messages : List Message
  pub truncate_from : ℕ
  pub append_entry : Bool
  pub commit_index : ℕ

unfoldable pub ready_is_empty : Ready → Bool
ready_is_empty r =
    not r.persist_hard_state
    && is_empty r.messages
    && not r.append_entry
    && r.truncate_from == no_index

-- `io::Random` as its client sees it: `draw i bound` is the answer to the call number `i`.
pub record Random : Type 0 where
  pub draw : ℕ → ℕ → ℕ
  pub position : ℕ

unfoldable pub next_below : Random → ℕ → ℕ × Random
next_below r bound = (r.draw r.position bound, record r { position = r.position + 1 })
