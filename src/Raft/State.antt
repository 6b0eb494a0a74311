-- ===== src/Raft/State.antt =====
-- src/raft/node.h, the members of `Node`, and of node.cpp the timer and the outbox. A method that
-- changes the object returns the new node. The epochs are listed newest first: the head is
-- `epochs_.back()`.
use log_engine.Prelude.{
  ℕ, Bool, true, false, List, [], ◌∷◌, ◌++◌, ◌==◌, if◌then◌else◌, to_u32, add_u32,
}
use log_engine.Raft.Types.{
  Role, follower, candidate, leader, Epoch, HardState, MessageType, request_vote, append_entries,
  Message, fresh_message, Config, Random, next_below,
}

pub record Node : Type 0 where
  pub config : Config
  pub rng : Random
  pub hard : HardState
  pub hard_state_dirty : Bool
  pub role : Role
  pub leader_id : ℕ
  pub votes : List ℕ
  pub log_end : ℕ
  pub last_term : ℕ
  pub commit_index : ℕ
  pub epochs : List Epoch
  pub match_ends : List (ℕ × ℕ)
  pub next_indexes : List (ℕ × ℕ)
  pub pending_truncate : ℕ
  pub pending_append : Bool
  pub election_elapsed : ℕ
  pub heartbeat_elapsed : ℕ
  pub election_timeout : ℕ
  pub campaigns : ℕ
  pub lease_refusals : ℕ
  pub out : List Message

abbrev pub is_leader : Role → Bool
is_leader leader = true
is_leader _ = false

abbrev pub is_follower : Role → Bool
is_follower follower = true
is_follower _ = false

abbrev pub is_candidate : Role → Bool
is_candidate candidate = true
is_candidate _ = false

abbrev pub is_request_vote : MessageType → Bool
is_request_vote request_vote = true
is_request_vote _ = false

abbrev pub is_append_entries : MessageType → Bool
is_append_entries append_entries = true
is_append_entries _ = false

unfoldable pub draw_jitter : Config → Random → ℕ × Random
unfolding next_below
draw_jitter c rng = if c.election_timeout_jitter_ticks == 0 then (0, rng) else (
  to_u32 (next_below rng c.election_timeout_jitter_ticks).0,
  (next_below rng c.election_timeout_jitter_ticks).1,
)

unfoldable pub at_least_one : ℕ → ℕ
at_least_one n = if n == 0 then 1 else n

unfoldable pub reset_election_timer : Node → Node
unfolding draw_jitter at_least_one
reset_election_timer n = record n {
  election_elapsed = 0;
  rng = (draw_jitter n.config n.rng).1;
  election_timeout =
      at_least_one (add_u32 n.config.election_timeout_ticks (draw_jitter n.config n.rng).0);
}

unfoldable pub send : Message → Node → Node
send m n = record n { out = n.out ++ (record m { from = n.config.id; term = n.hard.term } ∷ []) }

unfoldable pub reply : Message → MessageType → Bool → Node → Node
unfolding send
reply request t granted n =
    send
      (record fresh_message {
        type = t;
        to = request.from;
        granted = granted;
        log_index = n.log_end;
        log_term = n.last_term;
      })
      n
