-- ===== src/Raft/Roles.antt =====
-- src/raft/node.cpp: the changes of role, the election and the tick.
use log_engine.Prelude.{
  ℕ, true, List, [], ◌∷◌, ltb, leb, if◌then◌else◌, length, add_u32, add_u64, assign, insert,
}
use log_engine.Raft.Types.{
  follower, candidate, leader, request_vote, fresh_message, quorum, no_node,
}
use log_engine.Raft.State.{Node, is_leader, reset_election_timer, send}
use log_engine.Raft.Replication.{broadcast_heartbeat}

unfoldable pub become_follower : ℕ → ℕ → Node → Node
unfolding reset_election_timer
become_follower term leader_id n =
    let m : Node =
      if ltb n.hard.term term
      then record n { hard = record { term = term; voted_for = no_node }; hard_state_dirty = true }
      else n in
    reset_election_timer (record m { role = follower; leader_id = leader_id; votes = [] })

unfoldable pub become_candidate : Node → Node
unfolding reset_election_timer
become_candidate n = reset_election_timer (record n {
  hard = record { term = add_u64 n.hard.term 1; voted_for = n.config.id };
  hard_state_dirty = true;
  role = candidate;
  leader_id = no_node;
  votes = insert n.config.id [];
  campaigns = add_u64 n.campaigns 1;
})

-- `for (peer) { match_[peer] = 0; next_[peer] = log_end_; }`
unfoldable pub assign_all : List ℕ → ℕ → List (ℕ × ℕ) → List (ℕ × ℕ)
assign_all [] v m = m
assign_all (p ∷ ps) v m = assign_all ps v (assign p v m)

unfoldable pub become_leader : Node → Node
become_leader n = broadcast_heartbeat (record n {
  role = leader;
  leader_id = n.config.id;
  heartbeat_elapsed = 0;
  match_ends = assign_all n.config.peers 0 [];
  next_indexes = assign_all n.config.peers n.log_end [];
})

unfoldable pub request_votes : List ℕ → Node → Node
unfolding send
request_votes [] n = n
request_votes (p ∷ ps) n = request_votes ps (
    send
      (record fresh_message {
        type = request_vote;
        to = p;
        log_index = n.log_end;
        log_term = n.last_term;
      })
      n)

unfoldable pub campaign : Node → Node
campaign n =
    let c = become_candidate n in
    if leb (quorum c.config) (length c.votes)
    then become_leader c
    else request_votes c.config.peers c

unfoldable pub tick : Node → Node
tick n =
    if is_leader n.role
    then (let m : Node = record n { heartbeat_elapsed = add_u32 n.heartbeat_elapsed 1 } in
        if leb m.config.heartbeat_timeout_ticks m.heartbeat_elapsed
        then broadcast_heartbeat (record m { heartbeat_elapsed = 0 })
        else m)
    else (let m : Node = record n { election_elapsed = add_u32 n.election_elapsed 1 } in
        if leb m.election_timeout m.election_elapsed then campaign m else m)
