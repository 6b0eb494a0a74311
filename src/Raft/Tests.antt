-- ===== src/Raft/Tests.antt =====
-- Runs of the node and of a cluster of three, and the theorems at them.
use log_engine.Prelude.{
  ℕ, ◌≤◌, ◌≡◌, refl, sym, ap, ◌∙◌, ◌↔◌, inl, inr, true, some, List, [], ◌∷◌, ◌++◌, arith, ◌==◌,
  if◌then◌else◌, In, insert,
}
use log_engine.Raft.Ballots.{Ballots}
use log_engine.Raft.Cluster.{
  drive, Cluster, with_member, with_node, ticks, receives, drives, Reach, here, next, first_state,
}
use log_engine.Raft.Cluster.Leaders.{Leads, now, AreConfigs, first-IsSafe, election_safety}
use log_engine.Raft.Cluster.Safety.{IsSafe, Step-IsSafe}
use log_engine.Raft.Cluster.Votes.{named, cast_by, ballot, VotedIn}
use log_engine.Raft.Commit.{holders, quorum_end_lem, Commits, advance_commit_index-Commits}
use log_engine.Raft.Elections.{Vouched, step-Ballots}
use log_engine.Raft.Epochs.{log_is_up_to_date}
use log_engine.Raft.Handlers.{
  record_vote, handle_request_vote, handle_request_vote_response, dispatch, refuses_vote,
  adopt_term, step, take_ready, hard_state_persisted, new_node,
}
use log_engine.Raft.Moves.{Move}
use log_engine.Raft.Progress.{HasNextTerm, tick-Move, step-Move}
use log_engine.Raft.Replication.{
  quorum_end, advance_commit_index, send_append_entries, send_to_all, broadcast_heartbeat,
}
use log_engine.Raft.Roles.{
  become_follower, become_candidate, become_leader, request_votes, campaign, tick,
}
use log_engine.Raft.State.{reply}
use log_engine.Raft.Types.{
  no_index, request_vote, request_vote_response, Message, fresh_message, Config, quorum, Random,
}

abbrev ids : List ℕ
ids = 1 ∷ 2 ∷ 3 ∷ []

abbrev others : ℕ → List ℕ
others i = if i == 1 then 2 ∷ 3 ∷ [] else if i == 2 then 1 ∷ 3 ∷ [] else 1 ∷ 2 ∷ []

-- Node 1 is the first to time out.
abbrev config_of : ℕ → Config
config_of i = record {
  id = i;
  peers = others i;
  election_timeout_ticks = i;
  election_timeout_jitter_ticks = 0;
  heartbeat_timeout_ticks = 1;
}

abbrev no_draws : ℕ → Random
no_draws i = record { draw = λ k b. 0; position = 0 }

configs-AreConfigs : AreConfigs ids config_of
configs-AreConfigs = record {
  id = λ i h. refl;
  valid = λ i h. ground arith;
  others = λ i h. ground arith;
}

abbrev start : Cluster
start = first_state config_of no_draws

abbrev timed_out : Cluster
timed_out = with_node start 1 (tick (start.members 1).node)

abbrev asked : Cluster
asked = record (with_member timed_out 1 (drive (timed_out.members 1)).0) {
  sent = timed_out.sent ++ (drive (timed_out.members 1)).1;
}

abbrev request : Message
request = record fresh_message { type = request_vote; from = 1; to = 2; term = 1 }

abbrev voted : Cluster
voted = with_node asked 2 (step request (asked.members 2).node)

abbrev answered : Cluster
answered = record (with_member voted 2 (drive (voted.members 2)).0) {
  sent = voted.sent ++ (drive (voted.members 2)).1;
}

abbrev grant : Message
grant = record fresh_message {
  type = request_vote_response;
  from = 2;
  to = 1;
  term = 1;
  granted = true;
}

abbrev won : Cluster
won = with_node answered 1 (step grant (answered.members 1).node)

request_sent : In request asked.sent
unfolding first_state new_node tick campaign become_candidate request_votes drive take_ready insert
request_sent = inl refl

grant_sent : In grant answered.sent
unfolding first_state new_node tick campaign become_candidate request_votes drive take_ready insert
    step refuses_vote adopt_term become_follower dispatch handle_request_vote record_vote reply
    log_is_up_to_date hard_state_persisted
grant_sent = inr (inr (inl refl))

won-Reach : Reach ids start won
unfolding first_state new_node
won-Reach =
    next
      (next
        (next (next (next here (ticks 1 (inl refl) (omega arith) refl)) (drives 1 (inl refl) refl))
          (receives 2 no_index 0 0 request (inr (inl refl)) request_sent refl refl))
        (drives 2 (inr (inl refl)) refl))
      (receives 1 no_index 0 0 grant (inl refl) grant_sent refl refl)

won-Leads : Leads ids won 1 1
unfolding first_state new_node tick campaign become_candidate request_votes drive take_ready insert
    step refuses_vote adopt_term become_follower dispatch handle_request_vote record_vote reply
    log_is_up_to_date hard_state_persisted handle_request_vote_response become_leader
    broadcast_heartbeat send_to_all send_append_entries
won-Leads = now (inl refl) refl refl

election_safety_example : ◌≡◌ {A = ℕ} 1 1
election_safety_example =
    election_safety ids config_of no_draws won 1 1 1 configs-AreConfigs won-Reach won-Leads
      won-Leads

timer : HasNextTerm (start.members 1).node
unfolding first_state new_node
timer = omega arith

Step-IsSafe_example : IsSafe ids timed_out
Step-IsSafe_example =
    Step-IsSafe ids start timed_out (first-IsSafe ids config_of no_draws configs-AreConfigs)
      (ticks 1 (inl refl) timer refl)

step-Move_example : Move (asked.members 2).node (step request (asked.members 2).node)
step-Move_example = step-Move request (asked.members 2).node

tick-Move_example : Move (start.members 1).node (tick (start.members 1).node)
tick-Move_example = tick-Move (start.members 1).node timer

candidate_id : (answered.members 1).node.config.id ≡ 1
unfolding first_state new_node tick campaign become_candidate request_votes drive take_ready insert
    hard_state_persisted
candidate_id = refl

grant-ballot : ballot grant ≡ some 1
unfolding ballot cast_by named
grant-ballot = refl

polled : Ballots (VotedIn answered.sent) (answered.members 1).node
unfolding first_state new_node tick campaign become_candidate request_votes drive take_ready insert
    hard_state_persisted
polled = record {
  named = omega arith;
  own = inr refl;
  backers = inr (inl refl, tt);
  sorted = (omega arith, tt);
  majority = inl (λ e. cc);
}

vouched : Vouched (VotedIn answered.sent) grant (answered.members 1).node.config.id
vouched t g = (grant, grant_sent, refl, refl, grant-ballot ∙ ap some (sym candidate_id))

step-Ballots_example : Ballots (VotedIn answered.sent) (step grant (answered.members 1).node)
step-Ballots_example =
    step-Ballots (VotedIn answered.sent) grant (answered.members 1).node vouched polled

advance_commit_index_example :
    Commits (won.members 1).node (advance_commit_index (won.members 1).node)
advance_commit_index_example = advance_commit_index-Commits (won.members 1).node

quorum_end_example :
    (0 ≤ quorum_end (won.members 1).node)
    ↔ (quorum (won.members 1).node.config ≤ holders (won.members 1).node 0)
quorum_end_example = quorum_end_lem (won.members 1).node 0
