-- ===== src/Raft/Handlers.antt =====
-- src/raft/node.cpp: the handlers of the messages, `step`, and what the driver takes out.
use log_engine.Prelude.{
  ℕ, min, Bool, true, false, not, ◌&&◌, ◌||◌, [], ltb, leb, ◌==◌, if◌then◌else◌, length, add_u64,
  assign, insert,
}
use log_engine.Raft.Types.{
  follower, HardState, MessageType, request_vote, request_vote_response, append_entries,
  append_entries_response, Message, fresh_message, carries_entry, Config, quorum, Ready, Random,
  no_node, no_index, no_term,
}
use log_engine.Raft.State.{
  Node, is_leader, is_follower, is_candidate, is_request_vote, is_append_entries,
  reset_election_timer, send, reply,
}
use log_engine.Raft.Epochs.{
  log_is_up_to_date, term_at, epoch_start_at, truncate_epochs_from, tail_term,
}
use log_engine.Raft.Replication.{
  match_end, next_index, advance_commit_index, send_append_entries, log_appended,
}
use log_engine.Raft.Roles.{become_follower, become_leader}

abbrev pub already_committed_elsewhere : Node → ℕ → Bool
already_committed_elsewhere n from =
    not (n.hard.voted_for == no_node) && not (n.hard.voted_for == from)

unfoldable pub record_vote : ℕ → Node → Node
record_vote from n =
    let m : Node =
      if n.hard.voted_for == from
      then n
      else record n { hard = record n.hard { voted_for = from }; hard_state_dirty = true } in
    record m { election_elapsed = 0 }

unfoldable pub handle_request_vote : Message → Node → Node
unfolding record_vote
handle_request_vote m n =
    let granted =
      not (already_committed_elsewhere n m.from) && log_is_up_to_date n m.log_index m.log_term in
    reply m request_vote_response granted (if granted then record_vote m.from n else n)

unfoldable pub handle_request_vote_response : Message → Node → Node
handle_request_vote_response m n =
    if not (is_candidate n.role)
    then n
    else if not m.granted
    then n
    else (let v : Node = record n { votes = insert m.from n.votes } in
        if leb (quorum v.config) (length v.votes) then become_leader v else v)

-- `message.log_index == kNoIndex` stands for "the entry is the first of the log".
unfoldable pub log_matches : Message → Node → Bool
log_matches m n =
    m.log_index == no_index || (ltb m.log_index n.log_end && term_at n m.log_index == m.log_term)

unfoldable pub append_position : Message → ℕ
append_position m = if m.log_index == no_index then 0 else add_u64 m.log_index 1

unfoldable pub entry_extent : Message → ℕ
entry_extent m = if ltb m.entry_index m.entry_end then m.entry_end else add_u64 m.entry_index 1

-- The tail goes when the entry at its start has another term than the one that arrives.
unfoldable pub cut_conflict : ℕ → ℕ → Node → Node
unfolding truncate_epochs_from tail_term
cut_conflict at term n =
    let existing = term_at n at in
    if not (existing == no_term) && not (existing == term)
    then (let m : Node = record (truncate_epochs_from at n) {
      pending_truncate = at;
      log_end = at;
    } in
        record m { last_term = tail_term m })
    else n

unfoldable pub take_entry : Message → Node → Node
take_entry m n =
    let at = append_position m in
    let c = cut_conflict at m.entry_term n in
    if leb c.log_end at
    then log_appended at (entry_extent m) m.entry_term (record c { pending_append = true })
    else c

unfoldable pub adopt_commit : ℕ → Node → Node
adopt_commit commit n =
    if ltb n.commit_index commit then record n { commit_index = min commit n.log_end } else n

unfoldable pub refuse_append : Message → Node → Node
unfolding send
refuse_append m n =
    send
      (record fresh_message {
        type = append_entries_response;
        to = m.from;
        granted = false;
        log_term = n.last_term;
        log_index = if leb n.log_end m.log_index then n.log_end else epoch_start_at n m.log_index;
      })
      n

unfoldable pub confirm_append : Message → Node → Node
unfolding send
confirm_append m n =
    send
      (record fresh_message {
        type = append_entries_response;
        to = m.from;
        granted = true;
        log_index = if carries_entry m then entry_extent m else append_position m;
        log_term = n.last_term;
      })
      n

unfoldable pub accept_append : Message → Node → Node
accept_append m n =
    confirm_append m (adopt_commit m.commit_index (if carries_entry m then take_entry m n else n))

unfoldable pub handle_append_entries : Message → Node → Node
handle_append_entries m n =
    if is_leader n.role
    then n
    else (let f = become_follower m.term m.from n in
        if log_matches m f then accept_append m f else refuse_append m f)

-- The index to try next: the follower's hint, inside what is confirmed and what exists.
unfoldable pub retry_index : Message → Node → ℕ
retry_index m n =
    let hint = if ltb n.log_end m.log_index then n.log_end else m.log_index in
    if ltb hint (match_end n m.from) then match_end n m.from else hint

abbrev pub raise_match : ℕ → ℕ → Node → Node
raise_match peer confirmed n =
    if ltb (match_end n peer) confirmed
    then record n { match_ends = assign peer confirmed n.match_ends }
    else n

abbrev pub raise_next : ℕ → ℕ → Node → Node
raise_next peer confirmed n =
    if ltb (next_index n peer) confirmed
    then record n { next_indexes = assign peer confirmed n.next_indexes }
    else n

unfoldable pub note_confirmed : ℕ → ℕ → Node → Node
note_confirmed peer confirmed n = raise_next peer confirmed (raise_match peer confirmed n)

unfoldable pub handle_append_entries_response : Message → Node → Node
handle_append_entries_response m n =
    if not (is_leader n.role)
    then n
    else if not m.granted
    then send_append_entries m.from
        (record n { next_indexes = assign m.from (retry_index m n) n.next_indexes })
    else (let c = advance_commit_index (note_confirmed m.from (min m.log_index n.log_end) n) in
        if ltb (next_index c m.from) c.log_end then send_append_entries m.from c else c)

unfoldable pub answer_stale : MessageType → Message → Node → Node
answer_stale request_vote m n = reply m request_vote_response false n
answer_stale append_entries m n = reply m append_entries_response false n
answer_stale request_vote_response m n = n
answer_stale append_entries_response m n = n

unfoldable pub dispatch : MessageType → Message → Node → Node
dispatch request_vote m n = handle_request_vote m n
dispatch request_vote_response m n = handle_request_vote_response m n
dispatch append_entries m n = handle_append_entries m n
dispatch append_entries_response m n = handle_append_entries_response m n

-- The disruptive-server rule: a follower with a live leader does not look at a vote request.
unfoldable pub refuses_vote : Message → Node → Bool
refuses_vote m n =
    is_request_vote m.type
    && is_follower n.role
    && not (n.leader_id == no_node)
    && ltb n.election_elapsed n.config.election_timeout_ticks

unfoldable pub adopt_term : Message → Node → Node
adopt_term m n =
    if ltb n.hard.term m.term
    then become_follower m.term (if is_append_entries m.type then m.from else no_node) n
    else n

unfoldable pub step : Message → Node → Node
step m n =
    if refuses_vote m n
    then record n { lease_refusals = add_u64 n.lease_refusals 1 }
    else (let a = adopt_term m n in
        if ltb m.term a.hard.term then answer_stale m.type m a else dispatch m.type m a)

unfoldable pub take_ready : Node → Ready × Node
take_ready n = (
  record {
    persist_hard_state = n.hard_state_dirty;
    hard_state = n.hard;
    messages = n.out;
    truncate_from = n.pending_truncate;
    append_entry = n.pending_append;
    commit_index = n.commit_index;
  },
  record n { out = []; pending_truncate = no_index; pending_append = false },
)

unfoldable pub hard_state_persisted : Node → Node
hard_state_persisted n = record n { hard_state_dirty = false }

-- The constructor: `persisted` was recovered from `raft.state`.
unfoldable pub new_node : Config → Random → HardState → Node
unfolding reset_election_timer
new_node config rng persisted = reset_election_timer (record {
  config = config;
  rng = rng;
  hard = persisted;
  hard_state_dirty = false;
  role = follower;
  leader_id = no_node;
  votes = [];
  log_end = 0;
  last_term = no_term;
  commit_index = 0;
  epochs = [];
  match_ends = [];
  next_indexes = [];
  pending_truncate = no_index;
  pending_append = false;
  election_elapsed = 0;
  heartbeat_elapsed = 0;
  election_timeout = 0;
  campaigns = 0;
  lease_refusals = 0;
  out = [];
})
