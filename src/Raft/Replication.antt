-- ===== src/Raft/Replication.antt =====
-- src/raft/node.cpp: the leader's view of its followers, the commit index and what is sent.
use log_engine.Prelude.{
  ℕ, ◌-◌, not, List, [], ◌∷◌, map, Option, none, some, ltb, leb, ◌==◌, if◌then◌else◌, get_or,
  add_u64, lookup,
}
use log_engine.Raft.Types.{append_entries, Message, fresh_message, quorum, no_index, no_term}
use log_engine.Raft.State.{Node, is_leader, send}
use log_engine.Raft.Epochs.{term_at, append_epoch}

abbrev pub end_or_zero : Option ℕ → ℕ
end_or_zero none = 0
end_or_zero (some i) = i

unfoldable pub match_end : Node → ℕ → ℕ
match_end n peer = end_or_zero (lookup peer n.match_ends)

unfoldable pub next_index : Node → ℕ → ℕ
next_index n peer = end_or_zero (lookup peer n.next_indexes)

-- `std::sort` with `std::greater`
unfoldable pub insert_desc : ℕ → List ℕ → List ℕ
insert_desc x [] = x ∷ []
insert_desc x (y ∷ ys) = if ltb x y then y ∷ insert_desc x ys else x ∷ y ∷ ys

unfoldable pub sort_desc : List ℕ → List ℕ
unfolding insert_desc
sort_desc [] = []
sort_desc (x ∷ xs) = insert_desc x (sort_desc xs)

unfoldable pub ends : Node → List ℕ
ends n = n.log_end ∷ map (match_end n) n.config.peers

unfoldable pub quorum_end : Node → ℕ
unfolding sort_desc ends
quorum_end n = get_or (sort_desc (ends n)) (quorum n.config - 1) 0

unfoldable pub advance_commit_index : Node → Node
advance_commit_index n =
    if not (is_leader n.role)
    then n
    else if leb (quorum_end n) n.commit_index
    then n
    else if not (term_at n (quorum_end n - 1) == n.hard.term)
    then n
    else record n { commit_index = quorum_end n }

-- The hint of the entry before the one that is sent.
abbrev pub with_predecessor : ℕ → Node → Message → Message
with_predecessor from n m =
    if from == 0
    then record m { log_index = no_index; log_term = no_term }
    else record m { log_index = from - 1; log_term = term_at n (from - 1) }

abbrev pub with_entry : ℕ → Node → Message → Message
with_entry from n m =
    if ltb from n.log_end then record m { entry_index = from; entry_term = term_at n from } else m

-- The message that `send_append_entries` builds.
unfoldable pub append_entries_for : ℕ → Node → Message
append_entries_for peer n =
    let from = next_index n peer in
    with_entry from n (
      with_predecessor from n
        (record fresh_message { type = append_entries; to = peer; commit_index = n.commit_index }))

unfoldable pub send_append_entries : ℕ → Node → Node
unfolding send append_entries_for
send_append_entries peer n = send (append_entries_for peer n) n

-- `for (NodeId peer : config_.peers) send_append_entries(peer);`
unfoldable pub send_to_all : List ℕ → Node → Node
send_to_all [] n = n
send_to_all (p ∷ ps) n = send_to_all ps (send_append_entries p n)

unfoldable pub broadcast_heartbeat : Node → Node
unfolding send_to_all
broadcast_heartbeat n = send_to_all n.config.peers n

-- The last loop of `log_appended`: only peers that had everything before `index`.
unfoldable pub send_to_caught_up : ℕ → List ℕ → Node → Node
send_to_caught_up index [] n = n
send_to_caught_up index (p ∷ ps) n =
    send_to_caught_up index ps (if next_index n p == index then send_append_entries p n else n)

unfoldable pub log_appended : ℕ → ℕ → ℕ → Node → Node
unfolding append_epoch
log_appended index end term n =
    let m : Node = record (append_epoch term index n) {
      log_end = if ltb index end then end else add_u64 index 1;
      last_term = term;
    } in
    if not (is_leader m.role)
    then m
    else (let c = advance_commit_index m in send_to_caught_up index c.config.peers c)
