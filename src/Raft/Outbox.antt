-- ===== src/Raft/Outbox.antt =====
-- What the loops of src/raft/node.cpp that send leave in the outbox, as equations.
-- Nothing but the outbox changes.
use log_engine.Prelude.{
  ℕ, ◌≡◌, refl, sym, ap, ◌∙◌, inl, inr, List, [], ◌∷◌, ◌++◌, map, ◌==◌, if◌then◌else◌, Bool-cases,
}
use mathlib.Core.List.{append-nil, append_assoc}
use log_engine.Raft.Epochs.{term_at}
use log_engine.Raft.Replication.{
  next_index, append_entries_for, send_append_entries, send_to_all, send_to_caught_up,
}
use log_engine.Raft.Roles.{request_votes}
use log_engine.Raft.State.{Node}
use log_engine.Raft.Types.{request_vote, Message, fresh_message}

-- What `send` makes of a message: the sender and its term are the node's.
abbrev pub stamped : Node → Message → Message
stamped n m = record m { from = n.config.id; term = n.hard.term }

abbrev pub with_out : Node → List Message → Node
with_out n ms = record n { out = n.out ++ ms }

with_out_nothing : (n : Node) → n ≡ with_out n []
with_out_nothing n = ap (λ o. record n { out = o }) (sym (append-nil n.out))

with_out_more :
    (n : Node) (m : Message) (ms : List Message)
    → with_out (with_out n (m ∷ [])) ms ≡ with_out n (m ∷ ms)
with_out_more n m ms = ap (λ o. record n { out = o }) (append_assoc n.out (m ∷ []) ms)

pub send_to_all_lem :
    (ps : List ℕ) (n : Node)
    → send_to_all ps n ≡ with_out n (map (λ p. stamped n (append_entries_for p n)) ps)
unfolding send_to_all send_append_entries next_index term_at
send_to_all_lem [] n = with_out_nothing n
send_to_all_lem (p ∷ ps) n = send_to_all_lem ps (send_append_entries p n) ∙ with_out_more n _ _

abbrev pub vote_request_for : Node → ℕ → Message
vote_request_for n p = stamped n (record fresh_message {
  type = request_vote;
  to = p;
  log_index = n.log_end;
  log_term = n.last_term;
})

pub request_votes_lem :
    (ps : List ℕ) (n : Node) → request_votes ps n ≡ with_out n (map (vote_request_for n) ps)
unfolding request_votes
request_votes_lem [] n = with_out_nothing n
request_votes_lem (p ∷ ps) n = request_votes_lem ps _ ∙ with_out_more n _ _

unfoldable pub caught_up : ℕ → List ℕ → Node → List Message
caught_up index [] n = []
caught_up index (p ∷ ps) n =
    if next_index n p == index
    then stamped n (append_entries_for p n) ∷ caught_up index ps n
    else caught_up index ps n

caught_up-with_out :
    (index : ℕ) (ps : List ℕ) (n : Node) (ms : List Message)
    → caught_up index ps (with_out n ms) ≡ caught_up index ps n
unfolding caught_up append_entries_for next_index term_at
caught_up-with_out index [] n ms = refl
caught_up-with_out index (p ∷ ps) n ms = rw (caught_up-with_out index ps n ms)

pub send_to_caught_up_lem :
    (index : ℕ) (ps : List ℕ) (n : Node)
    → send_to_caught_up index ps n ≡ with_out n (caught_up index ps n)
unfolding send_to_caught_up caught_up send_append_entries next_index term_at
send_to_caught_up_lem index [] n = with_out_nothing n
send_to_caught_up_lem index (p ∷ ps) n = elim (Bool-cases (next_index n p == index)) [
  | inl e ↦ rw e (
      send_to_caught_up_lem index ps (send_append_entries p n)
      ∙ ap (with_out (send_append_entries p n)) (caught_up-with_out index ps n _)
      ∙ with_out_more n _ _)
  | inr e ↦ rw e (send_to_caught_up_lem index ps n)
]
