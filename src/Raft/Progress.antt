-- ===== src/Raft/Progress.antt =====
-- src/raft/node.cpp: `tick`, `campaign`, `step` and `log_appended` are moves in the sense of Moves.
use log_engine.Prelude.{
  ℕ, ◌+◌, ◌^◌, ◌<◌, ◌≡◌, refl, inl, inr, Bool, true, false, not, ◌&&◌, List, [], ◌∷◌, map, arith,
  ltb, leb, Bool-cases, if_intro, length, All, add_u32, insert,
}
use log_engine.Raft.Epochs.{log_is_up_to_date}
use log_engine.Raft.Handlers.{
  already_committed_elsewhere, record_vote, handle_request_vote, handle_request_vote_response,
  log_matches, handle_append_entries, answer_stale, dispatch, refuses_vote, adopt_term, step,
}
use log_engine.Raft.Moves.{Move, Move-then-Quiet, Hushed, mute, Move-refl, mute-then-Move}
use log_engine.Raft.Outbox.{vote_request_for, request_votes_lem}
use log_engine.Raft.Quiet.{Said, Quiet, Quiet-refl}
use log_engine.Raft.Replication.{broadcast_heartbeat}
use log_engine.Raft.Roles.{
  become_follower, become_candidate, assign_all, become_leader, request_votes, campaign, tick,
}
use log_engine.Raft.Speech.{
  with_out-Quiet, send_to_all-Quiet, accept_append-Quiet, refuse_append-Quiet,
  handle_append_entries_response-Quiet,
}
use log_engine.Raft.State.{Node, is_leader, is_candidate, reply}
use log_engine.Raft.Types.{
  candidate, leader, MessageType, request_vote, request_vote_response, append_entries,
  append_entries_response, Message, quorum,
}

-- The term can still be counted up.
abbrev pub HasNextTerm : Node → Type 0
HasNextTerm n = n.hard.term + 1 < 2 ^ 64

pub Quiet-Move : (n n' : Node) → Quiet n n' → Move n n'
Quiet-Move n n' q = Move-then-Quiet n n n' (Move-refl n) q

pub become_follower-Hushed : (term from : ℕ) (n : Node) → Hushed n (become_follower term from n)
unfolding become_follower
become_follower-Hushed term from n = ground arith

pub become_candidate-Hushed : (n : Node) → HasNextTerm n → Hushed n (become_candidate n)
unfolding become_candidate
become_candidate-Hushed n h = ground arith

become_leader-Move : (n : Node) → Move n (become_leader n)
unfolding become_leader broadcast_heartbeat
become_leader-Move n =
    mute-then-Move n l _ (ground arith) (Quiet-Move l _ (send_to_all-Quiet n.config.peers l refl))
  where
    l : Node
    l = record n {
      role = leader;
      leader_id = n.config.id;
      heartbeat_elapsed = 0;
      match_ends = assign_all n.config.peers 0 [];
      next_indexes = assign_all n.config.peers n.log_end [];
    }

vote_requests-Said :
    (n : Node) (ps : List ℕ)
    → n.role ≡ candidate
    → All (Said n.config.id n.hard n.role) (map (vote_request_for n) ps)
vote_requests-Said n [] r = tt
vote_requests-Said n (p ∷ ps) r = ((refl, refl, r), vote_requests-Said n ps r)

pub request_votes-Quiet :
    (ps : List ℕ) (n : Node) → n.role ≡ candidate → Quiet n (request_votes ps n)
request_votes-Quiet ps n r =
    rw (request_votes_lem ps n) (with_out-Quiet n _ (vote_requests-Said n ps r))

pub become_candidate-role : (n : Node) → (become_candidate n).role ≡ candidate
unfolding become_candidate
become_candidate-role n = refl

pub campaign-Move : (n : Node) → HasNextTerm n → Move n (campaign n)
unfolding campaign
campaign-Move n h =
    if_intro (Move n) (leb (quorum c.config) (length c.votes)) _ _
      (λ _. mute-then-Move n c _ raised (become_leader-Move c))
      (λ _.
        mute-then-Move n c _ raised
          (Quiet-Move c _ (request_votes-Quiet c.config.peers c (become_candidate-role n))))
  where
    c : Node
    c = become_candidate n

    raised : Hushed n c
    raised = become_candidate-Hushed n h

-- A tick keeps the term, or campaigns in the next one.
pub tick-Move : (n : Node) → HasNextTerm n → Move n (tick n)
unfolding tick broadcast_heartbeat
tick-Move n h =
    if_intro (Move n) (is_leader n.role) _ _
      (λ e.
        if_intro (Move n) (leb n.config.heartbeat_timeout_ticks (add_u32 n.heartbeat_elapsed 1)) _ _
          (λ _.
            mute-then-Move n beat _ (ground arith)
              (Quiet-Move beat _ (send_to_all-Quiet n.config.peers beat (ground arith))))
          (λ _. mute n _ (ground arith)))
      (λ _.
        if_intro (Move n) (leb n.election_timeout (add_u32 n.election_elapsed 1)) _ _
          (λ _. mute-then-Move n later _ (ground arith) (campaign-Move later h))
          (λ _. mute n _ (ground arith)))
  where
    beat : Node
    beat = record n { heartbeat_elapsed = 0 }

    later : Node
    later = record n { election_elapsed = add_u32 n.election_elapsed 1 }

record_vote-Hushed :
    (from : ℕ) (n : Node)
    → already_committed_elsewhere n from ≡ false
    → Hushed n (record_vote from n)
unfolding record_vote
record_vote-Hushed from n h = ground arith

pub record_vote-voted_for : (from : ℕ) (n : Node) → (record_vote from n).hard.voted_for ≡ from
unfolding record_vote
record_vote-voted_for from n = ground arith

pub reply_vote-Quiet :
    (m : Message) (g : Bool) (n : Node)
    → (g ≡ true → n.hard.voted_for ≡ m.from)
    → Quiet n (reply m request_vote_response g n)
unfolding reply
reply_vote-Quiet m true n h = with_out-Quiet n (_ ∷ []) ((refl, refl, h refl), tt)
reply_vote-Quiet m false n h = with_out-Quiet n (_ ∷ []) ((refl, refl, tt), tt)

pub handle_request_vote-Move : (m : Message) (n : Node) → Move n (handle_request_vote m n)
unfolding handle_request_vote
handle_request_vote-Move m n =
    elim (Bool-cases (not (already_committed_elsewhere n m.from) && up_to_date)) [
      | inl e ↦ rw e (
          mute-then-Move n v _ (record_vote-Hushed m.from n (ground arith))
            (Quiet-Move v _ (reply_vote-Quiet m true v (λ _. record_vote-voted_for m.from n))))
      | inr e ↦ rw e (Quiet-Move n _ (reply_vote-Quiet m false n (λ c. cc)))
    ]
  where
    up_to_date : Bool
    up_to_date = log_is_up_to_date n m.log_index m.log_term

    v : Node
    v = record_vote m.from n

handle_request_vote_response-Move :
    (m : Message) (n : Node) → Move n (handle_request_vote_response m n)
unfolding handle_request_vote_response
handle_request_vote_response-Move m n =
    if_intro (Move n) (not (is_candidate n.role)) _ _ (λ _. Move-refl n)
      λ _.
        if_intro (Move n) (not m.granted) _ _ (λ _. Move-refl n)
          λ _.
            if_intro (Move n) (leb (quorum v.config) (length v.votes)) _ v
              (λ _. mute-then-Move n v _ (ground arith) (become_leader-Move v))
              (λ _. mute n v (ground arith))
  where
    v : Node
    v = record n { votes = insert m.from n.votes }

handle_append_entries-Move : (m : Message) (n : Node) → Move n (handle_append_entries m n)
unfolding handle_append_entries
handle_append_entries-Move m n =
    if_intro (Move n) (is_leader n.role) n _ (λ _. Move-refl n)
      λ _. mute-then-Move n f _ (become_follower-Hushed m.term m.from n) (
        if_intro (Move f) (log_matches m f) _ _ (λ _. Quiet-Move f _ (accept_append-Quiet m f))
          (λ _. Quiet-Move f _ (refuse_append-Quiet m f)))
  where
    f : Node
    f = become_follower m.term m.from n

dispatch-Move : (t : MessageType) (m : Message) (n : Node) → Move n (dispatch t m n)
unfolding dispatch
dispatch-Move request_vote m n = handle_request_vote-Move m n
dispatch-Move request_vote_response m n = handle_request_vote_response-Move m n
dispatch-Move append_entries m n = handle_append_entries-Move m n
dispatch-Move append_entries_response m n =
    Quiet-Move n _ (handle_append_entries_response-Quiet m n)

pub answer_stale-Quiet : (t : MessageType) (m : Message) (n : Node) → Quiet n (answer_stale t m n)
unfolding answer_stale reply
answer_stale-Quiet request_vote m n = with_out-Quiet n (_ ∷ []) ((refl, refl, tt), tt)
answer_stale-Quiet append_entries m n = with_out-Quiet n (_ ∷ []) ((refl, refl, tt), tt)
answer_stale-Quiet request_vote_response m n = Quiet-refl n
answer_stale-Quiet append_entries_response m n = Quiet-refl n

adopt_term-Hushed : (m : Message) (n : Node) → Hushed n (adopt_term m n)
unfolding adopt_term
adopt_term-Hushed m n =
    if_intro (Hushed n) (ltb n.hard.term m.term) _ n (λ _. become_follower-Hushed m.term _ n)
      (λ _. ground arith)

-- Whatever message arrives: the configuration stays, the term does not fall, a vote that was cast
-- stays for its term, a change of either is owed to the disk, and what is said fits the state that
-- it is said in.
pub step-Move : (m : Message) (n : Node) → Move n (step m n)
unfolding step
step-Move m n =
    if_intro (Move n) (refuses_vote m n) _ _ (λ _. mute n _ (ground arith))
      λ _. mute-then-Move n a _ (adopt_term-Hushed m n) (
        if_intro (Move a) (ltb m.term a.hard.term) _ _
          (λ _. Quiet-Move a _ (answer_stale-Quiet m.type m a)) (λ _. dispatch-Move m.type m a))
  where
    a : Node
    a = adopt_term m n
