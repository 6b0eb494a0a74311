-- ===== src/Raft/Elections.antt =====
-- src/raft/node.cpp: every operation keeps the ballots in order, so a leader is one by a majority.
use log_engine.Prelude.{
  ℕ, ◌≤◌, ◌≡◌, refl, inl, inr, Bool, true, false, not, ◌&&◌, arith, ltb, leb, leb→le, Bool-cases,
  if_intro, length, add_u32, insert,
}
use log_engine.Raft.Ballots.{
  insert-Rising, insert-All, Ballots, Quiet-Ballots, become_follower-Ballots,
  become_candidate-Ballots, become_leader-Ballots,
}
use log_engine.Raft.Epochs.{log_is_up_to_date}
use log_engine.Raft.Handlers.{
  already_committed_elsewhere, record_vote, handle_request_vote, handle_request_vote_response,
  log_matches, handle_append_entries, dispatch, refuses_vote, adopt_term, step,
}
use log_engine.Raft.Progress.{
  request_votes-Quiet, become_candidate-role, record_vote-voted_for, reply_vote-Quiet,
  answer_stale-Quiet,
}
use log_engine.Raft.Replication.{broadcast_heartbeat}
use log_engine.Raft.Roles.{become_follower, become_candidate, request_votes, campaign, tick}
use log_engine.Raft.Speech.{
  send_to_all-Quiet, Untouched, silent, accept_append-Quiet, refuse_append-Quiet,
  handle_append_entries_response-Quiet,
}
use log_engine.Raft.State.{Node, is_leader, is_candidate}
use log_engine.Raft.Types.{
  candidate, MessageType, request_vote, request_vote_response, append_entries,
  append_entries_response, Message, quorum,
}

-- After `adopt_term` the message is not ahead.
adopt_term-term : (m : Message) (n : Node) → m.term ≤ (adopt_term m n).hard.term
unfolding adopt_term become_follower
adopt_term-term m n = ground arith

adopt_term-config : (m : Message) (n : Node) → (adopt_term m n).config ≡ n.config
unfolding adopt_term become_follower
adopt_term-config m n = ground arith

-- The role, the votes and the term are left alone.
record SameOffice (n n' : Node) : Type 0 where
  config : n'.config ≡ n.config
  term : n'.hard.term ≡ n.hard.term
  role : n'.role ≡ n.role
  votes : n'.votes ≡ n.votes

module _ (Voted : ℕ → ℕ → ℕ → Type 0) where
  -- What a granted vote tells its receiver.
  abbrev pub Vouched : Message → ℕ → Type 0
  Vouched m id = m.type ≡ request_vote_response → m.granted ≡ true → Voted m.from id m.term

  request_votes-Ballots :
      (n : Node)
      → n.role ≡ candidate
      → Ballots Voted n
      → Ballots Voted (request_votes n.config.peers n)
  request_votes-Ballots n r b = Quiet-Ballots Voted n _ (request_votes-Quiet n.config.peers n r) b

  pub campaign-Ballots : (n : Node) → Ballots Voted n → Ballots Voted (campaign n)
  unfolding campaign
  campaign-Ballots n b =
      if_intro (Ballots Voted) (leb (quorum c.config) (length c.votes)) _ _
        (λ e.
          become_leader-Ballots Voted c (become_candidate-role n) (leb→le _ _ e)
            (become_candidate-Ballots Voted n b))
        (λ _.
          request_votes-Ballots c (become_candidate-role n) (become_candidate-Ballots Voted n b))
    where
      c : Node
      c = become_candidate n

  -- Only fields that do not count here.
  same : (n n' : Node) → Untouched n n' → Ballots Voted n → Ballots Voted n'
  same n n' u b = Quiet-Ballots Voted n n' (silent n n' u) b

  pub tick-Ballots : (n : Node) → Ballots Voted n → Ballots Voted (tick n)
  unfolding tick broadcast_heartbeat
  tick-Ballots n b =
      if_intro (Ballots Voted) (is_leader n.role) _ _
        (λ e.
          if_intro (Ballots Voted)
            (leb n.config.heartbeat_timeout_ticks (add_u32 n.heartbeat_elapsed 1)) _ _
            (λ _.
              Quiet-Ballots Voted beat _ (send_to_all-Quiet n.config.peers beat (ground arith))
                (same n beat (ground arith) b))
            (λ _. same n _ (ground arith) b))
        (λ _.
          if_intro (Ballots Voted) (leb n.election_timeout (add_u32 n.election_elapsed 1)) _ _
            (λ _. campaign-Ballots later (same n later (ground arith) b))
            (λ _. same n _ (ground arith) b))
    where
      beat : Node
      beat = record n { heartbeat_elapsed = 0 }

      later : Node
      later = record n { election_elapsed = add_u32 n.election_elapsed 1 }

  record_vote-Ballots :
      (from : ℕ) (n : Node)
      → already_committed_elsewhere n from ≡ false
      → Ballots Voted n
      → Ballots Voted (record_vote from n)
  unfolding record_vote
  record_vote-Ballots from n h b = record {
    named = rw k.config b.named;
    own = ground arith;
    backers = rw (k.config, k.role, k.votes, k.term) b.backers;
    sorted = rw k.votes b.sorted;
    majority = rw (k.config, k.role, k.votes) b.majority;
  }
    where
      k : SameOffice n (record_vote from n)
      k = ground arith

  handle_request_vote-Ballots :
      (m : Message) (n : Node) → Ballots Voted n → Ballots Voted (handle_request_vote m n)
  unfolding handle_request_vote
  handle_request_vote-Ballots m n b =
      elim (Bool-cases (not (already_committed_elsewhere n m.from) && up_to_date)) [
        | inl e ↦ rw e (
            Quiet-Ballots Voted v _
              (reply_vote-Quiet m true v (λ _. record_vote-voted_for m.from n))
              (record_vote-Ballots m.from n (ground arith) b))
        | inr e ↦ rw e (Quiet-Ballots Voted n _ (reply_vote-Quiet m false n (λ c. cc)) b)
      ]
    where
      up_to_date : Bool
      up_to_date = log_is_up_to_date n m.log_index m.log_term

      v : Node
      v = record_vote m.from n

  handle_request_vote_response-Ballots :
      (m : Message) (n : Node)
      → (m.granted ≡ true → Voted m.from n.config.id n.hard.term)
      → Ballots Voted n
      → Ballots Voted (handle_request_vote_response m n)
  unfolding handle_request_vote_response
  handle_request_vote_response-Ballots m n vouch b =
      if_intro (Ballots Voted) (not (is_candidate n.role)) _ _ (λ _. b)
        λ e.
          if_intro (Ballots Voted) (not m.granted) _ _ (λ _. b)
            λ g.
              if_intro (Ballots Voted) (leb (quorum v.config) (length v.votes)) _ v
                (λ q. become_leader-Ballots Voted v (ground arith) (leb→le _ _ q) (counted e g))
                (λ _. counted e g)
    where
      v : Node
      v = record n { votes = insert m.from n.votes }

      counted : not (is_candidate n.role) ≡ false → not m.granted ≡ false → Ballots Voted v
      counted e g = record {
        named = b.named;
        own = b.own;
        backers = elim b.backers [
          | inl f ↦ inl f
          | inr h ↦ inr (insert-All _ m.from n.votes (inr (vouch (ground arith))) h)
        ];
        sorted = insert-Rising 0 m.from n.votes (omega arith) b.sorted;
        majority = inl (ground arith);
      }

  handle_append_entries-Ballots :
      (m : Message) (n : Node) → Ballots Voted n → Ballots Voted (handle_append_entries m n)
  unfolding handle_append_entries
  handle_append_entries-Ballots m n b =
      if_intro (Ballots Voted) (is_leader n.role) n _ (λ _. b)
        λ _.
          if_intro (Ballots Voted) (log_matches m f) _ _
            (λ _. Quiet-Ballots Voted f _ (accept_append-Quiet m f) fb)
            (λ _. Quiet-Ballots Voted f _ (refuse_append-Quiet m f) fb)
    where
      f : Node
      f = become_follower m.term m.from n

      fb : Ballots Voted f
      fb = become_follower-Ballots Voted m.term m.from n b

  dispatch-Ballots :
      (t : MessageType) (m : Message) (n : Node)
      → (t ≡ request_vote_response → m.granted ≡ true → Voted m.from n.config.id n.hard.term)
      → Ballots Voted n
      → Ballots Voted (dispatch t m n)
  unfolding dispatch
  dispatch-Ballots request_vote m n vouch b = handle_request_vote-Ballots m n b
  dispatch-Ballots request_vote_response m n vouch b =
      handle_request_vote_response-Ballots m n (vouch refl) b
  dispatch-Ballots append_entries m n vouch b = handle_append_entries-Ballots m n b
  dispatch-Ballots append_entries_response m n vouch b =
      Quiet-Ballots Voted n _ (handle_append_entries_response-Quiet m n) b

  adopt_term-Ballots : (m : Message) (n : Node) → Ballots Voted n → Ballots Voted (adopt_term m n)
  unfolding adopt_term
  adopt_term-Ballots m n b =
      if_intro (Ballots Voted) (ltb n.hard.term m.term) _ n
        (λ _. become_follower-Ballots Voted m.term _ n b) (λ _. b)

  -- Whatever message arrives, if a granted vote in it is a vote, then the ballots stay in order: a
  -- candidate and a leader have their own vote, every other vote counted was given, and a leader
  -- has a quorum of distinct ones.
  pub step-Ballots :
      (m : Message) (n : Node) → Vouched m n.config.id → Ballots Voted n → Ballots Voted (step m n)
  unfolding step
  step-Ballots m n vouch b =
      if_intro (Ballots Voted) (refuses_vote m n) _ _ (λ _. same n _ (ground arith) b)
        λ _.
          if_intro (Ballots Voted) (ltb m.term a.hard.term) _ _
            (λ _. Quiet-Ballots Voted a _ (answer_stale-Quiet m.type m a) ab)
            (λ e.
              dispatch-Ballots m.type m a
                (λ t g. rw (adopt_term-config m n, ← same_term e) (vouch t g)) ab)
    where
      a : Node
      a = adopt_term m n

      ab : Ballots Voted a
      ab = adopt_term-Ballots m n b

      same_term : ltb m.term a.hard.term ≡ false → m.term ≡ a.hard.term
      same_term e = ground (arith, adopt_term-term m n)
