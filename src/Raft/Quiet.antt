-- ===== src/Raft/Quiet.antt =====
-- src/raft/node.cpp: the operations that leave the term, the vote, the role and the ballots alone,
-- and what they may say.
use log_engine.Prelude.{
  ℕ, ◌≡◌, refl, sym, ap, ◌∙◌, Bool, true, false, List, [], ◌∷◌, ◌++◌, arith, All,
}
use mathlib.Core.List.{append-nil, append_assoc}
use log_engine.Raft.Outbox.{stamped}
use log_engine.Raft.Replication.{append_entries_for}
use log_engine.Raft.State.{Node}
use log_engine.Raft.Types.{
  Role, candidate, leader, HardState, MessageType, request_vote, request_vote_response,
  append_entries, append_entries_response, Message,
}

-- What a message commits its sender to: a candidate asks, a leader appends, a grant is a vote.
abbrev pub Backed : MessageType → Bool → ℕ → HardState → Role → Type 0
Backed request_vote g to h r = r ≡ candidate
Backed append_entries g to h r = r ≡ leader
Backed request_vote_response true to h r = h.voted_for ≡ to
Backed request_vote_response false to h r = Unit {0}
Backed append_entries_response g to h r = Unit {0}

-- The node with this id, hard state and role may say the message.
abbrev pub Said : ℕ → HardState → Role → Message → Type 0
Said id h r m = (m.from ≡ id) × (m.term ≡ h.term) × Backed m.type m.granted m.to h r

pub record Quiet (n n' : Node) : Type 0 where
  pub config : n'.config ≡ n.config
  pub hard : n'.hard ≡ n.hard
  pub dirty : n'.hard_state_dirty ≡ n.hard_state_dirty
  pub role : n'.role ≡ n.role
  pub votes : n'.votes ≡ n.votes
  pub said : List Message
  pub out : n'.out ≡ n.out ++ said
  pub backed : All (Said n.config.id n.hard n.role) said

pub All-append {ℓ κ} :
    {A : Type ℓ} (P : A → Type κ) (xs ys : List A) → All P xs → All P ys → All P (xs ++ ys)
All-append P [] ys hx hy = hy
All-append P (x ∷ xs) ys hx hy = (hx.0, All-append P xs ys hx.1 hy)

pub Quiet-refl : (n : Node) → Quiet n n
Quiet-refl n = record {
  config = refl;
  hard = refl;
  dirty = refl;
  role = refl;
  votes = refl;
  said = [];
  out = sym (append-nil n.out);
  backed = tt;
}

pub Quiet-trans : (a b c : Node) → Quiet a b → Quiet b c → Quiet a c
Quiet-trans a b c p q = record {
  config = q.config ∙ p.config;
  hard = q.hard ∙ p.hard;
  dirty = q.dirty ∙ p.dirty;
  role = q.role ∙ p.role;
  votes = q.votes ∙ p.votes;
  said = p.said ++ q.said;
  out = q.out ∙ ap (λ o. o ++ q.said) p.out ∙ append_assoc a.out p.said q.said;
  backed = All-append _ p.said q.said p.backed theirs;
}
  where
    theirs : All (Said a.config.id a.hard a.role) q.said
    theirs = rw (← p.config, ← p.hard, ← p.role) q.backed

-- Whatever is said at once, when the rest of the node that counts here is left alone.
abbrev pub speaks :
    (n n' : Node) (ms : List Message)
    → n'.config ≡ n.config
    → n'.hard ≡ n.hard
    → n'.hard_state_dirty ≡ n.hard_state_dirty
    → n'.role ≡ n.role
    → n'.votes ≡ n.votes
    → n'.out ≡ n.out ++ ms
    → All (Said n.config.id n.hard n.role) ms
    → Quiet n n'
speaks n n' ms c h d r v o b = record {
  config = c;
  hard = h;
  dirty = d;
  role = r;
  votes = v;
  said = ms;
  out = o;
  backed = b;
}

pub append_entries-Said :
    (n : Node) (p : ℕ)
    → n.role ≡ leader
    → Said n.config.id n.hard n.role (stamped n (append_entries_for p n))
unfolding append_entries_for
append_entries-Said n p l = ground arith
