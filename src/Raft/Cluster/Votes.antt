-- ===== src/Raft/Cluster/Votes.antt =====
-- The votes that a message carries, and what they bind its sender to.
use log_engine.Prelude.{
  ℕ, ◌<◌, ◌≡◌, ◌≢◌, ◌⊎◌, Bool, true, false, Option, none, some, List, arith, ◌==◌, if◌then◌else◌,
  In,
}
use log_engine.Raft.Moves.{Follows}
use log_engine.Raft.Quiet.{Backed, Said}
use log_engine.Raft.Types.{
  no_node, Role, follower, HardState, MessageType, request_vote, request_vote_response,
  append_entries, append_entries_response, Message,
}

unfoldable pub named : ℕ → Option ℕ
named c = if c == no_node then none else some c

unfoldable pub cast_by : MessageType → Bool → ℕ → ℕ → Option ℕ
cast_by request_vote g from to = named from
cast_by append_entries g from to = named from
cast_by request_vote_response true from to = named to
cast_by request_vote_response false from to = none
cast_by append_entries_response g from to = none

-- For whom the sender of this message has voted in the term of the message: whoever asks for votes
-- or appends entries has its own vote, and a grant is a vote for whom it is addressed to.
unfoldable pub ballot : Message → Option ℕ
unfolding named cast_by
ballot m = cast_by m.type m.granted m.from m.to

-- The hard state has left the term `t` behind, or still holds the vote.
abbrev pub HonoursCast : HardState → ℕ → Option ℕ → Type 0
HonoursCast h t none = Unit {0}
HonoursCast h t (some c) = (c ≢ no_node) × ((t < h.term) ⊎ ((t ≡ h.term) × (h.voted_for ≡ c)))

abbrev pub Honours : HardState → Message → Type 0
Honours h m = HonoursCast h m.term (ballot m)

Follows-HonoursCast :
    (h h' : HardState) (t : ℕ) (o : Option ℕ)
    → Follows h h'
    → HonoursCast h t o
    → HonoursCast h' t o
Follows-HonoursCast h h' t none f p = tt
Follows-HonoursCast h h' t (some c) f p = ground arith

pub Follows-Honours : (h h' : HardState) (m : Message) → Follows h h' → Honours h m → Honours h' m
Follows-Honours h h' m = Follows-HonoursCast h h' m.term (ballot m)

cast_by-Honours :
    (t : MessageType) (g : Bool) (from to term id : ℕ) (h : HardState) (r : Role)
    → (r ≡ follower) ⊎ (h.voted_for ≡ id)
    → from ≡ id
    → term ≡ h.term
    → Backed t g to h r
    → HonoursCast h term (cast_by t g from to)
unfolding cast_by named
cast_by-Honours request_vote g from to term id h r o f e b = ground arith
cast_by-Honours append_entries g from to term id h r o f e b = ground arith
cast_by-Honours request_vote_response true from to term id h r o f e b = ground arith
cast_by-Honours request_vote_response false from to term id h r o f e b = tt
cast_by-Honours append_entries_response g from to term id h r o f e b = tt

-- What is said in a state where the own vote is in order is honoured by that state.
pub Said-Honours :
    (id : ℕ) (h : HardState) (r : Role) (m : Message)
    → (r ≡ follower) ⊎ (h.voted_for ≡ id)
    → Said id h r m
    → Honours h m
unfolding ballot
Said-Honours id h r m o s = cast_by-Honours m.type m.granted m.from m.to m.term id h r o s.0 s.1 s.2

honoured_cast :
    (h : HardState) (t c : ℕ) (o : Option ℕ)
    → HonoursCast h t o
    → t ≡ h.term
    → o ≡ some c
    → h.voted_for ≡ c
honoured_cast h t c none p e b = cc
honoured_cast h t c (some d) p e b = ground arith

-- A vote of the current term is the vote that the state holds.
pub honoured :
    (h : HardState) (m : Message) (c : ℕ)
    → Honours h m
    → m.term ≡ h.term
    → ballot m ≡ some c
    → h.voted_for ≡ c
honoured h m c = honoured_cast h m.term c (ballot m)

cast_by_grant :
    (t : MessageType) (g : Bool) (from to c : ℕ)
    → t ≡ request_vote_response
    → g ≡ true
    → to ≡ c
    → c ≢ no_node
    → cast_by t g from to ≡ some c
unfolding cast_by named
cast_by_grant t g from to c et eg e n = ground arith

-- A grant is a vote for the node that it is addressed to.
pub ballot_of_grant :
    (m : Message) (c : ℕ)
    → m.type ≡ request_vote_response
    → m.granted ≡ true
    → m.to ≡ c
    → c ≢ no_node
    → ballot m ≡ some c
unfolding ballot
ballot_of_grant m c = cast_by_grant m.type m.granted m.from m.to c

cast_by_append :
    (t : MessageType) (g : Bool) (from to c : ℕ)
    → t ≡ append_entries
    → from ≡ c
    → c ≢ no_node
    → cast_by t g from to ≡ some c
unfolding cast_by named
cast_by_append t g from to c et e n = ground arith

-- Whoever appends entries has its own vote.
pub ballot_of_append :
    (m : Message) (c : ℕ) → m.type ≡ append_entries → m.from ≡ c → c ≢ no_node → ballot m ≡ some c
unfolding ballot
ballot_of_append m c = cast_by_append m.type m.granted m.from m.to c

abbrev pub VotedIn : List Message → ℕ → ℕ → ℕ → Type 0
VotedIn sent v c t = (m : Message) × In m sent × (m.from ≡ v) × (m.term ≡ t) × (ballot m ≡ some c)
