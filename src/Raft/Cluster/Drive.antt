-- ===== src/Raft/Cluster/Drive.antt =====
-- Sending, failing to store and losing power keep what holds of one member.
use log_engine.Prelude.{
  ℕ, ◌≡◌, refl, ap, subst, ◌∙◌, ◌≢◌, ◌⊎◌, inl, inr, Bool, true, false, List, [], ◌++◌, arith, In,
  In-append, In-append_left, All-map,
}
use log_engine.Raft.Ballots.{Backer, Ballots, Ballots-mono}
use log_engine.Raft.Cluster.{Member, drive, drive_fails, restart}
use log_engine.Raft.Cluster.Local.{Spoken, Elected, Local}
use log_engine.Raft.Cluster.Votes.{Honours, VotedIn}
use log_engine.Raft.Epochs.{restore_log}
use log_engine.Raft.Handlers.{take_ready, hard_state_persisted, new_node}
use log_engine.Raft.Moves.{Follows, Follows-refl}
use log_engine.Raft.State.{Node}
use log_engine.Raft.Types.{Epoch, HardState, Message, Random}

pub not-In-nil : (m : Message) → In m [] → ⊥
not-In-nil m h = elim h [ ]

module _ (sent new : List Message) where
  more_votes : (v c t : ℕ) → VotedIn sent v c t → VotedIn (sent ++ new) v c t
  more_votes v c t (m, i, f, e, b) = (m, In-append_left m sent new i, f, e, b)

  pub more-Ballots : (n : Node) → Ballots (VotedIn sent) n → Ballots (VotedIn (sent ++ new)) n
  more-Ballots n = Ballots-mono _ _ n more_votes

  more_backing : (c t v : ℕ) → Backer (VotedIn sent) c t v → Backer (VotedIn (sent ++ new)) c t v
  more_backing c t v (inl e) = inl e
  more_backing c t v (inr h) = inr (more_votes v c t h)

  pub more-Elected : (ids : List ℕ) (c t : ℕ) → Elected ids sent c t → Elected ids (sent ++ new) c t
  more-Elected ids c t e = record {
    voters = e.voters;
    sorted = e.sorted;
    majority = e.majority;
    members = e.members;
    backed = All-map _ _ e.voters (more_backing c t) e.backed;
  }

module _ (ids : List ℕ) (sent : List Message) where
  -- What others send changes nothing for a node.
  pub others_send :
      (new : List Message) (disk : HardState) (n : Node)
      → ((m : Message) → In m new → m.from ≢ n.config.id)
      → Local ids sent disk n
      → Local ids (sent ++ new) disk n
  others_send new disk n other l = record {
    ballots = more-Ballots sent new n l.ballots;
    durable = l.durable;
    clean = l.clean;
    mine = l.mine;
    honours = λ m s. l.honours m (old m s);
    agrees = λ m m' c c' s s'. l.agrees m m' c c' (old m s) (old m' s');
    leads = λ m o t. more-Elected sent new ids m.from m.term (l.leads m o t);
  }
    where
      old : (m : Message) → Spoken (sent ++ new) n m → Spoken sent n m
      old m (inr o) = inr o
      old m (inl (s, f)) = elim (In-append m sent new s) [
        | inl p ↦ inl (p, f)
        | inr q ↦ absurd (other m q f)
      ]

  -- The node is as it was, but for an empty outbox and matters of the log.
  record Emptied (n n' : Node) : Type 0 where
    config : n'.config ≡ n.config
    hard : n'.hard ≡ n.hard
    role : n'.role ≡ n.role
    votes : n'.votes ≡ n.votes
    out : n'.out ≡ []

  emptied :
      (all : List Message) (disk disk' : HardState) (n n' : Node)
      → Emptied n n'
      → Ballots (VotedIn all) n
      → ((m : Message) → In m all → m.from ≡ n.config.id → Spoken sent n m)
      → Follows disk' n.hard
      → (n'.hard_state_dirty ≡ true) ⊎ (n'.hard ≡ disk')
      → Local ids sent disk n
      → Local ids all disk' n'
  emptied all disk disk' n n' e b old f c l = record {
    ballots = record {
      named = rw e.config b.named;
      own = rw (e.config, e.hard, e.role) b.own;
      backers = rw (e.config, e.hard, e.role, e.votes) b.backers;
      sorted = rw e.votes b.sorted;
      majority = rw (e.config, e.role, e.votes) b.majority;
    };
    durable = rw e.hard f;
    clean = c;
    mine = λ m o. absurd (nothing m o);
    honours = λ m s. rw e.hard (l.honours m (before m s));
    agrees = λ m m' c c' s s'. l.agrees m m' c c' (before m s) (before m' s');
    leads = λ m o t. absurd (nothing m o);
  }
    where
      nothing : (m : Message) → In m n'.out → ⊥
      nothing m o = not-In-nil m (subst (In m) e.out o)

      before : (m : Message) → Spoken all n' m → Spoken sent n m
      before m (inl (s, g)) = old m s (g ∙ ap (λ c. c.id) e.config)
      before m (inr o) = absurd (nothing m o)

  -- After `drive` the platter holds what the node holds.
  pub drive-disk : (b : Member) → Local ids sent b.disk b.node → (drive b).0.disk ≡ b.node.hard
  unfolding drive take_ready hard_state_persisted
  drive-disk b l = ground (arith, l.clean)

  pub drive-node : (b : Member) → (drive b).0.node.config ≡ b.node.config
  unfolding drive take_ready hard_state_persisted
  drive-node b = ground arith

  pub drive_sends : (b : Member) → (drive b).1 ≡ b.node.out
  unfolding drive take_ready
  drive_sends b = refl

  pub drive-Local :
      (b : Member)
      → Local ids sent b.disk b.node
      → Local ids (sent ++ b.node.out) (drive b).0.disk (drive b).0.node
  unfolding drive take_ready hard_state_persisted
  drive-Local b l =
      emptied (sent ++ b.node.out) b.disk _ b.node _ (ground arith)
        (more-Ballots sent b.node.out b.node l.ballots) spoken (ground (arith, l.durable))
        (ground (arith, l.clean)) l
    where
      spoken :
          (m : Message)
          → In m (sent ++ b.node.out)
          → m.from ≡ b.node.config.id
          → Spoken sent b.node m
      spoken m i f = elim (In-append m sent b.node.out i) [ inl p ↦ inl (p, f) | inr q ↦ inr q ]

  pub drive_fails-config :
      (reached : Bool) (b : Member) → (drive_fails reached b).node.config ≡ b.node.config
  unfolding drive_fails take_ready
  drive_fails-config reached b = refl

  pub drive_fails-Follows :
      (reached : Bool) (b : Member)
      → Local ids sent b.disk b.node
      → Follows b.disk (drive_fails reached b).disk
  unfolding drive_fails take_ready
  drive_fails-Follows true b l = l.durable
  drive_fails-Follows false b l = Follows-refl b.disk

  pub restart-config :
      (rng : Random) (end : ℕ) (epochs : List Epoch) (b : Member)
      → (restart rng end epochs b).node.config ≡ b.node.config
  unfolding restart restore_log new_node
  restart-config rng end epochs b = refl

  pub drive_fails-Local :
      (reached : Bool) (b : Member)
      → Local ids sent b.disk b.node
      → Local ids sent (drive_fails reached b).disk (drive_fails reached b).node
  unfolding drive_fails take_ready
  drive_fails-Local reached b l =
      emptied sent b.disk _ b.node _ (ground arith) l.ballots (λ m i f. inl (i, f))
        (ground (arith, l.durable)) (ground (arith, l.clean)) l

  pub restart-Local :
      (rng : Random) (end : ℕ) (epochs : List Epoch) (b : Member)
      → ((m : Message) → In m sent → m.from ≡ b.node.config.id → Honours b.disk m)
      → Local ids sent b.disk b.node
      → Local ids sent b.disk (restart rng end epochs b).node
  unfolding restart restore_log new_node
  restart-Local rng end epochs b kept l = record {
    ballots = record {
      named = l.ballots.named;
      own = inl refl;
      backers = inl refl;
      sorted = tt;
      majority = inl (λ e. cc);
    };
    durable = Follows-refl b.disk;
    clean = inr refl;
    mine = λ m o. elim o [ ];
    honours = λ m s. kept m (before m s).0 (before m s).1;
    agrees = λ m m' c c' s s'. l.agrees m m' c c' (inl (before m s)) (inl (before m' s'));
    leads = λ m o t. elim o [ ];
  }
    where
      before :
          (m : Message)
          → Spoken sent (restart rng end epochs b).node m
          → In m sent × (m.from ≡ b.node.config.id)
      before m (inl p) = p
      before m (inr o) = elim o [ ]
