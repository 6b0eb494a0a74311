-- ===== src/Raft/Cluster/Local.antt =====
-- What holds of one member of the cluster, given all that was ever sent.
use log_engine.Prelude.{
  ℕ, ◌+◌, ◌/◌, ◌≤◌, ◌≡◌, sym, ap, subst, ◌∙◌, ◌⊎◌, inl, inr, Bool, true, some, List, arith, length,
  All, In, In-append, all_in, All-map,
}
use log_engine.Raft.Ballots.{Rising, Backer, Ballots}
use log_engine.Raft.Cluster.Votes.{
  ballot, Honours, Follows-Honours, Said-Honours, honoured, VotedIn,
}
use log_engine.Raft.Moves.{Follows, Move, Follows-trans}
use log_engine.Raft.Quiet.{Backed, Said}
use log_engine.Raft.State.{Node}
use log_engine.Raft.Types.{
  Role, follower, leader, HardState, MessageType, request_vote, request_vote_response,
  append_entries, append_entries_response, Message,
}

-- Said by the node: sent by it, or in its outbox.
abbrev pub Spoken : List Message → Node → Message → Type 0
Spoken sent n m = (In m sent × (m.from ≡ n.config.id)) ⊎ In m n.out

module _ (ids : List ℕ) where
  -- Elected by a quorum of distinct members that voted for it.
  pub record Elected (sent : List Message) (c t : ℕ) : Type 0 where
    pub voters : List ℕ
    pub sorted : Rising 0 voters
    pub majority : length ids / 2 + 1 ≤ length voters
    pub members : All (λ v. In v ids) voters
    pub backed : All (Backer (VotedIn sent) c t) voters

  pub record Local (sent : List Message) (disk : HardState) (n : Node) : Type 0 where
    pub ballots : Ballots (VotedIn sent) n
    pub durable : Follows disk n.hard
    pub clean : (n.hard_state_dirty ≡ true) ⊎ (n.hard ≡ disk)
    pub mine : (m : Message) → In m n.out → m.from ≡ n.config.id
    pub honours : (m : Message) → Spoken sent n m → Honours n.hard m
    pub agrees :
        (m m' : Message) (c c' : ℕ)
        → Spoken sent n m
        → Spoken sent n m'
        → m.term ≡ m'.term
        → ballot m ≡ some c
        → ballot m' ≡ some c'
        → c ≡ c'
    pub leads : (m : Message) → In m n.out → m.type ≡ append_entries → Elected sent m.from m.term

  -- A leader was elected.
  pub leader-Elected :
      (sent : List Message) (n : Node)
      → In n.config.id ids
      → length n.config.peers + 1 ≡ length ids
      → ((m : Message) → In m sent → In m.from ids)
      → Ballots (VotedIn sent) n
      → n.role ≡ leader
      → Elected sent n.config.id n.hard.term
  leader-Elected sent n i size from b l = record {
    voters = n.votes;
    sorted = b.sorted;
    majority = ground (arith, b.majority);
    members = All-map _ _ n.votes member backers;
    backed = backers;
  }
    where
      leading : (r : Role) (P : Type 0) → r ≡ leader → (r ≡ follower) ⊎ P → P
      leading r P e (inl f) = absurd (ground arith)
      leading r P e (inr p) = p

      backers : All (Backer (VotedIn sent) n.config.id n.hard.term) n.votes
      backers = leading n.role _ l b.backers

      member : (v : ℕ) → Backer (VotedIn sent) n.config.id n.hard.term v → In v ids
      member v (inl e) = subst (λ w. In w ids) (sym e) i
      member v (inr (m, s, f, t, d)) = subst (λ w. In w ids) f (from m s)

  module _ (sent : List Message) (disk : HardState) (n n' : Node) (l : Local sent disk n)
      (v : Move n n') (b : Ballots (VotedIn sent) n') where
    -- What the node has said since, or said before.
    Spoken-before : (m : Message) → Spoken sent n' m → Spoken sent n m ⊎ In m v.said
    Spoken-before m (inl (s, f)) = inl (inl (s, f ∙ ap (λ c. c.id) v.config))
    Spoken-before m (inr o) = elim (In-append m n.out v.said (subst (In m) v.out o)) [
      | inl old ↦ inl (inr old)
      | inr new ↦ inr new
    ]

    new_said : (m : Message) → In m v.said → Said n'.config.id n'.hard n'.role m
    new_said m = λ i. all_in _ m v.said v.backed i

    moved-Honours : (m : Message) → Spoken sent n' m → Honours n'.hard m
    moved-Honours m s = elim (Spoken-before m s) [
      | inl old ↦ Follows-Honours n.hard n'.hard m v.follows (l.honours m old)
      | inr new ↦ Said-Honours n'.config.id n'.hard n'.role m b.own (new_said m new)
    ]

    moved_agrees :
        (m m' : Message) (c c' : ℕ)
        → Spoken sent n' m
        → Spoken sent n' m'
        → m.term ≡ m'.term
        → ballot m ≡ some c
        → ballot m' ≡ some c'
        → c ≡ c'
    moved_agrees m m' c c' s s' e d d' = elim (Spoken-before m s) [
      | inr new ↦ held (new_said m new).1
      | inl old ↦ elim (Spoken-before m' s') [
        | inl old' ↦ l.agrees m m' c c' old old' e d d'
        | inr new' ↦ held (e ∙ (new_said m' new').1)
      ]
    ]
      where
        held : m.term ≡ n'.hard.term → c ≡ c'
        held t =
            sym (honoured n'.hard m c (moved-Honours m s) t d)
            ∙ honoured n'.hard m' c' (moved-Honours m' s') (sym e ∙ t) d'

  -- A move keeps the node's side of the invariant.
  pub Move-Local :
      (sent : List Message) (disk : HardState) (n n' : Node)
      → In n.config.id ids
      → length n.config.peers + 1 ≡ length ids
      → ((m : Message) → In m sent → In m.from ids)
      → Local sent disk n
      → Move n n'
      → Ballots (VotedIn sent) n'
      → Local sent disk n'
  Move-Local sent disk n n' i size from l v b = record {
    ballots = b;
    durable = Follows-trans disk n.hard n'.hard l.durable v.follows;
    clean = ground (arith, v.owes, l.clean);
    mine = λ m o. elim (In-append m n.out v.said (subst (In m) v.out o)) [
      | inl old ↦ l.mine m old ∙ sym (ap (λ c. c.id) v.config)
      | inr new ↦ (new_said sent disk n n' l v b m new).0
    ];
    honours = moved-Honours sent disk n n' l v b;
    agrees = moved_agrees sent disk n n' l v b;
    leads = λ m o t. elim (In-append m n.out v.said (subst (In m) v.out o)) [
      | inl old ↦ l.leads m old t
      | inr new ↦ elect m t (new_said sent disk n n' l v b m new)
    ];
  }
    where
      leads_now :
          (t : MessageType) (g : Bool) (to : ℕ) (h : HardState) (r : Role)
          → t ≡ append_entries
          → Backed t g to h r
          → r ≡ leader
      leads_now request_vote g to h r e k = cc
      leads_now append_entries g to h r e k = k
      leads_now request_vote_response g to h r e k = cc
      leads_now append_entries_response g to h r e k = cc

      elect :
          (m : Message)
          → m.type ≡ append_entries
          → Said n'.config.id n'.hard n'.role m
          → Elected sent m.from m.term
      elect m t s =
          rw (s.0, s.1)
            (leader-Elected sent n' (rw v.config i) (rw v.config size) from b
              (leads_now m.type m.granted m.to n'.hard n'.role t s.2))
