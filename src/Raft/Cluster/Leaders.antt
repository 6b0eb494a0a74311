-- ===== src/Raft/Cluster/Leaders.antt =====
-- Election safety of the cluster: at most one leader in each term, over its whole history.
use log_engine.Prelude.{
  ℕ, ◌+◌, ◌≡◌, refl, sym, subst, ◌∙◌, ◌≢◌, ◌⊎◌, inl, inr, List, [], arith, length, In, all_in,
}
use log_engine.Raft.Ballots.{Backer}
use log_engine.Raft.Cluster.{Cluster, Reach, first_state}
use log_engine.Raft.Cluster.Drive.{not-In-nil}
use log_engine.Raft.Cluster.Local.{Spoken, Elected, leader-Elected}
use log_engine.Raft.Cluster.Quorums.{quorums_meet}
use log_engine.Raft.Cluster.Safety.{IsSafe, Reach-IsSafe}
use log_engine.Raft.Cluster.Votes.{honoured, ballot_of_append, VotedIn}
use log_engine.Raft.Handlers.{new_node}
use log_engine.Raft.Moves.{Follows-refl}
use log_engine.Raft.Types.{no_node, Role, follower, leader, append_entries, Message, Config, Random}

module _ (ids : List ℕ) where
  -- The member `c` acts as the leader of the term `t`: it is one now, or it has sent entries or a
  -- heartbeat in that term.
  pub data Leads (s : Cluster) (c t : ℕ) : Type 0 where
    now :
        In c ids → (s.members c).node.role ≡ leader → (s.members c).node.hard.term ≡ t → Leads s c t
    once :
        (m : Message)
        → In m s.sent
        → m.type ≡ append_entries
        → m.from ≡ c
        → m.term ≡ t
        → Leads s c t

  module _ (s : Cluster) (v : IsSafe ids s) where
    Leads-Elected : (c t : ℕ) → Leads s c t → Elected ids s.sent c t
    Leads-Elected c t (once m h k f e) = rw (← f, ← e) (v.elected m h k)
    Leads-Elected c t (now h r e) =
        subst (λ x. Elected ids s.sent x t) (v.known c h)
          (subst (λ y. Elected ids s.sent (s.members c).node.config.id y) e
            (leader-Elected ids s.sent (s.members c).node
              (subst (λ j. In j ids) (sym (v.known c h)) h) (v.size c h) v.senders
              (v.local c h).ballots r))

    -- One member's two votes of one term are the same.
    one_vote : (w c d t : ℕ) → In w ids → VotedIn s.sent w c t → VotedIn s.sent w d t → c ≡ d
    one_vote w c d t h (m, i, f, g, k) (m', i', f', g', k') =
        (v.local w h).agrees m m' c d (inl (i, f ∙ sym (v.known w h)))
          (inl (i', f' ∙ sym (v.known w h))) (g ∙ sym g') k k'

    leads_itself : {P : Type 0} (r : Role) → r ≡ leader → (r ≡ follower) ⊎ P → P
    leads_itself r e (inl f) = absurd (ground arith)
    leads_itself r e (inr p) = p

    -- A leader votes for nobody else.
    own_vote : (c d t : ℕ) → Leads s c t → VotedIn s.sent c d t → c ≡ d
    own_vote c d t (now h r e) (m, i, f, g, k) =
        sym (v.known c h)
        ∙ sym (leads_itself (s.members c).node.role r (v.local c h).ballots.own)
        ∙ honoured (s.members c).node.hard m d
            ((v.local c h).honours m (inl (i, f ∙ sym (v.known c h)))) (g ∙ sym e) k
    own_vote c d t (once m h k f e) (m', i, f', g, k') =
        one_vote c c d t at (m, h, f, e, ballot_of_append m c k f valid) (m', i, f', g, k')
      where
        at : In c ids
        at = subst (λ j. In j ids) f (v.senders m h)

        valid : c ≢ no_node
        valid x = (v.local c at).ballots.named (v.known c at ∙ x)

    common_voter :
        (w c d t : ℕ)
        → In w ids
        → Leads s c t
        → Leads s d t
        → Backer (VotedIn s.sent) c t w
        → Backer (VotedIn s.sent) d t w
        → c ≡ d
    common_voter w c d t h p q (inl e) (inl f) = sym e ∙ f
    common_voter w c d t h p q (inl e) (inr b) =
        own_vote c d t p (subst (λ x. VotedIn s.sent x d t) e b)
    common_voter w c d t h p q (inr a) (inl f) =
        sym (own_vote d c t q (subst (λ x. VotedIn s.sent x c t) f a))
    common_voter w c d t h p q (inr a) (inr b) = one_vote w c d t h a b

    one_leader : (c d t : ℕ) → Leads s c t → Leads s d t → c ≡ d
    one_leader c d t p q =
        let e : Elected ids s.sent c t = Leads-Elected c t p in
        let f : Elected ids s.sent d t = Leads-Elected d t q in
        let (w, i, j) =
          quorums_meet ids e.voters f.voters e.sorted f.sorted e.members f.members e.majority
            f.majority in
        common_voter w c d t (all_in _ w e.voters e.members i) p q (all_in _ w e.voters e.backed i)
          (all_in _ w f.voters f.backed j)

  -- The configurations name their nodes, and each has all the others for peers.
  pub record AreConfigs (configs : ℕ → Config) : Type 0 where
    pub id : (i : ℕ) → In i ids → (configs i).id ≡ i
    pub valid : (i : ℕ) → In i ids → i ≢ no_node
    pub others : (i : ℕ) → In i ids → length (configs i).peers + 1 ≡ length ids

  nothing :
      (configs : ℕ → Config) (rngs : ℕ → Random) (i : ℕ) (m : Message)
      → Spoken [] ((first_state configs rngs).members i).node m
      → ⊥
  unfolding first_state new_node
  nothing configs rngs i m (inl (h, f)) = not-In-nil m h
  nothing configs rngs i m (inr o) = not-In-nil m o

  pub first-IsSafe :
      (configs : ℕ → Config) (rngs : ℕ → Random)
      → AreConfigs configs
      → IsSafe ids (first_state configs rngs)
  unfolding first_state new_node
  first-IsSafe configs rngs a = record {
    known = a.id;
    size = a.others;
    senders = λ m h. elim h [ ];
    kept = λ m h. elim h [ ];
    elected = λ m h. elim h [ ];
    local = λ i h. record {
      ballots = record {
        named = λ e. a.valid i h (sym (a.id i h) ∙ e);
        own = inl refl;
        backers = inl refl;
        sorted = tt;
        majority = inl (λ e. cc);
      };
      durable = Follows-refl _;
      clean = inr refl;
      mine = λ m o. elim o [ ];
      honours = λ m s. absurd (nothing configs rngs i m s);
      agrees = λ m m' c c' s s' e d d'. absurd (nothing configs rngs i m s);
      leads = λ m o. elim o [ ];
    };
  }

  -- Election safety. From a start in which the configurations name their nodes, after any sequence
  -- of ticks, deliveries of sent messages, appends, sends, failed writes and restarts, two members
  -- that act as leaders of one term are the same member. A member acts as the leader of a term
  -- while it is one, and has acted as one if it ever sent an AppendEntries of that term.
  pub election_safety :
      (configs : ℕ → Config) (rngs : ℕ → Random) (s : Cluster) (c d t : ℕ)
      → AreConfigs configs
      → Reach ids (first_state configs rngs) s
      → Leads s c t
      → Leads s d t
      → c ≡ d
  election_safety configs rngs s c d t a r p q =
      one_leader s (Reach-IsSafe ids (first-IsSafe configs rngs a) r) c d t p q
