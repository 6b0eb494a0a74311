-- ===== src/Raft/Ballots.antt =====
-- src/raft/node.cpp: who has voted for whom, as one node sees it. `Voted v c t` stands for what the
-- node's votes rest on: that `v` gave its vote of term `t` to `c`.
use log_engine.Prelude.{
  ℕ, suc, ◌≤◌, ◌≡◌, refl, ◌≢◌, ◌⊎◌, inl, inr, List, [], ◌∷◌, arith, ltb, ◌==◌, if_intro, length,
  All, All-map, insert,
}
use log_engine.Raft.Quiet.{Quiet}
use log_engine.Raft.Replication.{broadcast_heartbeat}
use log_engine.Raft.Roles.{become_follower, become_candidate, assign_all, become_leader}
use log_engine.Raft.Speech.{send_to_all-Quiet}
use log_engine.Raft.State.{Node}
use log_engine.Raft.Types.{no_node, follower, candidate, leader, quorum}

-- Rising numbers from `lo` on: the keys of a `std::set`.
abbrev pub Rising : ℕ → List ℕ → Type 0
Rising lo [] = Unit {0}
Rising lo (x ∷ xs) = (lo ≤ x) × Rising (suc x) xs

pub insert-Rising : (lo k : ℕ) (xs : List ℕ) → lo ≤ k → Rising lo xs → Rising lo (insert k xs)
unfolding insert
insert-Rising lo k [] h s = (h, tt)
insert-Rising lo k (x ∷ xs) h s = ground (arith, insert-Rising (suc x) k xs)

pub insert-All {ℓ} : (P : ℕ → Type ℓ) (k : ℕ) (xs : List ℕ) → P k → All P xs → All P (insert k xs)
unfolding insert
insert-All P k [] p h = (p, tt)
insert-All P k (x ∷ xs) p h =
    if_intro (All P) (ltb k x) _ _ (λ _. (p, h))
      λ _. if_intro (All P) (x == k) _ _ (λ _. h) (λ _. (h.0, insert-All P k xs p h.1))

module _ (Voted : ℕ → ℕ → ℕ → Type 0) where
  -- A vote for the node `id` in the term `t`: its own, or one that it was given.
  abbrev pub Backer : ℕ → ℕ → ℕ → Type 0
  Backer id t v = (v ≡ id) ⊎ Voted v id t

  pub record Ballots (n : Node) : Type 0 where
    pub named : n.config.id ≢ no_node
    pub own : (n.role ≡ follower) ⊎ (n.hard.voted_for ≡ n.config.id)
    pub backers : (n.role ≡ follower) ⊎ All (Backer n.config.id n.hard.term) n.votes
    pub sorted : Rising 0 n.votes
    pub majority : (n.role ≢ leader) ⊎ (quorum n.config ≤ length n.votes)

  pub Quiet-Ballots : (n n' : Node) → Quiet n n' → Ballots n → Ballots n'
  Quiet-Ballots n n' q b = record {
    named = rw q.config b.named;
    own = rw (q.config, q.hard, q.role) b.own;
    backers = rw (q.config, q.hard, q.role, q.votes) b.backers;
    sorted = rw q.votes b.sorted;
    majority = rw (q.config, q.role, q.votes) b.majority;
  }

  pub become_follower-Ballots :
      (term from : ℕ) (n : Node) → Ballots n → Ballots (become_follower term from n)
  unfolding become_follower
  become_follower-Ballots term from n b = record {
    named = rw config_kept b.named;
    own = ground arith;
    backers = ground arith;
    sorted = ground arith;
    majority = ground arith;
  }
    where
      config_kept : (become_follower term from n).config ≡ n.config
      config_kept = ground arith

  pub become_candidate-Ballots : (n : Node) → Ballots n → Ballots (become_candidate n)
  unfolding become_candidate insert
  become_candidate-Ballots n b = record {
    named = b.named;
    own = inr refl;
    backers = inr (inl refl, tt);
    sorted = (omega arith, tt);
    majority = inl (λ e. cc);
  }

  pub become_leader-Ballots :
      (n : Node)
      → n.role ≡ candidate
      → quorum n.config ≤ length n.votes
      → Ballots n
      → Ballots (become_leader n)
  unfolding become_leader broadcast_heartbeat
  become_leader-Ballots n r q b =
      Quiet-Ballots l _ (send_to_all-Quiet n.config.peers l refl) (record {
        named = b.named;
        own = ground arith;
        backers = ground arith;
        sorted = b.sorted;
        majority = inr q;
      })
    where
      l : Node
      l = record n {
        role = leader;
        leader_id = n.config.id;
        heartbeat_elapsed = 0;
        match_ends = assign_all n.config.peers 0 [];
        next_indexes = assign_all n.config.peers n.log_end [];
      }

-- More votes do no harm.
pub Ballots-mono :
    (V W : ℕ → ℕ → ℕ → Type 0) (n : Node)
    → ((v c t : ℕ) → V v c t → W v c t)
    → Ballots V n
    → Ballots W n
Ballots-mono V W n f b = record {
  named = b.named;
  own = b.own;
  backers = elim b.backers [ inl e ↦ inl e | inr h ↦ inr (All-map _ _ n.votes (λ v. more v) h) ];
  sorted = b.sorted;
  majority = b.majority;
}
  where
    more : (v : ℕ) → Backer V n.config.id n.hard.term v → Backer W n.config.id n.hard.term v
    more v (inl e) = inl e
    more v (inr h) = inr (f v _ _ h)
