-- ===== src/Raft/Cluster/Safety.antt =====
-- src/server/broker.cpp, src/raft/node.cpp: the invariant of the cluster, kept by every step.
use log_engine.Prelude.{
  ℕ, ◌+◌, ◌≡◌, refl, sym, ap, subst, ◌∙◌, ◌≢◌, inl, inr, List, ◌++◌, arith, ◌==◌, if◌then◌else◌,
  if_intro, length, In, In-append,
}
use log_engine.Raft.Ballots.{Ballots, Quiet-Ballots}
use log_engine.Raft.Cluster.{
  Member, drive, drive_fails, restart, Cluster, with_member, with_node, Step, ticks, receives,
  appends, drives, fails, restarts, Reach, here, next,
}
use log_engine.Raft.Cluster.Drive.{
  more-Elected, others_send, drive-disk, drive-node, drive_sends, drive-Local, drive_fails-config,
  drive_fails-Follows, restart-config, drive_fails-Local, restart-Local,
}
use log_engine.Raft.Cluster.Local.{Elected, Local, Move-Local}
use log_engine.Raft.Cluster.Votes.{Honours, Follows-Honours, ballot_of_grant, VotedIn}
use log_engine.Raft.Elections.{tick-Ballots, step-Ballots}
use log_engine.Raft.Moves.{Follows, Move, Follows-refl}
use log_engine.Raft.Progress.{Quiet-Move, tick-Move, step-Move}
use log_engine.Raft.Speech.{log_appended-Quiet}
use log_engine.Raft.State.{Node}
use log_engine.Raft.Types.{append_entries, Message}

module _ (ids : List ℕ) where
  pub record IsSafe (s : Cluster) : Type 0 where
    pub known : (i : ℕ) → In i ids → (s.members i).node.config.id ≡ i
    pub size : (i : ℕ) → In i ids → length (s.members i).node.config.peers + 1 ≡ length ids
    pub senders : (m : Message) → In m s.sent → In m.from ids
    pub kept : (m : Message) → In m s.sent → Honours (s.members m.from).disk m
    pub elected :
        (m : Message) → In m s.sent → m.type ≡ append_entries → Elected ids s.sent m.from m.term
    pub local : (i : ℕ) → In i ids → Local ids s.sent (s.members i).disk (s.members i).node

  -- What holds of the changed member and of the others.
  here_or_there :
      (f : ℕ → Member) (b : Member) (i j : ℕ) (P : Member → Type 0)
      → (j ≡ i → P b)
      → (j ≢ i → P (f j))
      → P (if j == i then b else f j)
  here_or_there f b i j P p q =
      if_intro P (j == i) b (f j) (λ e. p (ground arith)) (λ e. q (ground arith))

  module _ (s : Cluster) (v : IsSafe s) (i : ℕ) (at : In i ids) where
    -- One member changes and nothing is sent.
    one_changes :
        (c : Member)
        → c.node.config ≡ (s.members i).node.config
        → Follows (s.members i).disk c.disk
        → Local ids s.sent c.disk c.node
        → IsSafe (with_member s i c)
    one_changes c e f k = record {
      known = λ j h.
          here_or_there s.members c i j (λ (x : Member). x.node.config.id ≡ j)
            (λ p. ap (λ d. d.id) e ∙ v.known i at ∙ sym p) (λ _. v.known j h);
      size = λ j h.
          here_or_there s.members c i j
            (λ (x : Member). length x.node.config.peers + 1 ≡ length ids) (λ p. rw e (v.size i at))
            (λ _. v.size j h);
      senders = v.senders;
      kept = λ m h.
          here_or_there s.members c i m.from (λ (x : Member). Honours x.disk m)
            (λ p.
              Follows-Honours _ _ m f (subst (λ j. Honours (s.members j).disk m) p (v.kept m h)))
            (λ _. v.kept m h);
      elected = v.elected;
      local = λ j h.
          here_or_there s.members c i j (λ (x : Member). Local ids s.sent x.disk x.node) (λ p. k)
            (λ _. v.local j h);
    }

    -- The member's node moves.
    one_moves :
        (n : Node)
        → Move (s.members i).node n
        → Ballots (VotedIn s.sent) n
        → IsSafe (with_node s i n)
    one_moves n m k =
        one_changes (record (s.members i) { node = n }) m.config (Follows-refl _)
          (Move-Local ids s.sent (s.members i).disk (s.members i).node n
            (subst (λ j. In j ids) (sym (v.known i at)) at) (v.size i at) v.senders (v.local i at) m
            k)

    drive-Follows : Follows (s.members i).disk (drive (s.members i)).0.disk
    drive-Follows = rw (drive-disk ids s.sent (s.members i) (v.local i at)) (v.local i at).durable

    sender : (m : Message) → In m (s.members i).node.out → m.from ≡ i
    sender m o = (v.local i at).mine m o ∙ v.known i at

    -- What is sent is honoured by the platter.
    sent_kept : (m : Message) → In m (s.members i).node.out → Honours (drive (s.members i)).0.disk m
    sent_kept m o =
        rw (drive-disk ids s.sent (s.members i) (v.local i at)) ((v.local i at).honours m (inr o))

    all_sent : List Message
    all_sent = s.sent ++ (s.members i).node.out

    kept_by :
        (m : Message)
        → In m all_sent
        → Honours (if m.from == i then (drive (s.members i)).0 else s.members m.from).disk m
    unfolding all_sent
    kept_by m h =
        here_or_there s.members (drive (s.members i)).0 i m.from (λ (x : Member). Honours x.disk m)
          (λ p. elim (In-append m s.sent (s.members i).node.out h) [
            | inl old ↦
                Follows-Honours _ _ m drive-Follows
                  (subst (λ j. Honours (s.members j).disk m) p (v.kept m old))
            | inr new ↦ sent_kept m new
          ])
          (λ d. elim (In-append m s.sent (s.members i).node.out h) [
            | inl old ↦ v.kept m old
            | inr new ↦ absurd (d (sender m new))
          ])

    -- The member sends what is in its outbox.
    one_sends : IsSafe (record (with_member s i (drive (s.members i)).0) { sent = all_sent })
    unfolding all_sent
    one_sends = record {
      known = λ j h.
          here_or_there s.members d i j (λ (x : Member). x.node.config.id ≡ j)
            (λ p. ap (λ c. c.id) (drive-node ids s.sent (s.members i)) ∙ v.known i at ∙ sym p)
            (λ _. v.known j h);
      size = λ j h.
          here_or_there s.members d i j
            (λ (x : Member). length x.node.config.peers + 1 ≡ length ids)
            (λ p. rw (drive-node ids s.sent (s.members i)) (v.size i at)) (λ _. v.size j h);
      senders = λ m h. elim (In-append m s.sent (s.members i).node.out h) [
        | inl old ↦ v.senders m old
        | inr new ↦ subst (λ j. In j ids) (sym (sender m new)) at
      ];
      kept = kept_by;
      elected = λ m h t.
          more-Elected s.sent (s.members i).node.out ids m.from m.term
            (elim (In-append m s.sent (s.members i).node.out h) [
              | inl old ↦ v.elected m old t
              | inr new ↦ (v.local i at).leads m new t
            ]);
      local = λ j h.
          here_or_there s.members d i j (λ (x : Member). Local ids all_sent x.disk x.node)
            (λ p. drive-Local ids s.sent (s.members i) (v.local i at))
            (λ p.
              others_send ids s.sent (s.members i).node.out (s.members j).disk (s.members j).node
                (λ m o e. p (sym (v.known j h) ∙ sym e ∙ sender m o)) (v.local j h));
    }
      where
        d : Member
        d = (drive (s.members i)).0

  -- What a member said binds its platter.
  stored :
      (s : Cluster) (v : IsSafe s) (i : ℕ) (at : In i ids) (m : Message)
      → In m s.sent
      → m.from ≡ (s.members i).node.config.id
      → Honours (s.members i).disk m
  stored s v i at m h f = subst (λ j. Honours (s.members j).disk m) (f ∙ v.known i at) (v.kept m h)

  pub Step-IsSafe : (s s' : Cluster) → IsSafe s → Step ids s s' → IsSafe s'
  unfolding restart all_sent
  Step-IsSafe s s' v (ticks i at h e) = rw e (
      one_moves s v i at _ (tick-Move (s.members i).node h)
        (tick-Ballots (VotedIn s.sent) (s.members i).node (v.local i at).ballots))
  Step-IsSafe s s' v (receives i x y z m at k to e) =
      let w : Message = record m { entry_index = x; entry_end = y; entry_term = z } in
      rw e (
        one_moves s v i at _ (step-Move w (s.members i).node) (
          step-Ballots (VotedIn s.sent) w (s.members i).node
            (λ t g. (
              m,
              k,
              refl,
              refl,
              ballot_of_grant m _ t g (to ∙ sym (v.known i at)) (v.local i at).ballots.named,
            ))
            (v.local i at).ballots))
  Step-IsSafe s s' v (appends i index end term at e) = rw e (
      one_moves s v i at _ (Quiet-Move _ _ (log_appended-Quiet index end term (s.members i).node)) (
        Quiet-Ballots (VotedIn s.sent) _ _ (log_appended-Quiet index end term (s.members i).node)
          (v.local i at).ballots))
  Step-IsSafe s s' v (drives i at e) =
      rw (e, drive_sends ids s.sent (s.members i)) (one_sends s v i at)
  Step-IsSafe s s' v (fails i reached at e) = rw e (
      one_changes s v i at (drive_fails reached (s.members i))
        (drive_fails-config ids s.sent reached (s.members i))
        (drive_fails-Follows ids s.sent reached (s.members i) (v.local i at))
        (drive_fails-Local ids s.sent reached (s.members i) (v.local i at)))
  Step-IsSafe s s' v (restarts i rng end epochs at e) = rw e (
      one_changes s v i at (restart rng end epochs (s.members i))
        (restart-config ids s.sent rng end epochs (s.members i)) (Follows-refl _)
        (restart-Local ids s.sent rng end epochs (s.members i) (stored s v i at) (v.local i at)))

  pub Reach-IsSafe : {s t : Cluster} → IsSafe s → Reach ids s t → IsSafe t
  Reach-IsSafe v here = v
  Reach-IsSafe v (next r d) = Step-IsSafe _ _ (Reach-IsSafe v r) d
