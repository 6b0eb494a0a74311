-- ===== src/Server/Broker/Order.antt =====
-- src/server/broker.cpp: Broker::drive carries out the log orders, then persists, then sends.
use log_engine.Prelude.{ℕ, ◌≡◌, refl, sym, ap, ◌∙◌, ◌⊎◌, inl, inr, true, false, List, leb, if_intro}
use log_engine.Base.Error.{ErrorCode, ok, fail, Status}
use log_engine.Io.Disk.{Disk}
use log_engine.Raft.Handlers.{take_ready, hard_state_persisted}
use log_engine.Raft.Types.{Message, Ready, ready_is_empty}
use log_engine.Server.Broker.{
  Broker, Machine, note_commit, set_raft, update, persist, carry_out_log_orders, send_all,
  sent_after, after_orders, drive_broker,
}
use log_engine.Server.Broker.Frames.{
  Frame, carry_out_log_orders-Framed, persist-Framed, send_all-raft,
}

module _ (D : Disk) where
  -- What is to be done, and the broker that has been told of it.
  abbrev pub ready_of : Machine D → Ready
  ready_of w = (take_ready w.broker.raft).0

  abbrev pub told : Machine D → Machine D
  told w =
      update D
        (λ b. note_commit (ready_of w).commit_index (set_raft (take_ready w.broker.raft).1 b)) w

  told_lem :
      (w : Machine D)
      → ((told w).broker.sent ≡ w.broker.sent)
        × ((told w).broker.raft.hard_state_dirty ≡ w.broker.raft.hard_state_dirty)
  unfolding note_commit take_ready
  told_lem w =
      if_intro
        (λ (b : Broker).
          (b.sent ≡ w.broker.sent) × (b.raft.hard_state_dirty ≡ w.broker.raft.hard_state_dirty))
        (leb (ready_of w).commit_index w.broker.last_commit_seen) _ _ (λ _. (refl, refl))
        (λ _. (refl, refl))

  ready_of-persist :
      (w : Machine D) → (ready_of w).persist_hard_state ≡ w.broker.raft.hard_state_dirty
  unfolding take_ready
  ready_of-persist w = refl

  paid_lem :
      (ms : List Message) (w : Machine D)
      → (send_all D ms
          (update D (λ b. set_raft (hard_state_persisted b.raft) b) w)).broker.raft.hard_state_dirty
        ≡ false
  unfolding hard_state_persisted
  paid_lem ms w = ap (λ n. n.hard_state_dirty) (send_all-raft D ms _)

  -- The disk refuses a log order: the broker stops, and says nothing.
  pub record Halted (entry : List ℕ) (w w' : Machine D) : Type 0 where
    pub reason : ErrorCode
    pub refused : (carry_out_log_orders D (ready_of w) entry (told w)).0 ≡ fail reason
    pub stopped : w'.broker.running ≡ false
    pub silent : w'.broker.sent ≡ w.broker.sent

  -- The disk refuses the state: the broker says nothing, and still owes it.
  pub record Owing (entry : List ℕ) (w w' : Machine D) : Type 0 where
    pub reason : ErrorCode
    pub refused :
        (persist D (ready_of w).hard_state (carry_out_log_orders D (ready_of w) entry (told w)).1).0
        ≡ fail reason
    pub owes : w'.broker.raft.hard_state_dirty ≡ w.broker.raft.hard_state_dirty
    pub silent : w'.broker.sent ≡ w.broker.sent

  -- All that had to be stored is, and nothing is owed.
  pub record Cleared (entry : List ℕ) (w w' : Machine D) : Type 0 where
    pub carried_out : (carry_out_log_orders D (ready_of w) entry (told w)).0 ≡ ok tt
    pub stored :
        (w.broker.raft.hard_state_dirty ≡ false)
        ⊎ ((persist D
              (ready_of w).hard_state
              (carry_out_log_orders D (ready_of w) entry (told w)).1).0
            ≡ ok tt)
    pub paid : w'.broker.raft.hard_state_dirty ≡ false

  abbrev pub Drives : List ℕ → Machine D → Machine D → Type 0
  Drives entry w w' =
      ((ready_is_empty (ready_of w) ≡ true) × (w'.broker.sent ≡ w.broker.sent))
      ⊎ (Halted entry w w' ⊎ (Owing entry w w' ⊎ Cleared entry w w'))

  after_persist :
      (entry : List ℕ) (w u : Machine D)
      → Frame D (told w) u
      → carry_out_log_orders D (ready_of w) entry (told w) ≡ (ok tt, u)
      → (x : Status × Machine D) → persist D (ready_of w).hard_state u ≡ x
      → Frame D u x.1
      → Drives entry w (sent_after D (ready_of w) x)
  after_persist entry w u f e (fail c, v) p g = inr (
      inr (
        inl (record {
          reason = c;
          refused = ap (λ y. (persist D (ready_of w).hard_state y.1).0) e ∙ ap (λ y. y.0) p;
          owes = ap (λ n. n.hard_state_dirty) (g.raft ∙ f.raft) ∙ (told_lem w).1;
          silent = g.sent ∙ f.sent ∙ (told_lem w).0;
        })))
  after_persist entry w u f e (ok t, v) p g = inr (
      inr (
        inr (record {
          carried_out = ap (λ y. y.0) e;
          stored = inr (ap (λ y. (persist D (ready_of w).hard_state y.1).0) e ∙ ap (λ y. y.0) p);
          paid = paid_lem (ready_of w).messages v;
        })))

  -- On any disk, what a broker sends it sends after the log orders were carried out and after a state
  -- that it owes was stored. Where the disk refuses an order, the broker stops, and where it refuses
  -- the state, the broker still owes it; either way nothing is sent.
  pub drive_broker-Drives :
      (entry : List ℕ) (w : Machine D) → Drives entry w (drive_broker D entry w)
  unfolding drive_broker
  drive_broker-Drives entry w =
      if_intro (Drives entry w) (ready_is_empty (ready_of w)) _ _ (λ h. inl (h, (told_lem w).0))
        (λ _.
          ordered (carry_out_log_orders D (ready_of w) entry (told w)) refl
            (carry_out_log_orders-Framed D (ready_of w) entry (told w)))
    where
      ordered :
          (x : Status × Machine D)
          → carry_out_log_orders D (ready_of w) entry (told w) ≡ x
          → Frame D (told w) x.1
          → Drives entry w (after_orders D (ready_of w) x)
      ordered (fail c, u) e f = inr (
          inl (record {
            reason = c;
            refused = ap (λ y. y.0) e;
            stopped = refl;
            silent = f.sent ∙ (told_lem w).0;
          }))
      ordered (ok t, u) e f =
          if_intro (Drives entry w) (ready_of w).persist_hard_state _ _
            (λ _. after_persist entry w u f e _ refl (persist-Framed D (ready_of w).hard_state u))
            (λ h. inr (
              inr (
                inr (record {
                  carried_out = ap (λ y. y.0) e;
                  stored = inl (sym (ready_of-persist w) ∙ h);
                  paid =
                      ap (λ n. n.hard_state_dirty)
                        (send_all-raft D (ready_of w).messages u ∙ f.raft)
                      ∙ (told_lem w).1
                      ∙ sym (ready_of-persist w)
                      ∙ h;
                }))))
