-- ===== src/Server/Broker/Frames.antt =====
-- src/server/broker.cpp: what the steps of Broker::drive leave of the node and of what was sent.
use log_engine.Prelude.{ℕ, ◌≡◌, refl, ◌∙◌, not, List, [], ◌∷◌, ◌==◌, if_intro, is_empty, replicate}
use log_engine.Base.Error.{Result, ok, fail, Status}
use log_engine.Io.Disk.{Disk, Run}
use log_engine.Io.Disk.Rules.{bind_lem}
use log_engine.Raft.StateFile.{state_slot_bytes, encode_state_slot}
use log_engine.Raft.Types.{no_index, HardState, Message, carries_entry, Ready}
use log_engine.Server.Broker.{
  entry_scratch_bytes, Broker, Machine, is_peer, ask_disk, on_log, write_slot, persist,
  truncate_order, append_order, carry_out_log_orders, read_entry, hand_framed, send_entry,
  send_raft, send_all,
}
use log_engine.Storage.Log.{append_replicated}
use log_engine.Storage.Log.Read.{read_log}
use log_engine.Storage.RecordBatch.{BatchHeader, decode_header}

module _ (D : Disk) where
  -- What a step of the drive leaves of the broker.
  pub record Frame (w w' : Machine D) : Type 0 where
    pub sent : w'.broker.sent ≡ w.broker.sent
    pub raft : w'.broker.raft ≡ w.broker.raft

  Frame-trans : {w v u : Machine D} → Frame w v → Frame v u → Frame w u
  Frame-trans f g = record { sent = g.sent ∙ f.sent; raft = g.raft ∙ f.raft }

  Frame-refl : (w : Machine D) → Frame w w
  Frame-refl w = record { sent = refl; raft = refl }

  pub carry_out_log_orders-Framed :
      (ready : Ready) (entry : List ℕ) (w : Machine D)
      → Frame w (carry_out_log_orders D ready entry w).1
  unfolding carry_out_log_orders truncate_order append_order
  carry_out_log_orders-Framed ready entry w =
      bind_lem (λ (x : Status × Machine D). Frame w x.1) (truncate_order D ready w) _
        (λ u _. Frame-trans truncated (appended _)) (λ c _. truncated)
    where
      truncated : Frame w (truncate_order D ready w).1
      truncated =
          if_intro (λ (m : Run (Machine D) (Unit {0})). Frame w (m w).1)
            (ready.truncate_from == no_index) _ _ (λ _. Frame-refl w)
            (λ _. record { sent = refl; raft = refl })

      appended : (v : Machine D) → Frame v (append_order D ready entry v).1
      appended v =
          if_intro (λ (m : Run (Machine D) (Unit {0})). Frame v (m v).1) (not ready.append_entry) _
            _ (λ _. Frame-refl v)
            (λ _.
              if_intro (λ (m : Run (Machine D) (Unit {0})). Frame v (m v).1) (is_empty entry) _ _
                (λ _. Frame-refl v)
                (λ _.
                  bind_lem (λ (x : Status × Machine D). Frame v x.1)
                    (on_log D (append_replicated D entry) v) _
                    (λ _ _. record { sent = refl; raft = refl })
                    (λ _ _. record { sent = refl; raft = refl })))

  pub persist-Framed : (h : HardState) (w : Machine D) → Frame w (persist D h w).1
  unfolding persist
  persist-Framed h w =
      bind_lem (λ (x : Status × Machine D). Frame w x.1)
        (ask_disk D
          (write_slot D w.broker.config.fsync_hard_state w.broker.state_file w.broker.state_sequence
            (encode_state_slot (replicate state_slot_bytes 0) h w.broker.state_sequence))
          w)
        _ (λ _ _. record { sent = refl; raft = refl }) (λ _ _. record { sent = refl; raft = refl })

  read_entry-raft :
      (index : ℕ) (w : Machine D) → (read_entry D index w).1.broker.raft ≡ w.broker.raft
  unfolding read_entry
  read_entry-raft index w =
      bind_lem Same (ask_disk D (read_log D w.broker.log index entry_scratch_bytes) w) _
        (λ got _.
          if_intro
            (λ (f : Run (Machine D) (List ℕ)).
              Same (f (ask_disk D (read_log D w.broker.log index entry_scratch_bytes) w).1))
            (is_empty got) _ _ (λ _. refl) (λ _. refl))
        (λ _ _. refl)
    where
      Same : Result (List ℕ) × Machine D → Type 0
      Same x = x.1.broker.raft ≡ w.broker.raft

  send_raft-raft : (m : Message) (w : Machine D) → (send_raft D m w).broker.raft ≡ w.broker.raft
  unfolding send_raft
  send_raft-raft m w =
      if_intro Same (not (is_peer m.to w.broker.config.raft.peers)) _ _ (λ _. refl)
        (λ _.
          if_intro Same (carries_entry m) _ _ (λ _. entry_sent _ (read_entry-raft m.entry_index w))
            (λ _. refl))
    where
      Same : Machine D → Type 0
      Same v = v.broker.raft ≡ w.broker.raft

      framed_sent :
          (entry : List ℕ) (r : Result BatchHeader) (b : Broker)
          → (hand_framed D m entry r b).raft ≡ b.raft
      framed_sent entry (ok h) b = refl
      framed_sent entry (fail c) b = refl

      entry_sent :
          (x : Result (List ℕ) × Machine D)
          → x.1.broker.raft ≡ w.broker.raft
          → Same (send_entry D m x)
      entry_sent (fail c, v) e = e
      entry_sent (ok entry, v) e = framed_sent entry (decode_header entry) v.broker ∙ e

  pub send_all-raft :
      (ms : List Message) (w : Machine D) → (send_all D ms w).broker.raft ≡ w.broker.raft
  unfolding send_all
  send_all-raft [] w = refl
  send_all-raft (m ∷ ms) w = send_all-raft ms (send_raft D m w) ∙ send_raft-raft m w
