-- ===== src/Server/Broker/Stored.antt =====
-- src/server/broker.cpp: a write of the state that Broker::persist reports as done was whole, and synced.
use log_engine.Prelude.{
  ℕ, ◌≡◌, refl, sym, ap, subst, ◌∙◌, true, false, not, List, arith, ◌==◌, if◌then◌else◌, if_intro,
  length, replicate, add_u64,
}
use log_engine.Base.Error.{io_error, Result, ok, fail, Status}
use log_engine.Io.Disk.{Run, refuse, carry_on, perform}
use log_engine.Io.SimDisk.{SimDisk, pwrite, fsync}
use log_engine.Io.SimDisk.AsDisk.{sim_disk}
use log_engine.Raft.StateFile.{state_slot_bytes, state_slot_offset, encode_state_slot}
use log_engine.Raft.Types.{HardState}
use log_engine.Server.Broker.{Broker, Machine, update, write_slot, persist}

-- A write that was reported as done was whole, and synced.
pub record Stored (d : SimDisk) (file pos : ℕ) (slot : List ℕ) (r : SimDisk) : Type 0 where
  pub written : (pwrite file slot pos d).0 ≡ ok (length slot)
  pub synced : (fsync file (pwrite file slot pos d).1).0 ≡ ok tt
  pub result : r ≡ (fsync file (pwrite file slot pos d).1).1

write_slot-Stored :
    (d : SimDisk) (file sequence : ℕ) (slot : List ℕ)
    → (write_slot sim_disk true file sequence slot d).0 ≡ ok tt
    → Stored d file
        (state_slot_offset sequence)
        slot
        (write_slot sim_disk true file sequence slot d).1
unfolding write_slot
write_slot-Stored d file sequence slot =
    stored (pwrite file slot (state_slot_offset sequence) d) refl
  where
    stored :
        (x : Result ℕ × SimDisk)
        → pwrite file slot (state_slot_offset sequence) d ≡ x
        → (carry_on x (λ n. if not (n == length slot) then refuse io_error else fsync file)).0
          ≡ ok tt
        → Stored d file
            (state_slot_offset sequence)
            slot
            (carry_on x (λ n. if not (n == length slot) then refuse io_error else fsync file)).1
    stored (fail c, r) e k = absurd (ground (arith, k))
    stored (ok n, r) e k =
        if_intro
          (λ (f : Run SimDisk (Unit {0})).
            (f r).0 ≡ ok tt → Stored d file (state_slot_offset sequence) slot (f r).1)
          (not (n == length slot)) (refuse io_error) (fsync file)
          (λ t j. absurd (ground (arith, j)))
          (λ t j. record {
            written = ap (λ x. x.0) e ∙ ap (λ m. ok m) (same n t);
            synced = ap (λ x. (fsync file x.1).0) e ∙ j;
            result = sym (ap (λ x. (fsync file x.1).1) e);
          })
          k
      where
        same : (n : ℕ) → not (n == length slot) ≡ false → n ≡ length slot
        same n t = ground arith

pub persist_lem :
    (h : HardState) (w : Machine sim_disk)
    → w.broker.config.fsync_hard_state ≡ true
    → (persist sim_disk h w).0 ≡ ok tt
    → Stored w.disk w.broker.state_file
        (state_slot_offset w.broker.state_sequence)
        (encode_state_slot (replicate state_slot_bytes 0) h w.broker.state_sequence)
        (persist sim_disk h w).1.disk
unfolding persist
persist_lem h w q e =
    let slot : List ℕ =
      encode_state_slot (replicate state_slot_bytes 0) h w.broker.state_sequence in
    let x =
      write_slot sim_disk w.broker.config.fsync_hard_state w.broker.state_file
        w.broker.state_sequence slot w.disk in
    let (done, same) = reported x e in
    subst (Stored w.disk w.broker.state_file (state_slot_offset w.broker.state_sequence) slot)
      (sym same)
      (subst
        (λ fsync.
          (write_slot sim_disk fsync w.broker.state_file w.broker.state_sequence slot w.disk).0
            ≡ ok tt
          → Stored w.disk w.broker.state_file (state_slot_offset w.broker.state_sequence) slot
              (write_slot sim_disk fsync w.broker.state_file w.broker.state_sequence slot w.disk).1)
        (sym q) (write_slot-Stored w.disk w.broker.state_file w.broker.state_sequence slot) done)
  where
    count : Broker → Broker
    count b = record b {
      state_sequence = add_u64 b.state_sequence 1;
      hard_state_writes = add_u64 b.hard_state_writes 1;
    }

    reported :
        (x : Status × SimDisk)
        → (carry_on {S = Machine sim_disk} {A = Unit {0}}
            (x.0, record { disk = x.1; broker = w.broker })
            (λ u. perform (
              update sim_disk (λ b. record b {
                state_sequence = add_u64 b.state_sequence 1;
                hard_state_writes = add_u64 b.hard_state_writes 1;
              })))).0
          ≡ ok tt
        → (x.0 ≡ ok tt)
          × ((carry_on {S = Machine sim_disk} {A = Unit {0}}
                (x.0, record { disk = x.1; broker = w.broker })
                (λ u. perform (
                  update sim_disk (λ b. record b {
                    state_sequence = add_u64 b.state_sequence 1;
                    hard_state_writes = add_u64 b.hard_state_writes 1;
                  })))).1.disk
              ≡ x.1)
    reported (ok u, r) k = (refl, refl)
    reported (fail c, r) k = absurd (ground (arith, k))
