-- ===== src/Server/Broker/Loaded.antt =====
-- src/server/broker.cpp: Broker::load_hard_state reads what the state file holds.
use log_engine.Prelude.{
  ℕ, ◌≡◌, refl, sym, subst, List, arith, ◌==◌, if◌then◌else◌, if_intro, length, take_all, add_u64,
}
use log_engine.Base.Error.{Result, ok, fail}
use log_engine.Io.Disk.{Run, pure, carry_on, ◌>>=◌, lift}
use log_engine.Io.Disk.Laws.{Measures}
use log_engine.Io.Disk.Rules.{pread_rule}
use log_engine.Io.SimDisk.{SimDisk, pread, file_size}
use log_engine.Io.SimDisk.AsDisk.{sim_disk, IsOpen, HoldsBytes, IsSoundDisk, sim_view}
use log_engine.Io.SimDisk.Lawful.{sim_disk-IsDisk}
use log_engine.Raft.StateFile.{state_file_bytes, PersistedState, scan_state_file}
use log_engine.Raft.Types.{no_node, no_term, HardState}
use log_engine.Server.Broker.Start.{next_sequence, read_hard_state}

abbrev pub Loads : PersistedState → SimDisk → Result (HardState × ℕ) × SimDisk → Type 0
Loads s o (ok (hard, n), r) = (hard ≡ s.hard) × (n ≡ add_u64 s.sequence 1)
Loads s o (fail e, r) = ¬ IsSoundDisk o

pub read_hard_state-Loads :
    (o : SimDisk) (file : ℕ) (p b : List ℕ) (s : PersistedState)
    → IsOpen o file p
    → HoldsBytes o p b
    → length b ≡ state_file_bytes
    → scan_state_file b ≡ ok s
    → Loads s o (read_hard_state sim_disk file o)
unfolding read_hard_state
read_hard_state-Loads o file p b s opened stored long scanned =
    sized (file_size file o) (sim_disk-IsDisk.file_size-Measures file o p b opened stored)
  where
    next : ℕ → Run SimDisk (HardState × ℕ)
    next size =
        if size == 0
        then pure (record { term = no_term; voted_for = no_node }, 0)
        else pread file state_file_bytes 0 >>= λ got.
            lift (next_sequence sim_disk (scan_state_file got))

    sized :
        (m : Result ℕ)
        → Measures sim_view o b m
        → Loads s o (
            carry_on
              (m, o)
              (λ size.
                if size == 0
                then pure (record { term = no_term; voted_for = no_node }, 0)
                else pread file state_file_bytes 0 >>= λ got.
                    lift (next_sequence sim_disk (scan_state_file got))))
    sized (fail e) w = w
    sized (ok n) w =
        if_intro (λ (f : Run SimDisk (HardState × ℕ)). Loads s o (f o)) (n == 0) _ _
          (λ z. absurd (ground (arith, w, long)))
          (λ z.
            pread_rule sim_disk-IsDisk (Loads s o) file state_file_bytes 0 o p b
              (λ got. lift (next_sequence sim_disk (scan_state_file got))) opened stored
              (λ r k.
                subst (λ x. Loads s o (next_sequence sim_disk (scan_state_file x), r))
                  (sym (take_all state_file_bytes b (omega (arith, long))))
                  (subst (λ x. Loads s o (next_sequence sim_disk x, r)) (sym scanned) (refl, refl)))
              (λ e r k u. u))
