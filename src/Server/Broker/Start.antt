-- ===== src/Server/Broker/Start.antt =====
-- src/server/broker.cpp: Broker::start and Broker::load_hard_state, but for the listener and the timer.
use log_engine.Prelude.{ℕ, true, List, [], ◌∷◌, ◌++◌, map, ◌==◌, if◌then◌else◌, add_u64}
use mathlib.Core.List.{reverse}
use log_engine.Base.Error.{Result, ok, fail}
use log_engine.Io.Disk.{mode_create, Disk, Run, pure, ◌>>=◌, ask, lift}
use log_engine.Io.Paths.{slash}
use log_engine.Raft.Epochs.{restore_log}
use log_engine.Raft.Handlers.{new_node}
use log_engine.Raft.StateFile.{state_file_bytes, PersistedState, scan_state_file}
use log_engine.Raft.Types.{no_node, no_term, Epoch, HardState, Random}
use log_engine.Server.Broker.{state_file_name, default_index_interval_bytes, BrokerConfig, Broker}
use log_engine.Storage.Log.{Log}
use log_engine.Storage.Log.Open.{open_log}
use log_engine.Storage.Log.Read.{EpochBoundary, scan_epochs}

module _ (D : Disk) where
  abbrev pub next_sequence : Result PersistedState → Result (HardState × ℕ)
  next_sequence (fail c) = fail c
  next_sequence (ok s) = ok (s.hard, add_u64 s.sequence 1)

  -- The state that was recorded, and the number of the next write. An empty file is one that was
  -- never synced: this node never voted.
  unfoldable pub read_hard_state : ℕ → Run D.State (HardState × ℕ)
  read_hard_state file = ask (D.file_size file) >>= λ size.
      if size == 0
      then pure (record { term = no_term; voted_for = no_node }, 0)
      else D.pread file state_file_bytes 0 >>= λ got. lift (next_sequence (scan_state_file got))

  unfoldable pub load_hard_state : List ℕ → Run D.State (ℕ × HardState × ℕ)
  unfolding read_hard_state
  load_hard_state dir =
      D.open_file (dir ++ ((slash ∷ []) ++ state_file_name)) mode_create >>= λ file.
      read_hard_state file >>= λ (hard, sequence). pure (file, hard, sequence)

  abbrev pub epoch_from : EpochBoundary → Epoch
  epoch_from e = record { term = e.epoch; start = e.start_offset }

  abbrev pub new_broker :
      BrokerConfig → Random → Log → ℕ × HardState × ℕ → List EpochBoundary → Broker
  new_broker config rng log (file, hard, sequence) epochs = record {
    config = config;
    log = log;
    raft =
        restore_log log.next_offset (map epoch_from (reverse epochs))
          (new_node config.raft rng hard);
    state_file = file;
    state_sequence = sequence;
    last_commit_seen = 0;
    ticks = 0;
    appends = 0;
    raft_received = 0;
    hard_state_writes = 0;
    running = true;
    sent = [];
  }

  unfoldable pub start_broker : BrokerConfig → Random → Run D.State Broker
  unfolding load_hard_state
  start_broker config rng = do
    log ← open_log D config.data_dir config.segment_max_bytes default_index_interval_bytes
    loaded ← load_hard_state config.data_dir
    epochs ← scan_epochs D log
    pure (new_broker config rng log loaded epochs)
