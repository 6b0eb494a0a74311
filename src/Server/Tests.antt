-- ===== src/Server/Tests.antt =====
-- A broker that is about to say that it voted.
use log_engine.Prelude.{
  ℕ, ◌+◌, ◌≡◌, refl, ap, subst, ◌∙◌, true, false, some, List, [], ◌∷◌, ◌++◌, arith, length, take,
  replicate, length-append, take_front, lookup,
}
use log_engine.Base.Endian.{store_u32_le}
use log_engine.Base.Error.{ok}
use log_engine.Io.Disk.{mode_create}
use log_engine.Io.Paths.{same_path, normalize, has_path, find_path, change_path}
use log_engine.Io.Paths.Find.{same_path_self}
use log_engine.Io.SimDisk.{SimDisk, new_disk, resolve, pwrite, fsync}
use log_engine.Io.SimDisk.AsDisk.{sim_disk}
use log_engine.Io.SimDisk.Reopen.{after_power_cut}
use log_engine.Io.SimDisk.Sound.{IsSound}
use log_engine.Io.SimFile.{File, DiskRandom, apply_writes}
use log_engine.Raft.Handlers.{new_node}
use log_engine.Raft.State.{Node}
use log_engine.Raft.StateFile.{
  state_file_bytes, PersistedState, store_state, encode_state_slot, decode_state_slot,
}
use log_engine.Raft.StateFile.RoundTrip.{
  decode_state_slot-encode_state_slot, length-encode_state_slot,
}
use log_engine.Raft.StateFile.Torn.{slot_of}
use log_engine.Raft.Types.{HardState, Config}
use log_engine.Server.Broker.{Machine, write_slot, persist, drive_broker}
use log_engine.Server.Broker.Order.{Drives, drive_broker-Drives}
use log_engine.Server.Broker.Start.{load_hard_state}
use log_engine.Server.Broker.Vote.{state_path, HasState, Remembers, persist-Remembers}
use log_engine.Storage.Log.{Log}
use log_engine.Storage.Log.Open.{no_log_report}
use log_engine.Storage.Segment.Recover.{new_segment}

abbrev directory : List ℕ
directory = 100 ∷ []

abbrev place : List ℕ
place = normalize (state_path directory)

abbrev no_bytes : List ℕ
no_bytes = replicate 32 0

abbrev old_vote : PersistedState
old_vote = record { hard = record { term = 5; voted_for = 2 }; sequence = 8 }

abbrev new_vote : HardState
new_vote = record { term = 6; voted_for = 1 }

abbrev state_bytes : List ℕ
state_bytes = encode_state_slot no_bytes old_vote.hard 8 ++ no_bytes

state_bytes-length : length state_bytes ≡ state_file_bytes
state_bytes-length =
    length-append (encode_state_slot no_bytes old_vote.hard 8) no_bytes
    ∙ ap (λ n. n + 32) (length-encode_state_slot no_bytes old_vote.hard 8 refl)

state_bytes-decodes : decode_state_slot (slot_of state_bytes 8) ≡ ok old_vote
state_bytes-decodes =
    ap decode_state_slot (
      subst (λ n. take n state_bytes ≡ encode_state_slot no_bytes old_vote.hard 8)
        (length-encode_state_slot no_bytes old_vote.hard 8 refl)
        (take_front (encode_state_slot no_bytes old_vote.hard 8) no_bytes))
    ∙ decode_state_slot-encode_state_slot no_bytes old_vote.hard 8 refl (omega arith) (omega arith)
        (omega arith)

abbrev calm : DiskRandom
calm = record { flip = λ i c. false; draw = λ i b. 0; position = 0 }

abbrev state_file : File
state_file = record { durable = state_bytes; visible = state_bytes; pending = [] }

abbrev disk : SimDisk
disk = record (new_disk calm) {
  files = (place, state_file) ∷ [];
  open_files = (0, record { path = place; mode = mode_create }) ∷ [];
  next_id = 1;
}

abbrev log : Log
log = record {
  dir = directory;
  segment_max_bytes = 1000;
  index_interval_bytes = 4096;
  active = new_segment directory 0 1000 4096 1;
  older = [];
  start_offset = 0;
  next_offset = 0;
  recovery = no_log_report;
}

abbrev config : Config
config = record {
  id = 1;
  peers = 2 ∷ 3 ∷ [];
  election_timeout_ticks = 15;
  election_timeout_jitter_ticks = 15;
  heartbeat_timeout_ticks = 5;
}

abbrev node : Node
node = record (new_node config (record { draw = λ i b. 0; position = 0 }) new_vote) {
  hard_state_dirty = true;
}

abbrev machine : Machine sim_disk
machine = record {
  disk = disk;
  broker = record {
    config = record {
      data_dir = directory;
      raft = config;
      segment_max_bytes = 1000;
      fsync_hard_state = true;
      ack_on_local_append = false;
    };
    log = log;
    raft = node;
    state_file = 0;
    state_sequence = 9;
    last_commit_seen = 0;
    ticks = 0;
    appends = 0;
    raft_received = 0;
    hard_state_writes = 0;
    running = true;
    sent = [];
  };
}

drive_broker-Drives_example : Drives sim_disk [] machine (drive_broker sim_disk [] machine)
drive_broker-Drives_example = drive_broker-Drives sim_disk [] machine

state_found : find_path place disk.files ≡ some state_file
unfolding find_path
state_found = rw (same_path_self place) refl

machine-HasState : HasState machine state_bytes old_vote
unfolding lookup
machine-HasState = record {
  handle = record {
    handle = record { path = place; mode = mode_create };
    opened = refl;
    place = refl;
    writes = refl;
    numbered = omega arith;
  };
  bytes = record { file = state_file; found = state_found; reads = refl };
  slots = state_bytes-length;
  decodes = state_bytes-decodes;
  sequence = refl;
  counted = omega arith;
}

disk-IsSound : IsSound disk
unfolding apply_writes
disk-IsSound = (refl, tt)

no_directory : has_path place disk.dirs ≡ false
unfolding has_path same_path normalize
no_directory = refl

reported : (persist sim_disk new_vote machine).0 ≡ ok tt
unfolding persist write_slot pwrite fsync resolve find_path change_path lookup same_path normalize
    encode_state_slot store_u32_le store_state
reported = refl

persist-Remembers_example :
    Remembers new_vote 9 (after_power_cut (persist sim_disk new_vote machine).1.disk) (
      load_hard_state sim_disk directory
        (after_power_cut (persist sim_disk new_vote machine).1.disk))
persist-Remembers_example =
    persist-Remembers machine state_bytes old_vote new_vote machine-HasState disk-IsSound
      no_directory (omega arith) refl (omega arith) (omega arith) reported
