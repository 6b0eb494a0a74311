-- ===== src/Sim/Trace.antt =====
-- src/sim/trace.h and src/sim/trace.cpp: the trace of a run, its rolling hash and its last lines.
pub mod Ring
pub mod Hash
use log_engine.Prelude.{
  ℕ, zero, suc, ◌+◌, ◌*◌, ◌/◌, ◌%◌, ◌^◌, Bool, true, false, not, List, [], ◌∷◌, ◌++◌, ◌==◌,
  if◌then◌else◌, length, take, drop, replicate, write_at, add_u64,
}
use Prim.Native.Nat.{bit_xor}

pub data EventKind : Type 0 where
  timer : EventKind
  appended fsynced acked recovered : EventKind
  crashed restarted corrupted : EventKind
  connected accepted sent delivered reset dropped partition_start partition_end : EventKind
  campaigned vote elected step_down raft_persist raft_recover : EventKind
  replicate_entry truncated committed : EventKind

-- `static_cast<u32>(kind)`
unfoldable pub kind_number : EventKind → ℕ
kind_number timer = 1
kind_number appended = 10
kind_number fsynced = 11
kind_number acked = 12
kind_number recovered = 13
kind_number crashed = 20
kind_number restarted = 21
kind_number corrupted = 22
kind_number connected = 30
kind_number accepted = 31
kind_number sent = 32
kind_number delivered = 33
kind_number reset = 34
kind_number dropped = 35
kind_number partition_start = 36
kind_number partition_end = 37
kind_number campaigned = 40
kind_number vote = 41
kind_number elected = 42
kind_number step_down = 43
kind_number raft_persist = 44
kind_number raft_recover = 45
kind_number replicate_entry = 46
kind_number truncated = 47
kind_number committed = 48

pub record TraceEvent : Type 0 where
  pub time : ℕ
  pub node : ℕ
  pub kind : EventKind
  pub a : ℕ
  pub b : ℕ

abbrev pub empty_event : TraceEvent
empty_event = record { time = 0; node = 0; kind = timer; a = 0; b = 0 }

abbrev pub fnv_offset_basis : ℕ
fnv_offset_basis = 14695981039346656037

abbrev pub fnv_prime : ℕ
fnv_prime = 1099511628211

-- One turn of the loop of `mix`.
unfoldable pub mix_byte : ℕ → ℕ → ℕ
mix_byte hash byte = bit_xor hash byte * fnv_prime % 2 ^ 64

-- `count` turns, the lowest byte of what is left of the value first.
unfoldable pub mix_bytes : ℕ → ℕ → ℕ → ℕ
mix_bytes zero hash value = hash
mix_bytes (suc count) hash value = mix_bytes count (mix_byte hash (value % 256)) (value / 256)

unfoldable pub mix : ℕ → ℕ → ℕ
mix hash value = mix_bytes 8 hash value

unfoldable pub hash_event : ℕ → TraceEvent → ℕ
hash_event hash e = mix (mix (mix (mix (mix hash e.time) e.node) (kind_number e.kind)) e.a) e.b

pub record Trace : Type 0 where
  pub hash : ℕ
  pub count : ℕ
  pub recent_events : List TraceEvent
  pub next_slot : ℕ
  pub wrapped : Bool
  pub capture_all : Bool
  pub captured : List TraceEvent

unfoldable pub new_trace : ℕ → Trace
new_trace recent_capacity = record {
  hash = fnv_offset_basis;
  count = 0;
  recent_events = replicate (if recent_capacity == 0 then 1 else recent_capacity) empty_event;
  next_slot = 0;
  wrapped = false;
  capture_all = false;
  captured = [];
}

unfoldable pub record_event : TraceEvent → Trace → Trace
record_event e t =
    let slot : ℕ = (t.next_slot + 1) % length t.recent_events in
    record t {
      hash = hash_event t.hash e;
      count = add_u64 t.count 1;
      recent_events = write_at t.recent_events t.next_slot (e ∷ []);
      next_slot = slot;
      wrapped = if slot == 0 then true else t.wrapped;
      captured = if t.capture_all then t.captured ++ (e ∷ []) else t.captured;
    }

-- Oldest first.
unfoldable pub recent : Trace → List TraceEvent
recent t =
    if not t.wrapped
    then take t.next_slot t.recent_events
    else drop t.next_slot t.recent_events ++ take t.next_slot t.recent_events

unfoldable pub set_capture_all : Bool → Trace → Trace
set_capture_all on t = record t { capture_all = on }

-- A run of events.
unfoldable pub record_all : List TraceEvent → Trace → Trace
record_all [] t = t
record_all (e ∷ es) t = record_all es (record_event e t)
