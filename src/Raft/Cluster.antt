-- ===== src/Raft/Cluster.antt =====
-- A cluster of the nodes of src/raft/node.cpp under the driver of src/server/broker.cpp, as a step
-- relation: any node may act next, a message that was ever sent may arrive at any time, any number
-- of times or never, and a node may lose power at any point.
pub mod Quorums
pub mod Votes
pub mod Local
pub mod Drive
pub mod Safety
pub mod Leaders
use log_engine.Prelude.{ℕ, ◌≡◌, Bool, List, [], ◌++◌, ◌==◌, if◌then◌else◌, In}
use log_engine.Raft.Epochs.{restore_log}
use log_engine.Raft.Handlers.{step, take_ready, hard_state_persisted, new_node}
use log_engine.Raft.Progress.{HasNextTerm}
use log_engine.Raft.Replication.{log_appended}
use log_engine.Raft.Roles.{tick}
use log_engine.Raft.State.{Node}
use log_engine.Raft.Types.{no_node, Epoch, HardState, Message, Config, Random}

-- The broker of one node: the node, and what its `raft.state` holds on the platter.
pub record Member : Type 0 where
  pub node : Node
  pub disk : HardState

-- `Broker::drive` with the log orders carried out: what has to be persisted is, then all is sent.
unfoldable pub drive : Member → Member × List Message
drive b =
    let (ready, n) = take_ready b.node in
    (
      if ready.persist_hard_state
          then record { node = hard_state_persisted n; disk = ready.hard_state }
          else record { node = n; disk = b.disk },
      ready.messages,
    )

-- `Broker::drive` where the disk refuses: nothing is sent, and the debt stays. The write may have
-- reached the platter all the same.
unfoldable pub drive_fails : Bool → Member → Member
drive_fails reached b =
    let (ready, n) = take_ready b.node in
    record { node = n; disk = if reached then ready.hard_state else b.disk }

-- Power loss and restart: the node is built again from `raft.state` and from whatever the log holds.
unfoldable pub restart : Random → ℕ → List Epoch → Member → Member
restart rng end epochs b = record b {
  node = restore_log end epochs (new_node b.node.config rng b.disk);
}

pub record Cluster : Type 0 where
  pub members : ℕ → Member
  -- every message that was ever sent
  pub sent : List Message

abbrev pub with_member : Cluster → ℕ → Member → Cluster
with_member s i b = record s { members = λ j. if j == i then b else s.members j }

abbrev pub with_node : Cluster → ℕ → Node → Cluster
with_node s i n = with_member s i (record (s.members i) { node = n })

module _ (ids : List ℕ) where
  pub data Step (s s' : Cluster) : Type 0 where
    ticks :
        (i : ℕ)
        → In i ids
        → HasNextTerm (s.members i).node
        → s' ≡ with_node s i (tick (s.members i).node)
        → Step s s'
    -- The sender's driver fills in the extent of the entry; no claim rests on the entry's fields.
    receives :
        (i entry_index entry_end entry_term : ℕ) (m : Message)
        → In i ids
        → In m s.sent
        → m.to ≡ i
        → s'
          ≡ with_node s i (
              step
                (record m {
                  entry_index = entry_index;
                  entry_end = entry_end;
                  entry_term = entry_term;
                })
                (s.members i).node)
        → Step s s'
    appends :
        (i index end term : ℕ)
        → In i ids
        → s' ≡ with_node s i (log_appended index end term (s.members i).node)
        → Step s s'
    drives :
        (i : ℕ)
        → In i ids
        → s' ≡ record (with_member s i (drive (s.members i)).0) {
          sent = s.sent ++ (drive (s.members i)).1;
        }
        → Step s s'
    fails :
        (i : ℕ) (reached : Bool)
        → In i ids
        → s' ≡ with_member s i (drive_fails reached (s.members i))
        → Step s s'
    restarts :
        (i : ℕ) (rng : Random) (end : ℕ) (epochs : List Epoch)
        → In i ids
        → s' ≡ with_member s i (restart rng end epochs (s.members i))
        → Step s s'

  pub data Reach (s : Cluster) : Cluster → Type 0 where
    here : Reach s s
    next : {t u : Cluster} → Reach s t → Step t u → Reach s u

-- Every node starts in term 0 with an empty log and no vote.
unfoldable pub first_state : (ℕ → Config) → (ℕ → Random) → Cluster
first_state configs rngs = record {
  members = λ i. record {
    node = new_node (configs i) (rngs i) (record { term = 0; voted_for = no_node });
    disk = record { term = 0; voted_for = no_node };
  };
  sent = [];
}
