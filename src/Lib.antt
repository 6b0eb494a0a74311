-- ===== src/Lib.antt =====
-- log-engine: the consensus core, the formats on the wire and on disk, and what they stand on.
--
-- The consensus core, src/raft/node.cpp, is a state machine with no clock, disk or socket: it is
-- ticked, it is given messages, and it hands out what has to be persisted and sent. Its driver,
-- src/server/broker.cpp, persists first and sends afterwards. The term and the vote are kept in the
-- two slots of raft.state (src/raft/state_file.cpp); messages travel as fixed headers with one record
-- batch behind (src/raft/codec.cpp) in frames (src/wire/frame.cpp). A record batch, one entry of the
-- log, is src/storage/record_batch.cpp; where its scan may start is src/storage/sparse_index.cpp. A
-- file of batches and its index are src/storage/segment.cpp, over the interface of src/io/disk.h; the
-- segments of a directory are a log, src/storage/log.cpp, which hands out the offsets.
--
--   Prelude        shared names, words, lists, maps, bit operations
--   Base           src/base
--     Error, Endian, Buffer, Crc32c
--                  error.h and result.h; endian.h; buffer.h; crc32c.cpp in the portable build
--   Io             src/io
--     Disk         disk.h: the interface, programs over it, what their callers rely on (Laws), and
--                  how a program is followed by that (Rules)
--     Paths, SimFile, SimDisk
--                  sim/sim_disk.cpp, the simulated disk: paths, one file, the disk, the disk as
--                  one of the interface, and what a dying process can do to it (Stale)
--   Raft           src/raft
--     Types, State, Epochs, Replication, Roles, Handlers
--                  types.h, node.h and node.cpp, one definition for each method
--     Outbox, Quiet, Speech, Moves, Progress
--                  what an operation says and does to the term and the vote
--     Ballots, Elections
--                  the votes that a node counts
--     Commit       the commit rule
--     Codec        codec.h and codec.cpp
--     StateFile    state_file.h and state_file.cpp
--     Cluster      any number of nodes under the driver, as a step relation, and election safety
--   Sim            src/sim
--     Trace        trace.h and trace.cpp: the hash and the last lines of a run
--     Scheduler    scheduler.h and scheduler.cpp: virtual time and the queue of events
--   Storage        src/storage
--     RecordBatch, SparseIndex, FileNames
--                  record_batch.h and record_batch.cpp; sparse_index.h and sparse_index.cpp; the names
--                  of the files in segment.cpp
--     Batches      the bytes of a segment as batches that follow one another
--     Segment      segment.h and segment.cpp, over any disk: append, fsync and the index here,
--                  Recover, Read and Cut for open, read and truncate_to; Valid says when a segment is
--                  in order, Durable puts it on the simulated disk
--     Log          log.h and log.cpp: append, roll and fsync here, Open, Cut and Read for open and
--                  the destructor, truncate_to, and what reads
--   Server         src/server
--     Broker       broker.h and broker.cpp: start, tick, propose, receive, drive, over any disk; Order is
--                  what comes before a message is sent, Vote the state file through a power cut
--   Wire           src/wire: Api is api.h, Frame is frame.h and frame.cpp
--
-- Numbers are natural numbers below the width of the field. Sums that can wrap do so in the model
-- (add_u32, add_u64). A slice is the list of its bytes, and a pointer into it a position.
-- The epochs are listed newest first, so `epochs_.back()` is the head, and the binary search of
-- term_at and epoch_start_at is the first epoch from the newest whose start is not past the index: the
-- epochs ascend, as node.h demands. io::Random is an interface: the answers are an arbitrary function
-- of the call's number.
-- In the cluster a sent message may arrive any number of times, in any order or never, and a node may
-- restart at any time with what its disk holds; a tick needs a term that can still be counted up.
-- Loops are structural recursion on the list or on the count of turns that the source computes.
--
-- A program over the disk is a function from the state of the disk to a result and the state after it.
-- The loops of a segment over its bytes have as many turns as there are bytes, which is enough, since a
-- batch is at least its header. A read returns the bytes that the code copies to the caller's buffer.
-- The laws of the disk do not hold of a disk whose files others change, or that returns less than it was
-- asked for without the end of the file or a fault.
--
-- The broker is one node with its log on a disk. A message that it sends joins a list, with its entry;
-- whether a connection carries it is not part of the model, and neither is the timer of the ticks.
--
-- The draws of the simulated disk are arbitrary answers by the number of the call.
-- The heap of the scheduler is the list in the order in which it is popped, which its total order
-- determines; what a callback does is a parameter. Simulated times are natural numbers, since they start
-- at 0 and only move forward, and none stands for kNoTimeout.
--
-- Not modelled: the simulated network and the simulator, the event loop, the connections of the broker
-- and what its observers are told, and the system calls of src/io/real.
-- The hardware path of the CRC rests on instructions of the processor.
pub mod Base
pub mod Io
pub mod Prelude
pub mod Raft
pub mod Server
pub mod Sim
pub mod Storage
pub mod Wire
