-- ===== src/Sim.antt =====
-- src/sim: the event queue of the simulation and the trace that checks that a run repeats.
pub mod Trace
pub mod Scheduler
mod Tests
