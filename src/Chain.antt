-- ===== src/Chain.antt =====
-- service/src/shared/types.ts, service/src/indexer/events.ts and
-- service/src/indexer/projections/task.ts: the order of chain facts, the set of events that are
-- active, and when a task counts as submitted.
pub mod Pointers
pub mod Transitive
pub mod Replay
pub mod Active
pub mod Tasks
pub mod Earliest
pub mod Signals
pub mod Refresh
pub mod Sourced
mod Tests
