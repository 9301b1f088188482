-- ===== src/Relay.antt =====
-- service/src/submissions/safe-broadcast-adapter.ts: the adapter that wraps a broadcast adapter, with
-- duplicate checks, a retry limit and limits on broadcasts in flight.
pub mod Slots
pub mod Results
pub mod Adapter
pub mod System
pub mod Counts
pub mod InFlight
pub mod Retry
pub mod Classify
pub mod Verdict
mod Tests
