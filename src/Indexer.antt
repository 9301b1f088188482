-- ===== src/Indexer.antt =====
-- service/src/indexer/service.ts: how the indexer refreshes its stored events from the chain.
pub mod Store
pub mod Reorg
pub mod Refresh
pub mod Blocks
pub mod Ancestors
pub mod Rollback
pub mod Mirrors
pub mod Appends
pub mod Saves
pub mod Synced
pub mod Leaves
pub mod Quiet
pub mod Pending
pub mod Finality
pub mod Accounts
mod Tests
mod SweepTests
