-- ===== src/Reconcile.antt =====
-- service/src/reconcile/worker.ts: the worker that compares what the service recorded about its
-- transactions with receipts and with the projection of the chain.
pub mod Types
pub mod World
pub mod Outcome
pub mod Submissions
pub mod Registrations
pub mod Governance
pub mod Scan
pub mod Pass
pub mod Keeps
pub mod Visits
pub mod Grounds
pub mod Justified
pub mod Confirms
pub mod Accounted
pub mod AccountedLogs
pub mod Places
pub mod LogPlaces
pub mod Ends
pub mod Terminates
pub mod Labels
mod Tests
