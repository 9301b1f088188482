-- ===== src/Submission/Record.antt =====
-- service/src/submissions/service.ts: the stored record of a submission.
pub mod Rows
pub mod Build
pub mod Defaults
pub mod Coherent
