-- ===== src/Submission.antt =====
-- service/src/submissions: product submissions, from the prepared signature to the stored record.
pub mod Types
pub mod Record
pub mod Store
pub mod World
pub mod Submit
pub mod Broadcast
pub mod Finish
pub mod Evidence
pub mod Task
pub mod Prepare
pub mod Keeps
pub mod Used
pub mod Once
pub mod Nonce
pub mod Access
mod Tests
