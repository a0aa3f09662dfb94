-- ===== src/Submitter.antt =====
-- submitter.py: the submitter that broadcasts through KeeperHub.
pub mod Types
pub mod Broadcast
pub mod Settle
pub mod Submit
pub mod Total
pub mod Ends
pub mod Bundle
pub mod Frames
pub mod Keys
pub mod Logged
pub mod Kept
pub mod Resume
pub mod Verdict
