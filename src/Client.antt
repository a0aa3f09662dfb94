-- ===== src/Client.antt =====
-- client.py: the client of the KeeperHub Direct Execution API.
pub mod Calls
pub mod Bodies
pub mod Answers
pub mod Methods
pub mod Polling
pub mod Steps
pub mod Sends
pub mod Ends
pub mod Kinds
pub mod Ether
pub mod Deadline
pub mod Latch
