-- ===== src/Db.antt =====
-- src/collaboration/server/db.rs: the tables of the collaboration server, a module for each group
-- of methods, and the proofs about them.
pub mod Schema
pub mod Teams
pub mod Devices
pub mod Tasks
pub mod Messages
pub mod Integrity
pub mod Reading
pub mod NewTask
pub mod Waiting
pub mod Tests
