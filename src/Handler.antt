-- ===== src/Handler.antt =====
-- src/collaboration/server/handler.rs and the message loop of src/collaboration/server/ws.rs:
-- the collaboration server, an operation to a function of its state; the proofs are below it.
pub mod State
pub mod Teams
pub mod Tasks
pub mod Timeouts
pub mod Dispatch
pub mod Reading
pub mod Claims
pub mod Kept
pub mod Invariants
pub mod Coherence
pub mod Ghosts
pub mod FirstTeam
pub mod Release
pub mod Interleaved
pub mod Tests
