-- ===== src/Pbft.antt =====
-- The PBFT core of the validating peer (consensus/obcpbft).
pub mod Messages
pub mod State
pub mod Quorum
pub mod Receive
pub mod Agreement
pub mod Checkpoint
pub mod NewView
pub mod Leave
pub mod ViewChange
pub mod Replica
pub mod Batch
pub mod Executor
mod Tests
