-- ===== src/Ledger.antt =====
-- The ledger's state, core/ledger/statemgmt.
pub mod Text
pub mod Bytes
pub mod Delta
pub mod State
pub mod BucketTree
pub mod Block
pub mod Blockchain
pub mod TxBatch
mod Tests
