-- ===== src/Merkle.antt =====
-- smt/managed: the stateful Merkle tree.
pub mod Hash
pub mod State
pub mod Forest
pub mod Root
pub mod Binding
pub mod Receipt
pub mod Cascade
pub mod Counter
pub mod Manager
pub mod Building
pub mod ReceiptList
pub mod Hasher
mod Tests
mod ManagerRuns
mod ListRuns
