-- ===== src/Chain.antt =====
-- internal/chain: the executors of transactions.
pub mod KeyPages
pub mod Tokens
pub mod Locks
pub mod Credits
pub mod AccountAuth
mod Tests
mod Runs
mod CreditRuns
