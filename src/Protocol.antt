-- ===== src/Protocol.antt =====
-- protocol: the accounts and what can be done to each.
pub mod Accounts
pub mod Auth
pub mod Keys
pub mod Access
pub mod Fees
pub mod Lite
mod Tests
