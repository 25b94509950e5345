-- ===== src/Encoding.antt =====
-- internal/encoding: the binary form of records, as numbered fields.
pub mod Varint
pub mod Writer
pub mod Reader
pub mod Fields
pub mod Written
pub mod NextField
pub mod Reading
pub mod Values
pub mod Receipts
pub mod RoundTrip
pub mod EntryTrip
pub mod ReceiptTrip
pub mod Failures
pub mod Limits
mod Runs
