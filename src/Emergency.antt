-- ===== src/Emergency.antt =====
-- The ledger of emergency grants, src/emergency.mts: an append-only file of hash-chained records
-- with a checkpoint of its head, and the commands that open, use and close a grant.
pub mod Record
pub mod Open
pub mod Ledger
pub mod Grants
pub mod Invariant
pub mod Expiry
pub mod Evaluate
pub mod Lifecycle
pub mod Closing
pub mod Using
pub mod Commands
pub mod Use
pub mod Lock
pub mod Tests
