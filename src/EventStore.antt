-- ===== src/EventStore.antt =====
-- The event log of src/event-store.mjs.
pub mod Event
pub mod Validate
pub mod Files
pub mod Verify
pub mod Index
pub mod Append
pub mod HeadRepair
pub mod Build
pub mod Chain
pub mod Listing
pub mod Lookup
pub mod Synced
pub mod Log
pub mod Refine
pub mod Repair
pub mod Quarantine
pub mod Batches
pub mod Readers
pub mod Tests
