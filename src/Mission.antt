-- ===== src/Mission.antt =====
-- missions/missionLifecycle.ts: the mission records, their state machine and the repository.
pub mod Record
pub mod Transition
pub mod Repository
pub mod Snapshot
pub mod Consistency
pub mod Promotion
pub mod Lifecycle
pub mod History
pub mod Restore
pub mod RoundTrip
pub mod Validity
mod Tests
