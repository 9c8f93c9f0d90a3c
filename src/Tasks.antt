-- ===== src/Tasks.antt =====
-- repositories/taskRepository.ts and coordinator/taskRecovery.ts: stored tasks and their recovery.
pub mod Rows
pub mod Status
pub mod Select
pub mod Repository
pub mod Changes
pub mod Soundness
pub mod Upkeep
pub mod Moves
pub mod History
pub mod Rules
pub mod Lifecycle
pub mod RoundTrip
pub mod Recovery
pub mod Recoverable
pub mod Recovered
mod Codec
mod Tests
