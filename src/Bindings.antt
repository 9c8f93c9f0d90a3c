-- ===== src/Bindings.antt =====
-- repositories/factoryFloorBindingRepository.ts: bindings of projects, surfaces and runs.
pub mod Rows
pub mod Repository
pub mod Runs
pub mod Tables
pub mod Candidates
pub mod Finds
pub mod Invariant
pub mod Retiring
pub mod Binding
pub mod Placing
pub mod Steps
pub mod Lookups
pub mod RoundTrip
mod Tests
