-- ===== src/Launches.antt =====
-- repositories/factoryFloorLaunchRepository.ts: launch states of the Factory Floor activity.
pub mod Rows
pub mod Validation
pub mod Repository
pub mod Rules
mod Tests
