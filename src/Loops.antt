-- ===== src/Loops.antt =====
-- repositories/loopRepository.ts and services/scheduledLoopService.ts: scheduled loops.
pub mod Rows
pub mod Repository
pub mod Steps
pub mod Soundness
pub mod Rules
pub mod Service
pub mod Outside
pub mod Waiting
pub mod Survival
pub mod Reconcile
pub mod Resumption
mod Tests
