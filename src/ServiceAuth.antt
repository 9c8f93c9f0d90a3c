-- ===== src/ServiceAuth.antt =====
-- factoryFloor/serviceAuth.ts: signed requests between the agent and Factory Floor.
pub mod Decimal
pub mod Header
pub mod Nonces
pub mod Verify
pub mod Replay
pub mod RoundTrip
pub mod Acceptance
mod Tests
