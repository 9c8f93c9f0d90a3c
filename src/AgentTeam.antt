-- ===== src/AgentTeam.antt =====
-- agentTeam/composition.ts: the agents of a team and the authority that each of them gets.
pub mod Contracts
pub mod Checks
pub mod Composition
pub mod Members
pub mod Sets
pub mod Maps
pub mod Authority
pub mod Agents
pub mod Guarantees
pub mod Totality
pub mod Teams
mod Tests
