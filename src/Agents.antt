-- ===== src/Agents.antt =====
-- The agents' private strategies: src/agents.
pub mod Money
pub mod Broker
pub mod Carrier
mod Tests
