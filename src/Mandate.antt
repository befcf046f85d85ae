-- ===== src/Mandate.antt =====
-- A principal's mandate: src/mandate.
pub mod Limits
pub mod Exposure
pub mod Engine
mod Tests
