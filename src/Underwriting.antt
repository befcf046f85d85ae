-- ===== src/Underwriting.antt =====
-- The guarantee: src/underwriting.
pub mod Types
pub mod Model
pub mod Claims
pub mod Engine
pub mod Quoting
pub mod Settlement
pub mod Run
mod Tests
