-- ===== src/Protocol.antt =====
-- The shared wire vocabulary: src/protocol.
pub mod Reasons
pub mod Terms
pub mod Insurance
pub mod Freight
pub mod Canonical
pub mod Clock
pub mod Examples
