-- ===== src/Identity.antt =====
-- The part of src/identity that judges a credential by itself.
pub mod Verifier
mod Tests
