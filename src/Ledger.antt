-- ===== src/Ledger.antt =====
-- The venue's record: src/ledger and src/protocol/audit.ts.
pub mod Chain
pub mod Audit
mod Tests
