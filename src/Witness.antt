-- ===== src/Witness.antt =====
-- Witnesses of the ledger and promises to write on it: src/protocol/witness.ts and inclusion.ts.
pub mod Receipts
pub mod Inclusion
mod Tests
