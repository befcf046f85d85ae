-- ===== src/Venue/Status.antt =====
-- The status of a commitment in src/venue/state.ts.
pub data CommitmentStatus : Type 0 where
  active in_transit delivered completed voided : CommitmentStatus
