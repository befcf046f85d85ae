-- ===== src/Protocol/Freight.antt =====
-- The lifecycle vocabulary of src/protocol/freight.ts.

pub data LifecycleEventType : Type 0 where
  picked_up delivered pod delivery_accepted dispute_opened dispute_closed paid : LifecycleEventType
