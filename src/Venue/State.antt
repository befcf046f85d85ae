-- ===== src/Venue/State.antt =====
-- The state of src/venue/state.ts and src/venue/service.ts that a negotiation and a commitment's life read
-- and write. Times are milliseconds; the audit log and the delivery of notices are left out.
use agentic_freight_venue.Common.{ℕ, Bool, Option, List, String, Keyed, lookup, or_else}
use agentic_freight_venue.Protocol.Reasons.{ReasonCode}
use agentic_freight_venue.Protocol.Freight.{LifecycleEventType}
use agentic_freight_venue.Mandate.Exposure.{ExposureBook, empty_book}
use agentic_freight_venue.Underwriting.Engine.{Underwriting}
use agentic_freight_venue.Ledger.Chain.{LedgerEntry}
pub use agentic_freight_venue.Venue.Status.{
  CommitmentStatus, active, in_transit, delivered, completed, voided,
}
use agentic_freight_venue.Protocol.Canonical.{Json}
use agentic_freight_venue.Venue.Task.{
  RegisteredAgent, NegotiationTask, PendingNotice, CommitJournal, Renewal,
}

pub record LifecycleEvent : Type 0 where
  pub event : LifecycleEventType
  pub by : String
  pub at : ℕ
  pub recorded_at : ℕ
  pub ledger_seq : ℕ
  pub evidence_hash : Option String
  pub note : Option String

-- Why and when a commitment was voided.
pub record Voiding : Type 0 where
  pub at : ℕ
  pub reason_code : ReasonCode
  pub evidence : Keyed Json

-- Of the artifact, the end of the delivery window and whether the load may be subcontracted; of the pickup
-- window, its day.
pub record CommitmentRecord : Type 0 where
  pub commitment_id : String
  pub task_id : String
  pub load_ref : String
  pub load_fingerprint : String
  pub subcontract_permitted : Bool
  pub broker_agent_id : String
  pub carrier_agent_id : String
  pub broker_usdot : String
  pub carrier_usdot : String
  pub rate : ℕ
  pub pickup_day : String
  pub delivery_window_end : ℕ
  pub status : CommitmentStatus
  pub lifecycle : List LifecycleEvent
  pub guarantee_id : Option String
  pub voiding : Option Voiding
  pub renewal : Option Renewal

pub record VoidJournal : Type 0 where
  pub commitment_id : String
  pub written_at : ℕ
  pub reason_code : ReasonCode
  pub evidence : Keyed Json

-- The journals on voidings and on commits share a directory; a commitment's identifier is new, so they are
-- kept apart here.
pub record Venue : Type 0 where
  pub agents : Keyed RegisteredAgent
  pub tasks : Keyed NegotiationTask
  pub outbox : List PendingNotice
  pub commit_journals : Keyed CommitJournal
  pub commitments : Keyed CommitmentRecord
  pub journals : Keyed VoidJournal
  pub exposures : Keyed ExposureBook
  pub underwriting : Underwriting
  pub ledger : List LedgerEntry

-- `exposureFor`: the book of an agent, a new one where there is none.
abbrev pub exposure_for : String → Keyed ExposureBook → ExposureBook
exposure_for agent books = or_else (lookup agent books) empty_book
