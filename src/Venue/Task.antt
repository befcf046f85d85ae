-- ===== src/Venue/Task.antt =====
-- The negotiations of src/venue/state.ts, the notices that the venue owes, and the registered agents, with
-- the task states of src/protocol/a2a.ts. A point in time is its number of milliseconds; of a message, an
-- acceptance keeps the accepted terms, their hash and the credential that signed.
use agentic_freight_venue.Common.{ℕ, Bool, true, false, Option, List, String, Keyed}
use agentic_freight_venue.Protocol.Reasons.{ReasonCode}
use agentic_freight_venue.Protocol.Canonical.{Json}
use agentic_freight_venue.Protocol.Freight.{LifecycleEventType}
use agentic_freight_venue.Protocol.Terms.{Window, LoadSpec, Terms}
use agentic_freight_venue.Protocol.Insurance.{InsurerAttestation}
use agentic_freight_venue.Mandate.Limits.{EnvelopeLimits}
use agentic_freight_venue.Underwriting.Engine.{QuotedGuarantee}
use agentic_freight_venue.Venue.Status.{CommitmentStatus}

pub data TaskState : Type 0 where
  submitted working input_required auth_required completed rejected canceled failed : TaskState

-- `TERMINAL_STATES.includes(state)`
abbrev pub is_terminal : TaskState → Bool
is_terminal submitted = false
is_terminal working = false
is_terminal input_required = false
is_terminal auth_required = false
is_terminal completed = true
is_terminal rejected = true
is_terminal canceled = true
is_terminal failed = true

pub data NegotiationStatus : Type 0 where
  negotiating countersign committed failed rejected canceled : NegotiationStatus

pub record Offer : Type 0 where
  pub rate : ℕ
  pub pickup : Window
  pub delivery : Window
  pub payment_terms_days : ℕ

pub record OnTable : Type 0 where
  pub offer : Offer
  pub by : String
  pub round : ℕ

pub record Acceptance : Type 0 where
  pub terms : Terms
  pub terms_hash : String
  pub credential_id : String

pub record TaskOutcome : Type 0 where
  pub reason_code : ReasonCode
  pub refused_by : String
  pub evidence : Keyed Json
  pub guarantee_would_have_paid : String

-- What a party is told of a load's life.
pub record LifecycleNotice : Type 0 where
  pub load_ref : String
  pub commitment_id : String
  pub event : LifecycleEventType
  pub by : String
  pub at : ℕ
  pub status : CommitmentStatus
  pub ledger_seq : ℕ
  pub evidence_hash : Option String

-- What the venue tells a party.
pub data Notice : Type 0 where
  refused : ReasonCode → Keyed Json → Notice
  committed : String → String → Notice
  lifecycle : LifecycleNotice → Notice
  voided : String → String → ReasonCode → Keyed Json → Notice

-- `task.id`, `task.status.state` and `task.status.message` stand beside the venue's own fields.
pub record NegotiationTask : Type 0 where
  pub id : String
  pub state : TaskState
  pub message : Option Notice
  pub load_ref : String
  pub load : LoadSpec
  pub broker_agent_id : String
  pub carrier_agent_id : String
  pub round : ℕ
  pub created_at : ℕ
  pub awaiting : String
  pub awaiting_since : ℕ
  pub on_table : Option OnTable
  pub acceptances : Keyed Acceptance
  pub status : NegotiationStatus
  pub outcome : Option TaskOutcome
  pub commitment_id : Option String

pub record RegisteredAgent : Type 0 where
  pub agent_id : String
  pub credential_id : String
  pub previous_credential_ids : List String
  pub envelope : Option EnvelopeLimits
  pub insurer_attestation : Option InsurerAttestation

pub record PendingNotice : Type 0 where
  pub to_agent_id : String
  pub notice : Notice

-- A renewal that a commitment is conditional on.
pub record Renewal : Type 0 where
  pub earliest_signed_at : ℕ
  pub due_by : ℕ

-- Of the artifact, the terms, their hash, its own hash and the renewal.
pub record CommitJournal : Type 0 where
  pub commitment_id : String
  pub task_id : String
  pub written_at : ℕ
  pub terms : Terms
  pub terms_hash : String
  pub artifact_hash : String
  pub renewal : Option Renewal
  pub guarantee : Option QuotedGuarantee
