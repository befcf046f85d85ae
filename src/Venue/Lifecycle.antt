-- ===== src/Venue/Lifecycle.antt =====
-- `recordLifecycle` of src/venue/service.ts: what the parties report of the load.
pub mod Reported
pub mod Kept
use agentic_freight_venue.Common.{
  ℕ, ◌+◌, Bool, true, false, not, ◌&&◌, ◌||◌, Option, none, some, List, [], ◌∷◌, ◌++◌, String,
  string_eq, ◌==◌, if◌then◌else◌, Keyed, lookup, insert, any, or_else, ℤ, pos, ◌-ℤ◌,
}
use agentic_freight_venue.Protocol.Reasons.{ReasonCode, claim_invalid, lifecycle_event_invalid}
use agentic_freight_venue.Protocol.Freight.{
  LifecycleEventType, picked_up, pod, delivery_accepted, dispute_opened, dispute_closed, paid,
}
use agentic_freight_venue.Protocol.Canonical.{
  Json, null, string, object, no_fields, field, Primitives,
}
use agentic_freight_venue.Ledger.Chain.{LedgerEntry, lifecycle, append}
use agentic_freight_venue.Underwriting.Engine.{Underwriting, complete}
use agentic_freight_venue.Underwriting.Settlement.{adjust_disputes}
use agentic_freight_venue.Venue.Task.{LifecycleNotice, Notice}
use agentic_freight_venue.Venue.Ending.{enqueue}
use agentic_freight_venue.Venue.State.{
  CommitmentStatus, active, in_transit, completed, voided, LifecycleEvent, CommitmentRecord, Venue,
}

pub data Role : Type 0 where
  broker carrier either : Role

pub record LifecycleRule : Type 0 where
  pub by : Role
  pub from : List CommitmentStatus
  pub to : Option CommitmentStatus

abbrev after_pickup : List CommitmentStatus
after_pickup = in_transit ∷ CommitmentStatus.delivered ∷ completed ∷ []

-- `LIFECYCLE_RULES`
unfoldable pub lifecycle_rule : LifecycleEventType → LifecycleRule
lifecycle_rule picked_up = record { by = carrier; from = active ∷ []; to = some in_transit }
lifecycle_rule LifecycleEventType.delivered = record {
  by = carrier;
  from = in_transit ∷ [];
  to = some CommitmentStatus.delivered;
}
lifecycle_rule pod = record { by = either; from = after_pickup; to = none }
lifecycle_rule delivery_accepted = record {
  by = broker;
  from = CommitmentStatus.delivered ∷ [];
  to = some completed;
}
lifecycle_rule dispute_opened = record { by = either; from = after_pickup; to = none }
lifecycle_rule dispute_closed = record { by = either; from = after_pickup; to = none }
lifecycle_rule paid = record {
  by = broker;
  from = CommitmentStatus.delivered ∷ completed ∷ [];
  to = none;
}

abbrev pub status_beq : CommitmentStatus → CommitmentStatus → Bool
status_beq active active = true
status_beq in_transit in_transit = true
status_beq CommitmentStatus.delivered CommitmentStatus.delivered = true
status_beq completed completed = true
status_beq voided voided = true
status_beq _ _ = false

abbrev pub is_allowed_by : Role → Bool → Bool
is_allowed_by either is_broker = true
is_allowed_by broker is_broker = is_broker
is_allowed_by carrier is_broker = not is_broker

abbrev event_name : LifecycleEventType → String
event_name picked_up = "PICKED_UP"
event_name LifecycleEventType.delivered = "DELIVERED"
event_name pod = "POD"
event_name delivery_accepted = "DELIVERY_ACCEPTED"
event_name dispute_opened = "DISPUTE_OPENED"
event_name dispute_closed = "DISPUTE_CLOSED"
event_name paid = "PAID"

-- What a party reports.
pub record LifecycleReport : Type 0 where
  pub commitment_id : String
  pub event : LifecycleEventType
  pub at : Option ℕ
  pub evidence_hash : Option String
  pub note : Option String

abbrev or_null : Option String → Json
or_null none = null
or_null (some s) = string s

-- A dispute counts against the carrier while it is open.
abbrev pub noted_dispute : LifecycleEventType → String → Underwriting → Underwriting
noted_dispute dispute_opened usdot u = adjust_disputes usdot (pos 1) u
noted_dispute dispute_closed usdot u = adjust_disputes usdot (pos 0 -ℤ pos 1) u
noted_dispute _ usdot u = u

abbrev is_completed : CommitmentStatus → Bool
is_completed completed = true
is_completed _ = false

-- `underwriting.complete` where the commitment is completed and guaranteed.
abbrev pub noted_completion : CommitmentRecord → ℕ → Underwriting → Underwriting
noted_completion c now u =
    if is_completed c.status
    then elim c.guarantee_id [ none ↦ u | some g ↦ complete g c.delivery_window_end now u ]
    else u

pub data Recorded : Type 0 where
  refused : ReasonCode → Recorded
  recorded : Venue → Recorded

-- The signer of the ledger and the printing of a time are the venue's surroundings.
module _ (x : Primitives) (signer : String) (iso : ℕ → String) where
  abbrev lifecycle_payload : String → LifecycleReport → ℕ → Json
  lifecycle_payload caller p at = object (
      field "commitmentId" (string p.commitment_id) (
        field "event" (string (event_name p.event)) (
          field "by" (string caller) (
            field "at" (string (iso at)) (
              field "evidenceHash" (or_null p.evidence_hash)
                (field "note" (or_null p.note) no_fields))))))

  -- The commitment with the event that was entered on the ledger.
  abbrev pub with_event :
      String
      → LifecycleReport
      → ℕ
      → ℕ
      → ℕ
      → Option CommitmentStatus
      → CommitmentRecord
      → CommitmentRecord
  with_event caller p at now seq to c = record c {
    lifecycle =
        c.lifecycle
        ++ (record {
          event = p.event;
          by = caller;
          at = at;
          recorded_at = now;
          ledger_seq = seq;
          evidence_hash = p.evidence_hash;
          note = p.note;
        }
            ∷ []);
    status = or_else to c.status;
  }

  -- What the other party is told.
  abbrev pub told : String → LifecycleReport → ℕ → ℕ → CommitmentRecord → LifecycleNotice
  told caller p at seq c = record {
    load_ref = c.load_ref;
    commitment_id = c.commitment_id;
    event = p.event;
    by = caller;
    at = at;
    status = c.status;
    ledger_seq = seq;
    evidence_hash = p.evidence_hash;
  }

  abbrev pub other_than : String → CommitmentRecord → String
  other_than caller c =
      if caller == c.broker_agent_id then c.carrier_agent_id else c.broker_agent_id

  -- What follows the guards.
  unfoldable pub entered : String → LifecycleReport → ℕ → CommitmentRecord → Venue → Venue
  entered caller p now c v =
      let at = or_else p.at now in
      let (entry, ledger) =
        append x signer lifecycle (lifecycle_payload caller p at) (iso now) v.ledger in
      let c' = with_event caller p at now entry.content.seq (lifecycle_rule p.event).to c in
      record v {
        ledger = ledger;
        commitments = insert p.commitment_id c' v.commitments;
        outbox =
            enqueue (other_than caller c) (Notice.lifecycle (told caller p at entry.content.seq c'))
              v.outbox;
        underwriting =
            noted_completion c' now (noted_dispute p.event c.carrier_usdot v.underwriting);
      }

  unfoldable pub record_lifecycle : String → LifecycleReport → ℕ → Venue → Recorded
  record_lifecycle caller p now v = elim (lookup p.commitment_id v.commitments) [
    | none ↦ refused claim_invalid
    | some c ↦
        let rule = lifecycle_rule p.event in
        if not (caller == c.broker_agent_id || caller == c.carrier_agent_id)
        then refused claim_invalid
        else if not (is_allowed_by rule.by (caller == c.broker_agent_id))
        then refused lifecycle_event_invalid
        else if not (any (status_beq c.status) rule.from)
        then refused lifecycle_event_invalid
        else recorded (entered caller p now c v)
  ]
