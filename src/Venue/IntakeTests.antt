-- ===== src/Venue/IntakeTests.antt =====
-- Tenders in the venue of Scenario, and a message that is sent twice.
use text.Mathlib.TextEquality.{eq_iff}
use agentic_freight_venue.Common.{
  ◌≡◌, refl, ◌≢◌, ◌⊎◌, inl, false, none, some, [], ◌∷◌, String, lookup, arith,
}
use agentic_freight_venue.Protocol.Reasons.{reason_name}
use agentic_freight_venue.Protocol.Terms.{load_fingerprint}
use agentic_freight_venue.Protocol.Examples.{toy}
use agentic_freight_venue.Venue.Task.{TaskState, NegotiationTask, TaskOutcome}
use agentic_freight_venue.Venue.State.{active, CommitmentRecord, Venue}
use agentic_freight_venue.Venue.Ending.Expired.{TasksFiled}
use agentic_freight_venue.Venue.Negotiation.Termination.{IsOpen}
use agentic_freight_venue.Venue.Intake.{new_task, opened_task, start_negotiation}
use agentic_freight_venue.Venue.Intake.Begun.{IsFiledFor, IsBegun, start_negotiation-IsOpen}
use agentic_freight_venue.Venue.Intake.Refused.{start_negotiation-double_brokering}
use agentic_freight_venue.Venue.Scenario.{
  same_text, date, tender_to, broker_entity, agent, credential, standing, venue,
}

abbrev after_tender : Venue
after_tender =
    start_negotiation toy same_text date 1000 standing (agent "b" "cb")
      (credential "cb" broker_entity) "t9" (tender_to "k") venue

abbrev opened : NegotiationTask
opened = opened_task (new_task "t9" (tender_to "k") "b" 50) (tender_to "k") "b"

apart : ◌≢◌ {A = String} "b" "k"
apart e = let h = (eq_iff "b" "k").1 e in cc h

filed : TasksFiled venue
unfolding lookup
filed = (refl, refl, (refl, refl, tt))

start_negotiation-IsOpen_example :
    TasksFiled after_tender
    × ((t : NegotiationTask) × (lookup "t9" after_tender.tasks ≡ some t)
        × IsFiledFor "t9" "b" (tender_to "k") 50 t
        × ((t.state ≡ TaskState.rejected) ⊎ (IsOpen 5 t × IsBegun "b" (tender_to "k") t)))
    × ((other : String) → "t9" ≢ other → lookup other after_tender.tasks ≡ lookup other venue.tasks)
    × (after_tender ≡ record venue { tasks = after_tender.tasks })
start_negotiation-IsOpen_example =
    start_negotiation-IsOpen toy same_text date 1000 5 standing (agent "b" "cb")
      (credential "cb" broker_entity) "t9" (tender_to "k") venue (omega arith) apart filed

-- The carrier hauls the load for another broker already.
abbrev hauled : CommitmentRecord
hauled = record {
  commitment_id = "c7";
  task_id = "t7";
  load_ref = "L2";
  load_fingerprint = "f";
  subcontract_permitted = false;
  broker_agent_id = "z";
  carrier_agent_id = "b";
  broker_usdot = "9";
  carrier_usdot = "1";
  rate = 250000;
  pickup_day = "2026-09-23";
  delivery_window_end = 100;
  status = active;
  lifecycle = [];
  guarantee_id = none;
  voiding = none;
  renewal = none;
}

abbrev hauling : Venue
hauling = record venue { commitments = ("c7", hauled) ∷ [] }

start_negotiation-double_brokering_example :
    (t : NegotiationTask) × (o : TaskOutcome) × (lookup "t9"
        (start_negotiation toy same_text date 1000 standing
          (agent "b" "cb")
          (credential "cb" broker_entity)
          "t9"
          (tender_to "k")
          hauling).tasks
      ≡ some t)
    × (t.state ≡ TaskState.rejected)
    × (t.outcome ≡ some o)
    × (reason_name o.reason_code ≡ "DOUBLE_BROKERING_ATTEMPT")
start_negotiation-double_brokering_example =
    start_negotiation-double_brokering toy same_text date 1000 standing (agent "b" "cb")
      (credential "cb" broker_entity) (tender_to "k") hauling "t9" hauled (inl refl) refl refl
      (inl refl) refl
