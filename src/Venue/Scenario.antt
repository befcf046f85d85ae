-- ===== src/Venue/Scenario.antt =====
-- A negotiation at concrete parties: the carrier has accepted the broker's offer and the broker is about to
-- countersign, while another carrier has the same load on offer.
use agentic_freight_venue.Common.{ℕ, true, false, none, some, [], ◌∷◌, String, string_eq, lookup}
use agentic_freight_venue.Protocol.Terms.{Window, Stop, LoadSpec, Entity, Terms, terms_hash}
use agentic_freight_venue.Protocol.Examples.{toy}
use agentic_freight_venue.Mandate.Limits.{EnvelopeLimits, van}
use agentic_freight_venue.Underwriting.Types.{UnderwritingParams, satisfactory}
use agentic_freight_venue.Underwriting.Engine.{fresh}
use agentic_freight_venue.Venue.Task.{
  TaskState, countersign, negotiating, Acceptance, NegotiationTask, RegisteredAgent,
}
use agentic_freight_venue.Venue.State.{Venue}
use agentic_freight_venue.Venue.Standing.{Credential, Standing}
use agentic_freight_venue.Venue.Moves.{accept_terms, Reply, replied}
use agentic_freight_venue.Venue.Negotiation.{advance}
use agentic_freight_venue.Venue.Intake.{Tender}

abbrev pub same_text : String → String
same_text s = s

abbrev pub date : String → ℕ
date s = 100

abbrev pub iso : ℕ → String
iso now = "t"

abbrev pub window : Window
window = record { start = "2026-09-23T08:00:00Z"; end = "2026-09-23T12:00:00Z" }

abbrev pub stop_at : String → Stop
stop_at state = record { city = "c"; state = state; zip = "z"; window = window }

abbrev pub load : LoadSpec
load = record {
  load_ref = "L1";
  origin = stop_at "TX";
  destination = stop_at "OK";
  equipment = van;
  weight = 40000;
  commodity = "paper";
  miles = 300;
  hazmat = false;
  subcontract_permitted = false;
}

abbrev pub broker_entity : Entity
broker_entity = record { usdot = "1"; mc = none }

abbrev pub carrier_entity : Entity
carrier_entity = record { usdot = "2"; mc = some "MC2" }

abbrev pub terms : Terms
terms = record {
  load_ref = "L1";
  load = load;
  rate = 200000;
  pickup = window;
  delivery = window;
  payment_terms_days = 30;
  broker_agent_id = "b";
  carrier_agent_id = "k";
  broker_entity = broker_entity;
  carrier_entity = carrier_entity;
}

abbrev pub envelope : EnvelopeLimits
envelope = record {
  max_rate_per_load = some 300000;
  min_rate_per_load = none;
  max_daily_exposure = 1000000;
  max_per_counterparty_exposure = 1000000;
  allowed_equipment = van ∷ [];
  allowed_lane_regions = none;
  required_counterparty_insurance = 75000000;
  require_guarantee = false;
  require_insurer_attestation = none;
  require_insurer_undertaking = none;
}

abbrev pub agent : String → String → RegisteredAgent
agent id cred = record {
  agent_id = id;
  credential_id = cred;
  previous_credential_ids = [];
  envelope = some envelope;
  insurer_attestation = none;
}

abbrev pub credential : String → Entity → Credential
credential id entity = record {
  credential_id = id;
  entity = entity;
  is_broker = false;
  vetting_flags = [];
}

abbrev pub standing : Standing
standing = record {
  now = 50;
  is_fresh = λ usdots age. true;
  credential = λ id.
      lookup id
        (("cb", credential "cb" broker_entity) ∷ ("ck", credential "ck" carrier_entity) ∷ []);
  verdict = λ c. none;
  live = λ c d. record {
    reason_code = none;
    broker_authority = true;
    bipd = some 100000000;
    bond = some 7500000;
    insurer = none;
    insurer_false = false;
  };
  filer_key = λ a age. none;
  facts = λ usdot. some (record {
    usdot = usdot;
    active_grants = 3 ∷ [];
    safety_rating = satisfactory;
    power_units = 20;
  });
  has_changed = λ c. false;
  commitment_id = "c1";
  guarantee_id = "g1";
  artifact_hash = λ t. "a";
}

abbrev pub params : UnderwritingParams
params = record {
  offer_guarantees = none;
  max_probability_of_loss = 800;
  load_factor = 13500;
  flat_fee = 400;
  min_premium = 1200;
  max_counterparty_exposure = 4000000;
  max_portfolio_exposure = 200000000;
  loss_given_default = 9000;
  claim_window_days = 90;
  initial_capital = 25000000;
}

abbrev pub their_acceptance : Acceptance
their_acceptance = record { terms = terms; terms_hash = terms_hash toy terms; credential_id = "ck" }

abbrev pub task : NegotiationTask
task = record {
  id = "t1";
  state = TaskState.working;
  message = none;
  load_ref = "L1";
  load = load;
  broker_agent_id = "b";
  carrier_agent_id = "k";
  round = 2;
  created_at = 10;
  awaiting = "b";
  awaiting_since = 20;
  on_table = some (record {
    offer = record { rate = 200000; pickup = window; delivery = window; payment_terms_days = 30 };
    by = "b";
    round = 2;
  });
  acceptances = ("k", their_acceptance) ∷ [];
  status = countersign;
  outcome = none;
  commitment_id = none;
}

-- Another carrier that the broker has tendered the load to.
abbrev pub rival : NegotiationTask
rival = record task {
  id = "t2";
  carrier_agent_id = "r";
  awaiting = "r";
  acceptances = [];
  status = negotiating;
}

abbrev pub venue : Venue
venue = record {
  agents = ("b", agent "b" "cb") ∷ ("k", agent "k" "ck") ∷ [];
  tasks = ("t1", task) ∷ ("t2", rival) ∷ [];
  outbox = [];
  commit_journals = [];
  commitments = [];
  journals = [];
  exposures = [];
  underwriting = fresh params;
  ledger = [];
}

-- A tender of the broker for another load.
abbrev pub tender_to : String → Tender
tender_to to = record {
  load = record load { load_ref = "L2" };
  offer = record { rate = 200000; pickup = window; delivery = window; payment_terms_days = 30 };
  to = to;
}

abbrev pub reply : Reply
reply =
    advance toy same_text date "k1" iso 5 1000 standing (agent "b" "cb")
      (credential "cb" broker_entity) (some "t1") (accept_terms 2 terms (terms_hash toy terms))
      venue

abbrev pub venue_of : Reply → Venue
venue_of (replied v) = v
venue_of _ = venue
