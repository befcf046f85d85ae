-- ===== src/Venue/Tests.antt =====
-- The venue at a concrete commitment: its load is picked up, delivered and accepted, or voided.
use agentic_freight_venue.Common.{
  ℕ, ◌≡◌, refl, false, inr, none, some, List, [], ◌∷◌, String, string_eq, lookup, insert, length,
}
use agentic_freight_venue.Protocol.Freight.{LifecycleEventType, picked_up, delivery_accepted}
use agentic_freight_venue.Protocol.Examples.{toy}
use agentic_freight_venue.Ledger.Chain.{verify_chain, verify_entries, append}
use agentic_freight_venue.Underwriting.Types.{UnderwritingParams}
use agentic_freight_venue.Underwriting.Engine.{fresh}
use agentic_freight_venue.Underwriting.Engine.Preserved.{fresh-IsAgreed}
use agentic_freight_venue.Venue.State.{active, CommitmentRecord, Venue}
use agentic_freight_venue.Venue.Lifecycle.{
  LifecycleReport, recorded, entered, record_lifecycle, lifecycle_rule,
}
use agentic_freight_venue.Venue.Lifecycle.Reported.{
  Effects, picks_up, recorded-Effects, Moves-recorded,
}
use agentic_freight_venue.Venue.Lifecycle.Kept.{IsKept, record_all, record_all-IsKept}
use agentic_freight_venue.Venue.Voiding.{entered as void_entered}

abbrev iso : ℕ → String
iso now = "t"

abbrev params : UnderwritingParams
params = record {
  offer_guarantees = none;
  max_probability_of_loss = 800;
  load_factor = 13500;
  flat_fee = 400;
  min_premium = 1200;
  max_counterparty_exposure = 4000000;
  max_portfolio_exposure = 200000000;
  loss_given_default = 9000;
  claim_window_days = 90;
  initial_capital = 25000000;
}

abbrev load : CommitmentRecord
load = record {
  commitment_id = "c1";
  task_id = "t1";
  load_ref = "L1";
  load_fingerprint = "f1";
  subcontract_permitted = false;
  broker_agent_id = "b";
  carrier_agent_id = "k";
  broker_usdot = "3100001";
  carrier_usdot = "2233541";
  rate = 221500;
  pickup_day = "2026-09-23";
  delivery_window_end = 50;
  status = active;
  lifecycle = [];
  guarantee_id = none;
  voiding = none;
  renewal = none;
}

abbrev venue : Venue
venue = record {
  agents = [];
  tasks = [];
  outbox = [];
  commit_journals = [];
  commitments = ("c1", load) ∷ [];
  journals = [];
  exposures = [];
  underwriting = fresh params;
  ledger = [];
}

abbrev pickup : LifecycleReport
pickup = record {
  commitment_id = "c1";
  event = picked_up;
  at = none;
  evidence_hash = none;
  note = none;
}

load_found : lookup "c1" venue.commitments ≡ some load
unfolding lookup
load_found = refl

pickup_recorded :
    record_lifecycle toy "k1" iso "k" pickup 20 venue
    ≡ recorded (entered toy "k1" iso "k" pickup 20 load venue)
unfolding record_lifecycle lookup lifecycle_rule
pickup_recorded = refl

recorded-Effects_example :
    Effects "k" pickup venue (entered toy "k1" iso "k" pickup 20 load venue) load
recorded-Effects_example =
    recorded-Effects toy "k1" iso "k" pickup 20 venue
      (entered toy "k1" iso "k" pickup 20 load venue) load load_found pickup_recorded

Moves-recorded_example :
    (v' : Venue) × (record_lifecycle toy "k1" iso "k" pickup 20 venue ≡ recorded v')
Moves-recorded_example =
    Moves-recorded toy "k1" iso "k" pickup 20 venue load _ load_found (inr refl) picks_up

abbrev reports : List (String × LifecycleReport × ℕ)
reports =
    ("k", pickup, 20)
    ∷ ("b", pickup, 21)
    ∷ ("k", record pickup { event = LifecycleEventType.delivered }, 30)
    ∷ ("b", record pickup { event = delivery_accepted }, 40)
    ∷ []

venue-IsKept : IsKept toy "k1" iso venue
venue-IsKept = record {
  on_record = unfold verify_chain verify_entries in refl;
  in_books = fresh-IsAgreed params;
}

reports_test : length (record_all toy "k1" iso reports venue).ledger ≡ 3
unfolding record_all record_lifecycle entered lookup insert lifecycle_rule append
reports_test = refl

record_all-IsKept_example : IsKept toy "k1" iso (record_all toy "k1" iso reports venue)
record_all-IsKept_example = record_all-IsKept toy "k1" iso reports venue venue-IsKept
