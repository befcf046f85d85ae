-- ===== src/Venue/Intake.antt =====
-- The opening of a negotiation: `startNegotiation` and `newTask` of src/venue/service.ts. Every violation of a
-- tender is collected, and the most specific one refuses it. The forwarding of the signed tender to the
-- carrier and the audit entries are left out; of the evidence, the codes of all violations are kept.
pub mod Checks
pub mod Opened
pub mod Begun
pub mod Refused
use agentic_freight_venue.Common.{
  ℕ, ◌+◌, Bool, true, not, ◌&&◌, ◌||◌, Option, none, some, List, [], ◌∷◌, ◌++◌, String, string_eq,
  ◌==◌, if◌then◌else◌, lookup, leb, or_else, values, includes,
}
use agentic_freight_venue.Protocol.Reasons.{
  ReasonCode, reason_name, registry_unavailable, no_brokerage_authority, double_brokering_attempt,
  load_already_committed, counterparty_unverified, credential_unknown, protocol_violation,
  insurer_false_attestation, mandate_insurer_undertaking_required,
  mandate_insurer_attestation_required,
}
use agentic_freight_venue.Protocol.Canonical.{
  Items, no_items, item, Json, string, array, Primitives,
}
use agentic_freight_venue.Protocol.Terms.{LoadSpec, load_fingerprint, prefix}
use agentic_freight_venue.Protocol.Insurance.{InsurerAttestation, RenewalWindow, renewal_window}
use agentic_freight_venue.Mandate.Limits.{EnvelopeLimits, Proposal, offer, envelope_to_limits}
use agentic_freight_venue.Mandate.Engine.{MandateVerdict, evaluate_mandate, flag, truthy}
use agentic_freight_venue.Venue.Task.{
  TaskState, Notice, refused, NegotiationStatus, TaskOutcome, Offer, NegotiationTask,
  RegisteredAgent,
}
use agentic_freight_venue.Venue.State.{CommitmentRecord, Venue}
use agentic_freight_venue.Venue.Outcome.{guarantee_would_have_paid}
use agentic_freight_venue.Venue.Ending.{is_active, active_commitment_for_load}
use agentic_freight_venue.Venue.Standing.{Credential, Demand, InsurerWord, LiveCheck, Standing}
use agentic_freight_venue.Venue.Prepare.{requires_insurer, required_bipd}
use agentic_freight_venue.Venue.Specificity.{primary, refusing_component}
use agentic_freight_venue.Venue.Moves.{with_task, first_violation}

pub record Tender : Type 0 where
  pub load : LoadSpec
  pub offer : Offer
  pub to : String

-- What the venue knows of the party that a tender is addressed to.
pub data Counterparty : Type 0 where
  unregistered : Counterparty
  unverified : ReasonCode → Counterparty
  verified : RegisteredAgent → Credential → LiveCheck → Counterparty

abbrev pub new_task : String → Tender → String → ℕ → NegotiationTask
new_task id d broker now = record {
  id = id;
  state = TaskState.submitted;
  message = none;
  load_ref = d.load.load_ref;
  load = d.load;
  broker_agent_id = broker;
  carrier_agent_id = d.to;
  round = 1;
  created_at = now;
  awaiting = d.to;
  awaiting_since = now;
  on_table = none;
  acceptances = [];
  status = NegotiationStatus.negotiating;
  outcome = none;
  commitment_id = none;
}

-- The tender of a first offer, as the mandate engine judges it.
abbrev pub tendered : Tender → Proposal
tendered d = record {
  rate = d.offer.rate;
  miles = d.load.miles;
  origin_state = d.load.origin.state;
  destination_state = d.load.destination.state;
  equipment = d.load.equipment;
  hazmat = d.load.hazmat;
  payment_terms_days = d.offer.payment_terms_days;
  round = 1;
}

abbrev pub tender_verdict : EnvelopeLimits → Tender → MandateVerdict
tender_verdict e d = evaluate_mandate (envelope_to_limits e) (offer (some true) (tendered d)) none

-- The sender's own envelope, where there is one.
unfoldable pub offer_violations : Option EnvelopeLimits → Tender → List ReasonCode
offer_violations none d = []
offer_violations (some e) d = (tender_verdict e d).violations

-- Whether the sender hauls the load already and may not pass it on.
abbrev pub double_brokers : String → String → String → CommitmentRecord → Bool
double_brokers sender load_ref fingerprint c =
    is_active c.status
    && c.carrier_agent_id == sender
    && (c.load_ref == load_ref || c.load_fingerprint == fingerprint)
    && not c.subcontract_permitted

-- The loop over the commitments.
unfoldable pub double_brokering : String → String → String → List CommitmentRecord → List ReasonCode
double_brokering sender load_ref fingerprint [] = []
double_brokering sender load_ref fingerprint (c ∷ cs) =
    flag (double_brokers sender load_ref fingerprint c) double_brokering_attempt
    ++ double_brokering sender load_ref fingerprint cs

unfoldable pub recommitted : Option CommitmentRecord → List ReasonCode
recommitted none = []
recommitted (some _) = load_already_committed ∷ []

unfoldable pub sender_violations : Bool → LiveCheck → List ReasonCode
sender_violations fresh live = if not fresh then [] else elim live.reason_code [
  | some code ↦ code ∷ []
  | none ↦ flag (not live.broker_authority) no_brokerage_authority
]

-- `{ code: live.reasonCode! }` where the live check failed.
abbrev pub failed_check : Option ReasonCode → List ReasonCode
failed_check none = []
failed_check (some code) = code ∷ []

unfoldable pub counterparty_violations : Bool → Counterparty → List ReasonCode
counterparty_violations fresh unregistered = counterparty_unverified ∷ []
counterparty_violations fresh (unverified code) = code ∷ []
counterparty_violations fresh (verified cp c live) =
    (if fresh then failed_check live.reason_code else []) ++ flag c.is_broker protocol_violation

abbrev lacks_undertaking : Option InsurerWord → Bool
lacks_undertaking none = Bool.false
lacks_undertaking (some i) = elim i.undertaking [ none ↦ true | some u ↦ u == "" ]

abbrev pub word_on_file : Option InsurerWord → Option InsurerAttestation → Option InsurerAttestation
word_on_file none on_file = none
word_on_file (some _) on_file = on_file

-- No word that reaches the delivery, and none signed by pickup that could.
abbrev pub falls_short : RenewalWindow → Bool
falls_short r = elim r.assured_through [
  | none ↦ true
  | some _ ↦ not r.reaches_delivery && not r.possible
]

abbrev pub word_violations : EnvelopeLimits → LiveCheck → List ReasonCode
word_violations e live =
    if live.insurer_false
    then insurer_false_attestation ∷ []
    else flag (truthy e.require_insurer_undertaking && lacks_undertaking live.insurer)
        mandate_insurer_undertaking_required

module _ (x : Primitives) (normalized : String → String) (date : String → ℕ) where
  abbrev pub tender_window : Tender → RegisteredAgent → LiveCheck → RenewalWindow
  tender_window d cp live =
      renewal_window (word_on_file live.insurer cp.insurer_attestation) (date d.offer.pickup.start)
        (date d.load.destination.window.end)

  -- What the sender's principal requires of the counterparty's own insurer.
  unfoldable pub insurer_violations :
      Bool → Option EnvelopeLimits → Tender → Counterparty → List ReasonCode
  insurer_violations fresh none d cp = []
  insurer_violations fresh (some e) d unregistered = []
  insurer_violations fresh (some e) d (unverified code) = []
  insurer_violations fresh (some e) d (verified cp c live) =
      if requires_insurer (some e) && fresh
      then word_violations e live
        ++ flag (falls_short (tender_window d cp live)) mandate_insurer_attestation_required
      else []

  abbrev pub through_tender : Tender → Demand
  through_tender d = record {
    hazmat = Bool.false;
    required_bipd = none;
    through = some (date d.load.destination.window.end);
  }

  abbrev pub of_counterparty : Option EnvelopeLimits → Tender → Demand
  of_counterparty e d = record {
    hazmat = d.load.hazmat;
    required_bipd = required_bipd e;
    through = some (date d.load.destination.window.end);
  }

  unfoldable pub counterparty : Standing → RegisteredAgent → Tender → Venue → Counterparty
  counterparty w sender d v = elim (lookup d.to v.agents) [
    | none ↦ unregistered
    | some cp ↦ elim (w.credential cp.credential_id) [
      | none ↦ unverified credential_unknown
      | some c ↦ elim (w.verdict c) [
        | some code ↦ unverified code
        | none ↦ verified cp c (w.live c (of_counterparty sender.envelope d))
      ]
    ]
  ]

  -- Whose records `freshen` asks for.
  abbrev pub usdots_asked : Standing → Credential → Tender → Venue → List String
  usdots_asked w cred d v = cred.entity.usdot ∷ elim (lookup d.to v.agents) [
    | none ↦ []
    | some cp ↦ elim (w.credential cp.credential_id) [ none ↦ [] | some c ↦ c.entity.usdot ∷ [] ]
  ]

  -- Every violation, in the order in which the checks are made.
  unfoldable pub violations_of :
      ℕ → Standing → RegisteredAgent → Credential → Tender → Venue → List ReasonCode
  violations_of max_age w sender cred d v =
      let fresh = w.is_fresh (usdots_asked w cred d v) max_age in
      let fingerprint = load_fingerprint x normalized d.load in
      let cp = counterparty w sender d v in
      flag (not fresh) registry_unavailable
      ++ (sender_violations fresh (w.live cred (through_tender d))
          ++ (double_brokering sender.agent_id d.load.load_ref fingerprint (values v.commitments)
              ++ (recommitted (
                    active_commitment_for_load sender.agent_id d.load.load_ref fingerprint
                      v.commitments)
                  ++ (counterparty_violations fresh cp
                      ++ (offer_violations sender.envelope d
                          ++ insurer_violations fresh sender.envelope d cp)))))

abbrev names_of : List ReasonCode → Items
names_of [] = no_items
names_of (c ∷ cs) = item (string (reason_name c)) (names_of cs)

abbrev pub tender_refusal : List ReasonCode → TaskOutcome
tender_refusal codes = record {
  reason_code = primary codes;
  refused_by = refusing_component (primary codes);
  evidence = ("allViolations", array (names_of codes)) ∷ [];
  guarantee_would_have_paid = guarantee_would_have_paid (primary codes);
}

abbrev pub refused_task : NegotiationTask → List ReasonCode → NegotiationTask
refused_task t codes = record t {
  status = NegotiationStatus.rejected;
  state = TaskState.rejected;
  message = some (refused (primary codes) (tender_refusal codes).evidence);
  outcome = some (tender_refusal codes);
}

abbrev pub opened_task : NegotiationTask → Tender → String → NegotiationTask
opened_task t d sender = record t {
  state = TaskState.working;
  on_table = some (record { offer = d.offer; by = sender; round = 1 });
  awaiting = d.to;
}

-- The task that a tender is filed as.
unfoldable pub filed_task : List ReasonCode → String → Tender → String → ℕ → NegotiationTask
filed_task [] id d sender now = opened_task (new_task id d sender now) d sender
filed_task (code ∷ codes) id d sender now = refused_task (new_task id d sender now) (code ∷ codes)

unfoldable pub start_negotiation :
    Primitives
    → (String → String)
    → (String → ℕ)
    → ℕ
    → Standing
    → RegisteredAgent
    → Credential
    → String
    → Tender
    → Venue
    → Venue
start_negotiation x normalized date max_age w sender cred id d v =
    with_task
      (filed_task (violations_of x normalized date max_age w sender cred d v) id d sender.agent_id
        w.now)
      v
