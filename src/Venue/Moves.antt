-- ===== src/Venue/Moves.antt =====
-- What an agent sends on an open negotiation, who may send it, and a counter-offer: the head of `advance` of
-- src/venue/service.ts. The audit entries are left out; of the evidence of a refusal, the entries that the
-- venue reads or always forwards are kept.
use agentic_freight_venue.Common.{
  ℕ, ◌+◌, Bool, not, ◌&&◌, ◌||◌, Option, none, some, List, [], ◌∷◌, String, string_eq, ◌==◌,
  if◌then◌else◌, Keyed, lookup, insert, ltb,
}
use agentic_freight_venue.Protocol.Reasons.{
  ReasonCode, protocol_violation, negotiation_max_rounds, mandate_envelope_missing,
}
use agentic_freight_venue.Protocol.Canonical.{Json, string, number}
use agentic_freight_venue.Protocol.Terms.{Terms}
use agentic_freight_venue.Mandate.Limits.{EnvelopeLimits, offer, Proposal, envelope_to_limits}
use agentic_freight_venue.Mandate.Engine.{evaluate_mandate}
use agentic_freight_venue.Venue.Task.{
  is_terminal, NegotiationStatus, Offer, NegotiationTask, RegisteredAgent,
}
use agentic_freight_venue.Venue.State.{Venue}
use agentic_freight_venue.Venue.Ending.{fail}
use agentic_freight_venue.Venue.Standing.{Demand, LiveCheck}
use agentic_freight_venue.Venue.Step.{Step, stop, broken, go, ◌>>=◌}

-- What an agent sends on an open negotiation; the numbers are the rounds that it states.
pub data Move : Type 0 where
  counter : ℕ → Offer → Move
  accept_terms : ℕ → Terms → String → Move
  reject : ℕ → String → Move

pub data Reply : Type 0 where
  refused : ReasonCode → Reply
  thrown : Reply
  replied : Venue → Reply

abbrev pub move_type : Move → String
move_type (counter _ _) = "COUNTER"
move_type (accept_terms _ _ _) = "ACCEPT"
move_type (reject _ _) = "REJECT"

abbrev pub move_round : Move → ℕ
move_round (counter n _) = n
move_round (accept_terms n _ _) = n
move_round (reject n _) = n

abbrev pub with_task : NegotiationTask → Venue → Venue
with_task t v = record v { tasks = insert t.id t v.tasks }

-- `m.taskId ? this.state.tasks.get(m.taskId) : undefined`
abbrev pub task_of : Option String → Venue → Option NegotiationTask
task_of none v = none
task_of (some id) v = if id == "" then none else lookup id v.tasks

-- A step that stopped ends the negotiation by `fail`.
abbrev pub concluded : NegotiationTask → Venue → Step Venue → Reply
concluded t v (stop code by evidence subject) = replied (fail t code by evidence subject v)
concluded t v broken = thrown
concluded t v (go v') = replied v'

abbrev pub other_party : NegotiationTask → String → String
other_party t id = if id == t.broker_agent_id then t.carrier_agent_id else t.broker_agent_id

abbrev pub is_party : NegotiationTask → String → Bool
is_party t id = id == t.broker_agent_id || id == t.carrier_agent_id

-- The guard at the head of `advance`.
abbrev pub may_move : NegotiationTask → String → Bool
may_move t id = is_party t id && not (is_terminal t.state) && t.awaiting == id

abbrev pub proposed : NegotiationTask → ℕ → ℕ → ℕ → Proposal
proposed t rate payment_terms_days round = record {
  rate = rate;
  miles = t.load.miles;
  origin_state = t.load.origin.state;
  destination_state = t.load.destination.state;
  equipment = t.load.equipment;
  hazmat = t.load.hazmat;
  payment_terms_days = payment_terms_days;
  round = round;
}

-- `v.violations[0]!`
abbrev pub first_violation : List ReasonCode → ReasonCode
first_violation [] = protocol_violation
first_violation (code ∷ _) = code

abbrev pub by_agent : String → Keyed Json
by_agent id = ("agentId", string id) ∷ []

-- The check of an offer against the sender's registered envelope, where there is one.
unfoldable pub offer_permitted : RegisteredAgent → NegotiationTask → Offer → ℕ → Step Offer
offer_permitted sender t o round = elim sender.envelope [
  | none ↦ go o
  | some e ↦
      let verdict =
        evaluate_mandate (envelope_to_limits e)
          (offer none (proposed t o.rate o.payment_terms_days round)) none in
      if verdict.allowed
      then go o
      else stop (first_violation verdict.violations) "venue.mandate" (by_agent sender.agent_id) none
]

abbrev pub countered : NegotiationTask → String → Offer → ℕ → NegotiationTask
countered t sender o now = record t {
  round = t.round + 1;
  on_table = some (record { offer = o; by = sender; round = t.round + 1 });
  awaiting = other_party t sender;
  awaiting_since = now;
  status = NegotiationStatus.negotiating;
}

unfoldable pub counter_offered :
    ℕ → ℕ → RegisteredAgent → NegotiationTask → Offer → Venue → Step Venue
counter_offered max_rounds now sender t o v =
    if ltb max_rounds (t.round + 1)
    then stop negotiation_max_rounds "venue.protocol"
        (("round", number (t.round + 1)) ∷ ("maxRounds", number max_rounds) ∷ []) none
    else (offer_permitted sender t o (t.round + 1) >>= λ o.
        go (with_task (countered t sender.agent_id o now) v))

-- A party whose live check fails ends the negotiation, as the subject of the refusal.
abbrev pub stands_or_stop : String → String → LiveCheck → Step LiveCheck
stands_or_stop stage agent live = elim live.reason_code [
  | none ↦ go live
  | some code ↦
      stop code "venue.identity" (("stage", string stage) ∷ ("agentId", string agent) ∷ [])
        (some agent)
]

abbrev pub envelope_or_stop : RegisteredAgent → Step EnvelopeLimits
envelope_or_stop sender = elim sender.envelope [
  | none ↦ stop mandate_envelope_missing "venue.mandate" (by_agent sender.agent_id) none
  | some e ↦ go e
]

-- What a party's live check is asked during a negotiation.
abbrev pub through_delivery : (String → ℕ) → NegotiationTask → Demand
through_delivery date t = record {
  hazmat = t.load.hazmat;
  required_bipd = none;
  through = some (date t.load.destination.window.end);
}
