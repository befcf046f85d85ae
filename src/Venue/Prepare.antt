-- ===== src/Venue/Prepare.antt =====
-- The first step of `commit` of src/venue/service.ts, PREPARE: the last checks of both parties, the insurers'
-- keys, the renewal a commitment is conditional on, and the quote (`riskInputs`, `quoteFor`). Times are
-- milliseconds; `date` is the parsing of a date. Of the evidence of a refusal, the entries that the venue
-- reads or always forwards are kept.
pub mod Prepared
use Prim.Native.Nat.{Ordering}
use Prim.Native.String
use agentic_freight_venue.Common.{
  ℕ, ◌-◌, ◌/◌, Bool, true, false, not, ◌&&◌, ◌||◌, Option, none, some, List, [], ◌∷◌, String,
  string_eq, if◌then◌else◌, Keyed, lookup, or_else,
}
use agentic_freight_venue.Protocol.Reasons.{ReasonCode, registry_unavailable}
use agentic_freight_venue.Protocol.Canonical.{Json, string, Primitives}
use agentic_freight_venue.Protocol.Terms.{Terms, Entity, terms_hash}
use agentic_freight_venue.Protocol.Insurance.{InsurerAttestation, renewal_window, day_ms}
use agentic_freight_venue.Mandate.Limits.{EnvelopeLimits}
use agentic_freight_venue.Mandate.Engine.{truthy}
use agentic_freight_venue.Underwriting.Types.{RiskInputs}
use agentic_freight_venue.Underwriting.Engine.{QuotedGuarantee, history_for}
use agentic_freight_venue.Underwriting.Quoting.{UnderwritingDecision, guaranteed, declined, quote}
use agentic_freight_venue.Venue.Task.{NegotiationTask, RegisteredAgent, CommitJournal, Renewal}
use agentic_freight_venue.Venue.State.{Venue}
use agentic_freight_venue.Venue.Standing.{Credential, Demand, Standing}
use agentic_freight_venue.Venue.Step.{Step, stop, broken, go, ◌>>=◌, present}
use agentic_freight_venue.Venue.Commit.{pickup_day}

abbrev pub requires_guarantee : Option EnvelopeLimits → Bool
requires_guarantee none = false
requires_guarantee (some e) = e.require_guarantee

-- `requireInsurerAttestation || requireInsurerUndertaking`
abbrev pub requires_insurer : Option EnvelopeLimits → Bool
requires_insurer none = false
requires_insurer (some e) =
    truthy e.require_insurer_attestation || truthy e.require_insurer_undertaking

abbrev pub required_bipd : Option EnvelopeLimits → Option ℕ
required_bipd none = none
required_bipd (some e) = some e.required_counterparty_insurance

-- `entityOf`
abbrev pub entity_of : Standing → Keyed RegisteredAgent → String → Step Entity
entity_of w agents id = do
  reg ← present (lookup id agents)
  c ← present (w.credential reg.credential_id)
  go c.entity

-- `xs.sort()[0]`: without a comparison, numbers are sorted as texts.
abbrev pub text_least : (ℕ → String) → List ℕ → Option ℕ
text_least numeral [] = none
text_least numeral (n ∷ ns) = elim (text_least numeral ns) [
  | none ↦ some n
  | some least ↦ elim (String.compare (numeral least) (numeral n)) [
    | Ordering.lt ↦ some least
    | _ ↦ some n
  ]
]

module _ (date : String → ℕ) (x : Primitives) where
  unfoldable pub risk_inputs : Standing → NegotiationTask → Terms → Venue → Step RiskInputs
  risk_inputs w t terms v = do
    carrier ← present (lookup t.carrier_agent_id v.agents)
    cred ← present (w.credential carrier.credential_id)
    rec ← present (w.facts cred.entity.usdot)
    broker ← present (lookup t.broker_agent_id v.agents)
    let live = w.live cred (record { hazmat = t.load.hazmat; required_bipd = none; through = none })
    go (record {
      usdot = rec.usdot;
      authority_age_days =
          (w.now - or_else (text_least x.numeral rec.active_grants) w.now) / day_ms;
      safety_rating = rec.safety_rating;
      power_units = rec.power_units;
      bipd = or_else live.bipd 0;
      required_bipd = or_else (required_bipd broker.envelope) 75000000;
      vetting_flags = cred.vetting_flags;
      registry_changed = w.has_changed cred;
      history = history_for rec.usdot v.underwriting;
      amount = terms.rate;
    })

  unfoldable pub quote_for : Standing → NegotiationTask → Terms → Venue → Step UnderwritingDecision
  unfolding risk_inputs
  quote_for w t terms v = do
    broker ← entity_of w v.agents t.broker_agent_id
    inputs ← risk_inputs w t terms v
    go (quote inputs broker.usdot v.underwriting)

  abbrev stage_evidence : String → Keyed Json
  stage_evidence agent = ("stage", string "commit") ∷ ("agentId", string agent) ∷ []

  abbrev stopped_for : ReasonCode → String → Step Credential
  stopped_for code agent = stop code "venue.identity" (stage_evidence agent) none

  -- One round of the loop over both parties: the current credential and its live standing.
  unfoldable pub reverified : Standing → Demand → RegisteredAgent → Credential → Step Credential
  reverified w demand reg cred = elim (w.verdict cred) [
    | some code ↦ stopped_for code reg.agent_id
    | none ↦ elim (w.live cred demand).reason_code [
      | some code ↦ stopped_for code reg.agent_id
      | none ↦ go cred
    ]
  ]

  -- One round of the loop over the insurers' words: one whose key does not count is refused if the other
  -- party requires the insurer's word, else dropped.
  unfoldable pub insurer_kept :
      Standing → RegisteredAgent → RegisteredAgent → Step (Option InsurerAttestation)
  insurer_kept w reg requiring = elim reg.insurer_attestation [
    | none ↦ go none
    | some a ↦ elim (w.filer_key a 0) [
      | none ↦ go (some a)
      | some code ↦
          if requires_insurer requiring.envelope
          then stop code "venue.identity" (stage_evidence reg.agent_id) none
          else go none
    ]
  ]

  abbrev is_some : Option InsurerAttestation → Bool
  is_some none = false
  is_some (some _) = true

  unfoldable pub renewal_condition :
      RegisteredAgent → Option InsurerAttestation → Terms → Option Renewal
  renewal_condition broker on_file terms =
      let rw' = renewal_window on_file (date terms.pickup.start) (date terms.delivery.end) in
      if requires_insurer broker.envelope && is_some on_file && not rw'.reaches_delivery
      then some (record { earliest_signed_at = rw'.earliest_signed_at; due_by = rw'.due_by })
      else none

  -- The guarantee that the journal carries, or the refusal where a principal insists on one.
  unfoldable pub guarantee_or_stop :
      Standing → Bool → Terms → UnderwritingDecision → Step (Option QuotedGuarantee)
  guarantee_or_stop w insisted terms (declined _ code _) =
      if insisted then stop code "underwriting" [] none else go none
  guarantee_or_stop w insisted terms (guaranteed _ covered premium _) = go (
      some (record {
        guarantee_id = w.guarantee_id;
        counterparty = terms.carrier_entity.usdot;
        beneficiary = terms.broker_entity.usdot;
        covered_amount = covered;
        premium = premium;
        day = pickup_day terms;
      }))

  -- The registry's word obtained now, for both entities.
  abbrev pub fresh_at_commit : Standing → Terms → Step Terms
  fresh_at_commit w terms =
      if w.is_fresh (terms.broker_entity.usdot ∷ terms.carrier_entity.usdot ∷ []) 0
      then go terms
      else stop registry_unavailable "venue.identity" (("stage", string "commit") ∷ []) none

  abbrev pub as_broker : NegotiationTask → Terms → Demand
  as_broker t terms = record {
    hazmat = t.load.hazmat;
    required_bipd = none;
    through = some (date terms.delivery.end);
  }

  abbrev pub as_carrier : NegotiationTask → Terms → RegisteredAgent → Demand
  as_carrier t terms broker = record {
    hazmat = t.load.hazmat;
    required_bipd = required_bipd broker.envelope;
    through = some (date terms.delivery.end);
  }

  abbrev pub journal_of :
      Standing
      → NegotiationTask
      → Terms
      → RegisteredAgent
      → Option InsurerAttestation
      → Option QuotedGuarantee
      → CommitJournal
  journal_of w t terms broker on_file guarantee = record {
    commitment_id = w.commitment_id;
    task_id = t.id;
    written_at = w.now;
    terms = terms;
    terms_hash = terms_hash x terms;
    artifact_hash = w.artifact_hash terms;
    renewal = renewal_condition broker on_file terms;
    guarantee = guarantee;
  }

  unfoldable pub prepare : Standing → NegotiationTask → Terms → Venue → Step CommitJournal
  prepare w t terms v = do
    broker ← present (lookup t.broker_agent_id v.agents)
    carrier ← present (lookup t.carrier_agent_id v.agents)
    first ← present (lookup t.broker_agent_id t.acceptances)
    second ← present (lookup t.carrier_agent_id t.acceptances)
    _ ← fresh_at_commit w terms
    broker_now ← present (w.credential broker.credential_id)
    carrier_now ← present (w.credential carrier.credential_id)
    _ ← reverified w (as_broker t terms) broker broker_now
    _ ← reverified w (as_carrier t terms broker) carrier carrier_now
    _ ← insurer_kept w broker carrier
    on_file ← insurer_kept w carrier broker
    decision ← quote_for w t terms v
    guarantee ←
        guarantee_or_stop w
          (requires_guarantee broker.envelope || requires_guarantee carrier.envelope) terms decision
    _ ← present (w.credential first.credential_id)
    _ ← present (w.credential second.credential_id)
    go (journal_of w t terms broker on_file guarantee)
