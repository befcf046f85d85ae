-- ===== src/Venue/Acceptance.antt =====
-- An acceptance: `checkAcceptTerms`, `commit` and the part of `advance` on ACCEPT, of src/venue/service.ts.
-- The forwarding to the other party and the audit entries are left out; of the evidence of a refusal, the
-- entries that the venue reads or always forwards are kept.
pub mod Agreed
use agentic_freight_venue.Common.{
  ℕ, Bool, true, false, not, ◌||◌, Option, none, some, List, [], ◌∷◌, String, string_eq, ◌==◌,
  if◌then◌else◌, Keyed, lookup, insert, all, or_else,
}
use agentic_freight_venue.Protocol.Reasons.{
  ReasonCode, load_already_committed, terms_hash_mismatch, mandate_envelope_missing,
  mandate_guarantee_required,
}
use agentic_freight_venue.Protocol.Canonical.{Json, string, number, Primitives, canonicalize}
use agentic_freight_venue.Protocol.Terms.{Terms, Entity, terms_json, terms_hash, load_fingerprint}
use agentic_freight_venue.Mandate.Limits.{
  EnvelopeLimits, MandateAction, accept, AcceptFacts, envelope_to_limits,
}
use agentic_freight_venue.Mandate.Engine.{MandateVerdict, evaluate_mandate}
use agentic_freight_venue.Underwriting.Quoting.{UnderwritingDecision, guaranteed, declined}
use agentic_freight_venue.Venue.Task.{
  NegotiationStatus, Offer, Acceptance, NegotiationTask, RegisteredAgent,
}
use agentic_freight_venue.Venue.State.{Venue, exposure_for}
use agentic_freight_venue.Venue.Standing.{Credential, InsurerWord, LiveCheck, Standing}
use agentic_freight_venue.Venue.Ending.{canceling, terminate, fail, active_commitment_for_load}
use agentic_freight_venue.Venue.Step.{Step, stop, broken, go, ◌>>=◌, >>=-go, present}
use agentic_freight_venue.Venue.Prepare.{entity_of, requires_guarantee, quote_for, prepare}
use agentic_freight_venue.Venue.Commit.{pickup_day, commit_finished}
use agentic_freight_venue.Venue.Moves.{
  with_task, other_party, stands_or_stop, envelope_or_stop, through_delivery, proposed,
  first_violation, by_agent,
}

-- The terms that the offer on the table stands for.
abbrev pub expected_terms : NegotiationTask → Offer → Entity → Entity → Terms
expected_terms t o broker carrier = record {
  load_ref = t.load_ref;
  load = t.load;
  rate = o.rate;
  pickup = o.pickup;
  delivery = o.delivery;
  payment_terms_days = o.payment_terms_days;
  broker_agent_id = t.broker_agent_id;
  carrier_agent_id = t.carrier_agent_id;
  broker_entity = broker;
  carrier_entity = carrier;
}

abbrev mismatch : String → Keyed Json → Step Terms
mismatch error evidence =
    stop terms_hash_mismatch "venue.protocol" (("error", string error) ∷ evidence) none

-- A first acceptance of the other party must be of the same terms.
abbrev pub same_as_first : Option Acceptance → Terms → String → Step Terms
same_as_first none terms hash = go terms
same_as_first (some first) terms hash =
    if first.terms_hash == hash
    then go terms
    else mismatch "countersigned termsHash differs from first acceptance" []

abbrev pub accepted : NegotiationTask → String → Acceptance → NegotiationTask
accepted t sender a = record t { acceptances = insert sender a t.acceptances }

abbrev pub awaiting_countersign : NegotiationTask → String → ℕ → NegotiationTask
awaiting_countersign t other now = record t {
  status = NegotiationStatus.countersign;
  awaiting = other;
  awaiting_since = now;
}

abbrev assured_of : Option InsurerWord → Option ℕ
assured_of none = none
assured_of (some i) = some i.assured_through

abbrev notice_days_of : Option InsurerWord → Option ℕ
notice_days_of none = none
notice_days_of (some i) = some i.notice_days

abbrev undertaking_of : Option InsurerWord → Option String
undertaking_of none = none
undertaking_of (some i) = i.undertaking

abbrev is_guaranteed : UnderwritingDecision → Bool
is_guaranteed (guaranteed _ _ _ _) = true
is_guaranteed (declined _ _ _) = false

abbrev is_guarantee_required : ReasonCode → Bool
is_guarantee_required mandate_guarantee_required = true
is_guarantee_required _ = false

-- The reason given for a refused mandate: underwriting's, if the guarantee is all that is missing.
unfoldable pub mandate_stop : String → MandateVerdict → UnderwritingDecision → Step Venue
mandate_stop sender verdict (guaranteed _ _ _ _) =
    stop (first_violation verdict.violations) "venue.mandate" (by_agent sender) none
mandate_stop sender verdict (declined _ code _) =
    if all is_guarantee_required verdict.violations
    then stop code "underwriting" (by_agent sender) none
    else stop (first_violation verdict.violations) "venue.mandate" (by_agent sender) none

-- If underwriting declined and either principal requires a guarantee, nobody is asked to countersign.
abbrev pub refuses_unguaranteed :
    Option EnvelopeLimits
    → Option EnvelopeLimits
    → ℕ
    → String
    → UnderwritingDecision
    → Step (List String)
refuses_unguaranteed mine theirs round sender (guaranteed _ _ _ _) = go []
refuses_unguaranteed mine theirs round sender (declined _ code _) =
    if requires_guarantee mine || requires_guarantee theirs
    then stop code "underwriting" (("atRound", number round) ∷ ("acceptedBy", string sender) ∷ [])
        none
    else go []

abbrev pub permitted_or_stop : String → MandateVerdict → UnderwritingDecision → Terms → Step Terms
permitted_or_stop sender verdict decision terms =
    if verdict.allowed then go terms else (mandate_stop sender verdict decision >>= λ _. go terms)

module _ (x : Primitives) (normalized : String → String) (date : String → ℕ) (signer : String)
    (iso : ℕ → String) where
  -- The part of `checkAcceptTerms` on the offer on the table.
  unfoldable pub against_table :
      Standing → NegotiationTask → String → Terms → String → Offer → Venue → Step Terms
  against_table w t sender terms hash o v = entity_of w v.agents t.broker_agent_id >>= λ broker.
      entity_of w v.agents t.carrier_agent_id >>= λ carrier.
      if not (
        canonicalize x (terms_json (expected_terms t o broker carrier))
        == canonicalize x (terms_json terms))
      then mismatch "accepted terms differ from the offer on the table"
          (("acceptedBy", string sender) ∷ [])
      else same_as_first (lookup (other_party t sender) t.acceptances) terms hash

  unfoldable pub check_accept_terms :
      Standing → NegotiationTask → String → Terms → String → Venue → Step Terms
  check_accept_terms w t sender terms hash v =
      if not (terms_hash x terms == hash)
      then mismatch "termsHash != hash(terms)" []
      else elim t.on_table [
        | none ↦ mismatch "no offer on the table" []
        | some ot ↦ against_table w t sender terms hash ot.offer v
      ]

  -- The facts an acceptance is judged by, beside its rate and its terms.
  abbrev pub accept_facts :
      NegotiationTask → String → Terms → Credential → LiveCheck → UnderwritingDecision → AcceptFacts
  accept_facts t sender terms other live decision = record {
    counterparty_usdot = other.entity.usdot;
    counterparty_insurance =
        if sender == t.broker_agent_id then or_else live.bipd 0 else or_else live.bond 0;
    insurance_assured_through = assured_of live.insurer;
    insurance_notice_days = notice_days_of live.insurer;
    insurer_undertaking = undertaking_of live.insurer;
    pickup_window_start = some (date terms.pickup.start);
    delivery_window_end = some (date terms.delivery.end);
    guarantee_available = is_guaranteed decision;
    day = pickup_day terms;
  }

  abbrev acceptance_action :
      NegotiationTask
      → String
      → Terms
      → Credential
      → LiveCheck
      → UnderwritingDecision
      → ℕ
      → MandateAction
  acceptance_action t sender terms other live decision round =
      accept (accept_facts t sender terms other live decision)
        (proposed t terms.rate terms.payment_terms_days round)

  -- The venue-side check of the accepting party's envelope, with its exposure book.
  unfoldable pub accept_verdict :
      EnvelopeLimits
      → NegotiationTask
      → String
      → Terms
      → Credential
      → LiveCheck
      → UnderwritingDecision
      → ℕ
      → Venue
      → MandateVerdict
  accept_verdict e t sender terms other live decision round v =
      evaluate_mandate (envelope_to_limits e)
        (acceptance_action t sender terms other live decision round)
        (some (exposure_for sender v.exposures))

  -- `commit`: prepared, then journaled, entered and applied.
  unfoldable pub commit : Standing → NegotiationTask → Terms → Venue → Step Venue
  commit w t terms v = prepare date x w t terms v >>= λ j.
      go (commit_finished x normalized date signer iso j w.now v)

  -- An acceptance that passed every check is kept; with the other party's it is a commit, without it the
  -- other party is asked to countersign.
  unfoldable pub acceptance_kept :
      Standing → NegotiationTask → String → Acceptance → Venue → Step Venue
  unfolding commit
  acceptance_kept w t sender a v =
      let t' = accepted t sender a in
      elim (lookup (other_party t sender) t'.acceptances) [
        | none ↦ go (with_task (awaiting_countersign t' (other_party t sender) w.now) v)
        | some _ ↦ elim (commit w t' a.terms (with_task t' v)) [
          | stop code by evidence subject ↦ go (fail t' code by evidence subject (with_task t' v))
          | broken ↦ broken
          | go v' ↦ go v'
        ]
      ]

  -- The checks of an acceptance, in the order of the source.
  unfoldable pub acceptance_checked :
      Standing
      → RegisteredAgent
      → RegisteredAgent
      → Credential
      → NegotiationTask
      → ℕ
      → Terms
      → String
      → Venue
      → Step Terms
  unfolding check_accept_terms accept_verdict
  acceptance_checked w sender other other_cred t round terms hash v = do
    _ ← check_accept_terms w t sender.agent_id terms hash v
    live ← stands_or_stop "ACCEPT" other.agent_id (w.live other_cred (through_delivery date t))
    envelope ← envelope_or_stop sender
    decision ← quote_for date x w t terms v
    _ ← refuses_unguaranteed sender.envelope other.envelope round sender.agent_id decision
    permitted_or_stop sender.agent_id
        (accept_verdict envelope t sender.agent_id terms other_cred live decision round v) decision
        terms

  unfoldable pub terms_accepted :
      Standing
      → RegisteredAgent
      → Credential
      → RegisteredAgent
      → Credential
      → NegotiationTask
      → ℕ
      → Terms
      → String
      → Venue
      → Step Venue
  unfolding acceptance_checked acceptance_kept
  terms_accepted w sender cred other other_cred t round terms hash v =
      elim (active_commitment_for_load t.broker_agent_id t.load_ref
        (load_fingerprint x normalized t.load) v.commitments) [
          | some won ↦ go (
              terminate t load_already_committed "venue.commitment"
                (("agentId", string t.broker_agent_id)
                  ∷ ("winningCommitmentId", string won.commitment_id)
                  ∷ ("canceledTaskId", string t.id)
                  ∷ ("atRound", number round)
                  ∷ ("acceptedBy", string sender.agent_id)
                  ∷ [])
                (some t.broker_agent_id) canceling v)
          | none ↦ acceptance_checked w sender other other_cred t round terms hash v >>= λ _.
              acceptance_kept w t sender.agent_id
                (record { terms = terms; terms_hash = hash; credential_id = cred.credential_id }) v
        ]
