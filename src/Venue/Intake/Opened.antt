-- ===== src/Venue/Intake/Opened.antt =====
-- What a negotiation that `startNegotiation` of src/venue/service.ts opens may rely on.
use agentic_freight_venue.Common.{
  ℕ, ◌≡◌, refl, Bool, true, false, none, some, List, [], ◌∷◌, String, string_eq, lookup, values,
  Has,
}
use agentic_freight_venue.Protocol.Reasons.{ReasonCode}
use agentic_freight_venue.Protocol.Canonical.{Primitives}
use agentic_freight_venue.Protocol.Terms.{load_fingerprint}
use agentic_freight_venue.Mandate.Limits.{EnvelopeLimits}
use agentic_freight_venue.Venue.Task.{RegisteredAgent}
use agentic_freight_venue.Venue.State.{CommitmentRecord, Venue}
use agentic_freight_venue.Venue.Ending.{active_commitment_for_load}
use agentic_freight_venue.Venue.Standing.{Credential, LiveCheck, Standing}
use agentic_freight_venue.Venue.Prepare.{requires_insurer}
use agentic_freight_venue.Venue.Intake.{
  Tender, Counterparty, tender_verdict, double_brokers, falls_short, tender_window, through_tender,
  of_counterparty, counterparty, usdots_asked, filed_task,
}

module _ (x : Primitives) (normalized : String → String) (date : String → ℕ) (max_age : ℕ)
    (w : Standing) (sender : RegisteredAgent) (cred : Credential) (d : Tender) (v : Venue) where
  -- The word of the counterparty's own insurer, where the sender's principal requires one.
  abbrev pub IsInsured : RegisteredAgent → LiveCheck → Type 0
  IsInsured cp live =
      (e : EnvelopeLimits)
      → sender.envelope ≡ some e
      → requires_insurer (some e) ≡ true
      → (live.insurer_false ≡ false)
        × (falls_short (tender_window x normalized date d cp live) ≡ false)

  -- Who may tender which load to whom.
  pub record MayTender : Type 0 where
    pub fresh : w.is_fresh (usdots_asked x normalized date w cred d v) max_age ≡ true
    pub stands : (w.live cred (through_tender x normalized date d)).reason_code ≡ none
    pub is_authorized : (w.live cred (through_tender x normalized date d)).broker_authority ≡ true
    pub hauls_not :
        (c : CommitmentRecord)
        → Has c (values v.commitments)
        → double_brokers sender.agent_id d.load.load_ref (load_fingerprint x normalized d.load) c
          ≡ false
    pub uncommitted :
        active_commitment_for_load sender.agent_id d.load.load_ref
          (load_fingerprint x normalized d.load)
          v.commitments
        ≡ none
    pub within_envelope :
        (e : EnvelopeLimits) → sender.envelope ≡ some e → (tender_verdict e d).allowed ≡ true
    pub to_carrier :
        (cp : RegisteredAgent) × (c : Credential) × (lookup d.to v.agents ≡ some cp)
        × (w.credential cp.credential_id ≡ some c)
        × (w.verdict c ≡ none)
        × (c.is_broker ≡ false)
        × ((w.live c (of_counterparty x normalized date sender.envelope d)).reason_code ≡ none)
        × IsInsured cp (w.live c (of_counterparty x normalized date sender.envelope d))

  abbrev is_fresh : Bool
  is_fresh = w.is_fresh (usdots_asked x normalized date w cred d v) max_age

  abbrev addressed : Counterparty
  addressed = counterparty x normalized date w sender d v

  pub filed-id :
      (codes : List ReasonCode) (id : String)
      → (filed_task codes id d sender.agent_id w.now).id ≡ id
  unfolding filed_task
  filed-id [] id = refl
  filed-id (code ∷ codes) id = refl
