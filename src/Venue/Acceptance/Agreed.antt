-- ===== src/Venue/Acceptance/Agreed.antt =====
-- What an acceptance that passes the venue's checks is known to be.
use agentic_freight_venue.Common.{
  ℕ, ◌≡◌, ap, ◌∙◌, true, false, Option, none, some, List, String, string_eq, ◌==◌, ==_iff, lookup,
  inl, inr, Bool-cases, Option-cases, arith,
}
use agentic_freight_venue.Protocol.Canonical.{Primitives, canonicalize}
use agentic_freight_venue.Protocol.Terms.{Entity, Terms, terms_json, terms_hash}
use agentic_freight_venue.Mandate.Limits.{EnvelopeLimits}
use agentic_freight_venue.Mandate.Engine.{MandateVerdict}
use agentic_freight_venue.Underwriting.Quoting.{UnderwritingDecision, guaranteed, declined}
use agentic_freight_venue.Venue.Task.{Acceptance, NegotiationTask, OnTable, RegisteredAgent}
use agentic_freight_venue.Venue.State.{Venue}
use agentic_freight_venue.Venue.Standing.{Credential, LiveCheck, Standing}
use agentic_freight_venue.Venue.Step.{go, >>=-go}
use agentic_freight_venue.Venue.Prepare.{entity_of, requires_guarantee, quote_for}
use agentic_freight_venue.Venue.Moves.{
  other_party, stands_or_stop, envelope_or_stop, through_delivery,
}
use agentic_freight_venue.Venue.Acceptance.{
  expected_terms, same_as_first, against_table, check_accept_terms, refuses_unguaranteed,
  permitted_or_stop, mandate_stop, accept_verdict, acceptance_checked,
}

module _ (x : Primitives) (normalized : String → String) (date : String → ℕ) (signer : String)
    (iso : ℕ → String) where
  -- The accepted terms are those of the offer on the table, between the parties as the venue knows them,
  -- under the hash that is claimed; and an earlier acceptance of the other party has the same hash.
  pub record AreAgreed (w : Standing) (t : NegotiationTask) (sender : String) (terms : Terms)
      (hash : String) (v : Venue) : Type 0 where
    pub hashed : terms_hash x terms ≡ hash
    pub table : OnTable
    pub on_table : t.on_table ≡ some table
    pub broker : Entity
    pub carrier : Entity
    pub broker_known : entity_of w v.agents t.broker_agent_id ≡ go broker
    pub carrier_known : entity_of w v.agents t.carrier_agent_id ≡ go carrier
    pub same_text :
        canonicalize x (terms_json (expected_terms t table.offer broker carrier))
        ≡ canonicalize x (terms_json terms)
    pub same_hash :
        (first : Acceptance)
        → lookup (other_party t sender) t.acceptances ≡ some first
        → first.terms_hash ≡ hash

  first-same :
      (prior : Option Acceptance) (terms u : Terms) (hash : String)
      → same_as_first prior terms hash ≡ go u
      → (first : Acceptance) → prior ≡ some first
      → first.terms_hash ≡ hash
  first-same none terms u hash h first e = cc
  first-same (some a) terms u hash h first e = ground (arith, ==_iff a.terms_hash hash, e)

  table_checked :
      (w : Standing) (t : NegotiationTask) (sender : String) (terms u : Terms) (hash : String)
      (table : OnTable) (v : Venue)
      → terms_hash x terms ≡ hash
      → t.on_table ≡ some table
      → against_table x normalized date signer iso w t sender terms hash table.offer v ≡ go u
      → AreAgreed w t sender terms hash v
  unfolding against_table
  table_checked w t sender terms u hash table v hashed on h =
      let (broker, known, h') = >>=-go (entity_of w v.agents t.broker_agent_id) _ h in
      let (carrier, known', h'') = >>=-go (entity_of w v.agents t.carrier_agent_id) _ h' in
      elim (Bool-cases (
        canonicalize x (terms_json (expected_terms t table.offer broker carrier))
        == canonicalize x (terms_json terms))) [
          | inl same ↦ record {
            hashed = hashed;
            table = table;
            on_table = on;
            broker = broker;
            carrier = carrier;
            broker_known = known;
            carrier_known = known';
            same_text = (==_iff _ _).0 same;
            same_hash = first-same _ terms u hash (rw same at h'');
          }
          | inr differs ↦ let h''' = rw differs at h'' in cc h'''
        ]

  pub check-AreAgreed :
      (w : Standing) (t : NegotiationTask) (sender : String) (terms u : Terms) (hash : String)
      (v : Venue)
      → check_accept_terms x normalized date signer iso w t sender terms hash v ≡ go u
      → AreAgreed w t sender terms hash v
  unfolding check_accept_terms
  check-AreAgreed w t sender terms u hash v h = elim (Bool-cases (terms_hash x terms == hash)) [
    | inl hashed ↦ elim (Option-cases t.on_table) [
      | inl bare ↦ let h' = rw (hashed, bare) at h in cc h'
      | inr (table, on) ↦
          table_checked w t sender terms u hash table v ((==_iff _ _).0 hashed) on
            (rw (hashed, on) at h)
    ]
    | inr other ↦ let h' = rw other at h in cc h'
  ]

  -- Neither principal insists on a guarantee that underwriting declines.
  abbrev pub IsCovered :
      Option EnvelopeLimits → Option EnvelopeLimits → UnderwritingDecision → Type 0
  IsCovered mine theirs (guaranteed _ _ _ _) = Unit {0}
  IsCovered mine theirs (declined _ _ _) =
      (requires_guarantee mine ≡ false) × (requires_guarantee theirs ≡ false)

  -- What else the checks establish: the other party stands well, the sender's principal has registered an
  -- envelope, and by the quote and the exposure at that moment the envelope permits these terms.
  pub record IsCleared (w : Standing) (sender other : RegisteredAgent) (other_cred : Credential)
      (t : NegotiationTask) (round : ℕ) (terms : Terms) (v : Venue) : Type 0 where
    pub envelope : EnvelopeLimits
    pub registered : sender.envelope ≡ some envelope
    pub decision : UnderwritingDecision
    pub quoted : quote_for date x w t terms v ≡ go decision
    pub live : LiveCheck
    pub checked : live ≡ w.live other_cred (through_delivery date t)
    pub stands : live.reason_code ≡ none
    pub covered : IsCovered sender.envelope other.envelope decision
    pub permitted :
        (accept_verdict x normalized date signer iso envelope t sender.agent_id terms other_cred
          live decision round v).allowed
        ≡ true

  stands-go :
      (stage agent : String) (live l : LiveCheck)
      → stands_or_stop stage agent live ≡ go l
      → (l ≡ live) × (live.reason_code ≡ none)
  stands-go stage agent live l h = ground arith

  envelope-go :
      (sender : RegisteredAgent) (e : EnvelopeLimits)
      → envelope_or_stop sender ≡ go e
      → sender.envelope ≡ some e
  envelope-go sender e h = ground arith

  refuses-go :
      (mine theirs : Option EnvelopeLimits) (round : ℕ) (sender : String) (d : UnderwritingDecision)
      (l : List String)
      → refuses_unguaranteed mine theirs round sender d ≡ go l
      → IsCovered mine theirs d
  refuses-go mine theirs round sender (guaranteed _ _ _ _) l h = tt
  refuses-go mine theirs round sender (declined _ code _) l h = ground arith

  permitted-go :
      (sender : String) (verdict : MandateVerdict) (d : UnderwritingDecision) (terms u : Terms)
      → permitted_or_stop sender verdict d terms ≡ go u
      → verdict.allowed ≡ true
  unfolding mandate_stop
  permitted-go sender verdict (guaranteed _ _ _ _) terms u h = ground arith
  permitted-go sender verdict (declined _ _ _) terms u h = ground arith

  pub acceptance_checked-AreAgreed :
      (w : Standing) (sender other : RegisteredAgent) (other_cred : Credential)
      (t : NegotiationTask) (round : ℕ) (terms u : Terms) (hash : String) (v : Venue)
      → acceptance_checked x normalized date signer iso w sender other other_cred t round terms hash
          v
        ≡ go u
      → AreAgreed w t sender.agent_id terms hash v
        × IsCleared w sender other other_cred t round terms v
  unfolding acceptance_checked
  acceptance_checked-AreAgreed w sender other other_cred t round terms u hash v h =
      let (_, checked, h1) =
        >>=-go (check_accept_terms x normalized date signer iso w t sender.agent_id terms hash v) _
          h in
      let (live, stood, h2) =
        >>=-go
          (stands_or_stop "ACCEPT" other.agent_id (w.live other_cred (through_delivery date t))) _
          h1 in
      let (envelope, registered, h3) = >>=-go (envelope_or_stop sender) _ h2 in
      let (decision, quoted, h4) = >>=-go (quote_for date x w t terms v) _ h3 in
      let (_, insisted, h5) =
        >>=-go (refuses_unguaranteed sender.envelope other.envelope round sender.agent_id decision)
          _ h4 in
      let standing = stands-go "ACCEPT" other.agent_id _ live stood in
      (
        check-AreAgreed w t sender.agent_id terms _ hash v checked,
        record {
          envelope = envelope;
          registered = envelope-go sender envelope registered;
          decision = decision;
          quoted = quoted;
          live = live;
          checked = standing.0;
          stands = ap (λ l. l.reason_code) standing.0 ∙ standing.1;
          covered =
              refuses-go sender.envelope other.envelope round sender.agent_id decision _ insisted;
          permitted = permitted-go sender.agent_id _ decision terms u h5;
        },
      )
