-- ===== src/Venue/Negotiation/Progress.antt =====
-- What the four outcomes of `advance` of src/venue/service.ts mean for the ledger.
use agentic_freight_venue.Common.{
  ℕ, ◌≡◌, sym, ap, subst, ◌∙◌, ◌≢◌, ◌⊎◌, true, false, Option, some, String, string_eq, ==_iff,
  lookup, lookup-insert_ne, inl, inr, arith,
}
use agentic_freight_venue.Protocol.Canonical.{Primitives}
use agentic_freight_venue.Protocol.Terms.{Terms}
use agentic_freight_venue.Venue.Task.{is_terminal, Acceptance, NegotiationTask, RegisteredAgent}
use agentic_freight_venue.Venue.State.{Venue}
use agentic_freight_venue.Venue.Standing.{Credential, Standing}
use agentic_freight_venue.Venue.Ending.{terminate}
use agentic_freight_venue.Venue.Moves.{
  Move, accept_terms, replied, with_task, task_of, other_party, may_move, is_party,
}
use agentic_freight_venue.Venue.Acceptance.Agreed.{AreAgreed, IsCleared}
use agentic_freight_venue.Venue.Negotiation.{advance}
use agentic_freight_venue.Venue.Negotiation.Outcomes.{
  their_acceptance, Outcome, ended, offered, asked, committed, advance-Outcome,
}

-- The other party of the other party.
pub others-other :
    (t : NegotiationTask) (id : String)
    → t.broker_agent_id ≢ t.carrier_agent_id
    → is_party t id ≡ true
    → (other_party t (other_party t id) ≡ id) × (id ≢ other_party t id)
others-other t id apart party =
    let b = t.broker_agent_id in
    let c = t.carrier_agent_id in
    (
      ground (arith, ==_iff id b, ==_iff id c, ==_iff c b, ==_iff b b),
      λ e. ground (arith, ==_iff id b, ==_iff id c, ==_iff c b),
    )

pub party_of :
    (t : NegotiationTask) (id : String)
    → may_move t id ≡ true
    → (is_party t id ≡ true) × (t.awaiting ≡ id) × (is_terminal t.state ≡ false)
party_of t id may = (ground arith, ground (arith, ==_iff t.awaiting id), ground arith)

pub some-eq {ℓ} : {A : Type ℓ} {a b : A} → ◌≡◌ {A = Option A} (some a) (some b) → a ≡ b
some-eq h = cc

module _ (x : Primitives) (normalized : String → String) (date : String → ℕ) (signer : String)
    (iso : ℕ → String) (max_rounds : ℕ) (w : Standing) (sender : RegisteredAgent)
    (cred : Credential) where
  -- Both parties have accepted: the move accepts terms that agree with the offer on the table and that the
  -- sender's envelope permits, and the other party's acceptance on file has the same hash.
  pub record BothAccepted (t : NegotiationTask) (m : Move) (v : Venue) : Type 0 where
    pub round : ℕ
    pub terms : Terms
    pub hash : String
    pub other : RegisteredAgent
    pub other_cred : Credential
    pub first : Acceptance
    pub accepts : m ≡ accept_terms round terms hash
    pub agreed : AreAgreed x normalized date signer iso w t sender.agent_id terms hash v
    pub cleared : IsCleared x normalized date signer iso w sender other other_cred t round terms v
    pub on_file : lookup (other_party t sender.agent_id) t.acceptances ≡ some first
    pub same_hash : first.terms_hash ≡ hash

  pub theirs-same :
      (t : NegotiationTask) (terms : Terms) (hash : String)
      → sender.agent_id ≢ other_party t sender.agent_id
      → their_acceptance x normalized date signer iso max_rounds w sender cred t terms hash
        ≡ lookup (other_party t sender.agent_id) t.acceptances
  theirs-same t terms hash apart = lookup-insert_ne _ _ _ t.acceptances apart

  same_ledger :
      (s : NegotiationTask) (u v : Venue) → (u ≡ v) ⊎ (u ≡ with_task s v) → u.ledger ≡ v.ledger
  same_ledger s u v (inl e) = ap (λ z. z.ledger) e
  same_ledger s u v (inr e) = ap (λ z. z.ledger) e

  ledger_of :
      (t : NegotiationTask) (v v' : Venue) (m : Move)
      → t.broker_agent_id ≢ t.carrier_agent_id
      → may_move t sender.agent_id ≡ true
      → Outcome x normalized date signer iso max_rounds w sender cred t m v v'
      → (v'.ledger ≡ v.ledger) ⊎ BothAccepted t m v
  unfolding terminate
  ledger_of t v v' m apart may (ended s u code by evidence subject disposition _ kept e) =
      inl (ap (λ z. z.ledger) e ∙ same_ledger s u v kept)
  ledger_of t v v' m apart may (offered round o _ _ e) = inl (ap (λ z. z.ledger) e)
  ledger_of t v v' m apart may (asked round terms hash _ _ _ e) = inl (ap (λ z. z.ledger) e)
  ledger_of t v v' m apart may
        (committed round terms hash other other_cred first j accepts agreed cleared on_file _ _) =
      let two = others-other t sender.agent_id apart (party_of t sender.agent_id may).0 in
      let on_file' = sym (theirs-same t terms hash two.1) ∙ on_file in
      inr (record {
        round = round;
        terms = terms;
        hash = hash;
        other = other;
        other_cred = other_cred;
        first = first;
        accepts = accepts;
        agreed = agreed;
        cleared = cleared;
        on_file = on_file';
        same_hash = agreed.same_hash first on_file';
      })

  -- The ledger of the venue changes in a negotiation between two parties only if both have accepted: the
  -- awaited party accepts, under their hash, terms that are those of the offer on the table, its registered
  -- envelope permits them, and the other party's acceptance on file has the same hash.
  pub advance-ledger :
      (max_age : ℕ) (task_id : Option String) (m : Move) (t : NegotiationTask) (v v' : Venue)
      → task_of task_id v ≡ some t
      → t.broker_agent_id ≢ t.carrier_agent_id
      → advance x normalized date signer iso max_rounds max_age w sender cred task_id m v
        ≡ replied v'
      → (v'.ledger ≡ v.ledger) ⊎ BothAccepted t m v
  advance-ledger max_age task_id m t v v' found apart h =
      let (s, found', may, out) =
        advance-Outcome x normalized date signer iso max_rounds w sender cred max_age task_id m v v'
          h in
      let same : s ≡ t = some-eq (sym found' ∙ found) in
      ledger_of t v v' m apart (subst (λ u. may_move u sender.agent_id ≡ true) same may) (
        subst (λ u. Outcome x normalized date signer iso max_rounds w sender cred u m v v') same
          out)
