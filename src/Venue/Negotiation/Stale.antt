-- ===== src/Venue/Negotiation/Stale.antt =====
-- An acceptance that a counter-offer leaves on file: `advance` and `checkAcceptTerms` of src/venue/service.ts.
use agentic_freight_venue.Common.{ℕ, ◌≡◌, ap, ◌∙◌, ◌≢◌, true, some, String, string_eq, lookup}
use agentic_freight_venue.Protocol.Canonical.{Primitives}
use agentic_freight_venue.Protocol.Terms.{Terms}
use agentic_freight_venue.Venue.Task.{Offer, Acceptance, NegotiationTask}
use agentic_freight_venue.Venue.State.{Venue}
use agentic_freight_venue.Venue.Standing.{Standing}
use agentic_freight_venue.Venue.Step.{go}
use agentic_freight_venue.Venue.Moves.{other_party, is_party, countered}
use agentic_freight_venue.Venue.Acceptance.{check_accept_terms}
use agentic_freight_venue.Venue.Acceptance.Agreed.{check-AreAgreed}
use agentic_freight_venue.Venue.Negotiation.Progress.{others-other}

module _ (x : Primitives) (normalized : String → String) (date : String → ℕ) (signer : String)
    (iso : ℕ → String) where
  -- A counter-offer keeps the acceptances that are on file. So if a party has accepted other terms before it
  -- makes a counter-offer, the other party cannot accept that offer: whatever terms it sends, its acceptance
  -- does not pass, unless they have the hash of the terms that were accepted before.
  pub countered-stale :
      (w : Standing) (t : NegotiationTask) (sender : String) (o : Offer) (now : ℕ)
      (first : Acceptance) (terms u : Terms) (hash : String) (v : Venue)
      → t.broker_agent_id ≢ t.carrier_agent_id
      → is_party t sender ≡ true
      → lookup sender t.acceptances ≡ some first
      → first.terms_hash ≢ hash
      → check_accept_terms x normalized date signer iso w
          (countered t sender o now)
          (other_party t sender)
          terms
          hash
          v
        ≢ go u
  countered-stale w t sender o now first terms u hash v apart party on_file differs h =
      let agreed =
        check-AreAgreed x normalized date signer iso w (countered t sender o now)
          (other_party t sender) terms u hash v h in
      differs (
        agreed.same_hash first
          (ap (λ k. lookup k t.acceptances) (others-other t sender apart party).0 ∙ on_file))
