-- ===== src/Mandate/Engine/Disclosure.antt =====
-- The same engine on both sides: the agent runs it on its mandate, the venue on the envelope that
-- the mandate's principal registered; and the book that an allowed acceptance is charged to.
use Prim.Native.String
use native.Mathlib.Nat.{le_trans}
use agentic_freight_venue.Common.{
  ◌≤◌, ◌≡◌, ◌≢◌, refl, true, false, Option, none, some, String, includes, string_eq, arith, ==_refl,
}
use agentic_freight_venue.Mandate.Limits.{
  MandateLimits, Proposal, AcceptFacts, MandateAction, offer, accept, issue_envelope,
  envelope_to_limits, max_safe_integer,
}
use agentic_freight_venue.Mandate.Exposure.{ExposureBook, outstanding, daily, add}
use agentic_freight_venue.Mandate.Exposure.Accounts.{add_fresh}
use agentic_freight_venue.Mandate.Engine.{evaluate_mandate}
use agentic_freight_venue.Mandate.Engine.Permits.{Proposable, AcceptableIfAccept, allowed_iff}

accept_disclosed :
    (l : MandateLimits) (a : MandateAction) (b : Option ExposureBook)
    → AcceptableIfAccept l a b
    → AcceptableIfAccept (envelope_to_limits (issue_envelope l)) a b
unfolding envelope_to_limits issue_envelope
accept_disclosed l (offer _ _) b h = tt
accept_disclosed l (accept f p) (some b) h = record {
  insured = h.insured;
  guaranteed = h.guaranteed;
  insurer = record { attested = h.insurer.attested; undertaken = h.insurer.undertaken };
  exposed = h.exposed;
}
accept_disclosed l (accept f p) none h = record {
  insured = h.insured;
  guaranteed = h.guaranteed;
  insurer = record { attested = h.insurer.attested; undertaken = h.insurer.undertaken };
  exposed = tt;
}

propose_disclosed :
    (l : MandateLimits) (a : MandateAction)
    → l.payment_terms_days.most ≤ 365
    → l.max_negotiation_rounds ≤ max_safe_integer
    → Proposable l a
    → Proposable (envelope_to_limits (issue_envelope l)) a
unfolding envelope_to_limits issue_envelope
propose_disclosed l a terms rounds h = record {
  rate = record {
    load_ceiling = h.rate.load_ceiling;
    mile_ceiling = tt;
    load_floor = h.rate.load_floor;
    mile_floor = tt;
  };
  lane = h.lane;
  equipment = h.equipment;
  hazmat = λ _. refl;
  tender = λ _. refl;
  rounds = le_trans h.rounds rounds;
  shortest = omega arith;
  longest = le_trans h.longest terms;
}

-- An action that the mandate allows is never refused by the venue's check of the envelope issued
-- from that mandate, given the same exposure book, payment terms of at most 365 days and a bound on
-- rounds that is a safe integer.
pub envelope_allows :
    (l : MandateLimits) (a : MandateAction) (b : Option ExposureBook)
    → l.payment_terms_days.most ≤ 365
    → l.max_negotiation_rounds ≤ max_safe_integer
    → (evaluate_mandate l a b).allowed ≡ true
    → (evaluate_mandate (envelope_to_limits (issue_envelope l)) a b).allowed ≡ true
envelope_allows l a b terms rounds h =
    let (p, q) = (allowed_iff l a b).0 h in
    (allowed_iff (envelope_to_limits (issue_envelope l)) a b).1
      (propose_disclosed l a terms rounds p, accept_disclosed l a b q)

-- After an allowed acceptance is charged to the book under a reference not applied before, what is
-- outstanding with its counterparty and what was committed on its day stay within the mandate's caps.
pub allowed-within_caps :
    (l : MandateLimits) (f : AcceptFacts) (p : Proposal) (b : ExposureBook) (ref : String)
    → ref ≢ ""
    → includes b.applied (String.◌++◌ "add:" ref) ≡ false
    → (evaluate_mandate l (accept f p) (some b)).allowed ≡ true
    → let b' = add f.counterparty_usdot p.rate f.day (some ref) b in
      (outstanding f.counterparty_usdot b' ≤ l.max_per_counterparty_exposure)
      × (daily f.day b' ≤ l.max_daily_exposure)
allowed-within_caps l f p b ref named fresh h =
    let ok = ((allowed_iff l (accept f p) (some b)).0 h).1.exposed in
    let cp = f.counterparty_usdot in
    ground (
      arith,
      ok,
      (add_fresh cp ref cp f.day p.rate b named fresh).0,
      (add_fresh f.day ref cp f.day p.rate b named fresh).1,
      ==_refl cp,
      ==_refl f.day,
    )
