-- ===== src/Mandate/Tests.antt =====
-- The mandate at concrete inputs: a broker's limits, an acceptance within them and its charge.
use text.Mathlib.TextEquality.{eq_iff}
use agentic_freight_venue.Common.{
  ◌≤◌, ◌≡◌, refl, ◌≢◌, ◌↔◌, true, false, none, some, [], ◌∷◌, String, arith, lookup, insert,
}
use agentic_freight_venue.Protocol.Reasons.{
  mandate_rate_above_ceiling, mandate_guarantee_required, mandate_exposure_daily_exceeded,
  no_brokerage_authority,
}
use agentic_freight_venue.Mandate.Limits.{
  van, MandateLimits, Proposal, AcceptFacts, offer, accept, issue_envelope, envelope_to_limits,
}
use agentic_freight_venue.Mandate.Exposure.{empty_book, outstanding, daily, add, release}
use agentic_freight_venue.Mandate.Exposure.Accounts.{release-add}
use agentic_freight_venue.Mandate.Engine.{evaluate_mandate}
use agentic_freight_venue.Mandate.Engine.Permits.{Permits, allowed_iff}
use agentic_freight_venue.Mandate.Engine.Disclosure.{envelope_allows, allowed-within_caps}

-- Dollars, in the cents of the model.
abbrev limits : MandateLimits
limits = record {
  min_rate_per_load = none;
  max_rate_per_load = some 240000;
  min_rate_per_mile = none;
  max_rate_per_mile = some 400;
  allowed_lane_regions = some ("TX" ∷ "OK" ∷ []);
  allowed_equipment = van ∷ [];
  hazmat_permitted = false;
  required_counterparty_insurance = 75000000;
  max_per_counterparty_exposure = 1000000;
  max_daily_exposure = 300000;
  require_guarantee = true;
  require_insurer_attestation = none;
  require_insurer_undertaking = none;
  may_tender = true;
  max_negotiation_rounds = 8;
  payment_terms_days = record { least = 0; most = 30 };
}

abbrev load : Proposal
load = record {
  rate = 221500;
  miles = 780;
  origin_state = "TX";
  destination_state = "OK";
  equipment = van;
  hazmat = false;
  payment_terms_days = 30;
  round = 5;
}

abbrev facts : AcceptFacts
facts = record {
  counterparty_usdot = "2233541";
  counterparty_insurance = 100000000;
  insurance_assured_through = none;
  insurance_notice_days = none;
  insurer_undertaking = none;
  pickup_window_start = none;
  delivery_window_end = none;
  guarantee_available = true;
  day = "2026-09-23";
}

engine_tests :
    ((evaluate_mandate limits (accept facts load) (some empty_book)).allowed ≡ true)
    × ((evaluate_mandate limits
          (accept (record facts { guarantee_available = false }) (record load { rate = 320000 }))
          (some empty_book)).violations
        ≡ mandate_rate_above_ceiling ∷ mandate_rate_above_ceiling ∷ mandate_guarantee_required
          ∷ mandate_exposure_daily_exceeded ∷ [])
    × ((evaluate_mandate
          (record limits { may_tender = false })
          (offer (some true) load)
          none).violations
        ≡ no_brokerage_authority ∷ [])
unfolding evaluate_mandate outstanding daily lookup
engine_tests = (refl, refl, refl)

book_tests :
    let b = add "2233541" 500 "d" (some "c1") empty_book in
    (outstanding "2233541" b ≡ 500)
    × (daily "d" b ≡ 500)
    × (daily "d" (release "2233541" 500 "d" (some "c1") b) ≡ 0)
unfolding add release outstanding daily lookup insert
book_tests = (refl, refl, refl)

named : ◌≢◌ {A = String} "c1" ""
named = ground (arith, eq_iff "c1" "")

release-add_example :
    let b = release "2233541" 500 "d" (some "c1") (add "2233541" 500 "d" (some "c1") empty_book) in
    (outstanding "2233541" b ≡ outstanding "2233541" empty_book)
    × (daily "2233541" b ≡ daily "2233541" empty_book)
release-add_example = release-add "2233541" "c1" "2233541" "d" 500 empty_book named refl refl

allowed_iff_example :
    ((evaluate_mandate limits (accept facts load) (some empty_book)).allowed ≡ true)
    ↔ Permits limits (accept facts load) (some empty_book)
allowed_iff_example = allowed_iff limits (accept facts load) (some empty_book)

envelope_allows_example :
    (evaluate_mandate
      (envelope_to_limits (issue_envelope limits))
      (accept facts load)
      (some empty_book)).allowed
    ≡ true
envelope_allows_example =
    envelope_allows limits (accept facts load) (some empty_book) (omega arith) (omega arith)
      engine_tests.0

allowed-within_caps_example :
    let b = add "2233541" 221500 "2026-09-23" (some "c1") empty_book in
    (outstanding "2233541" b ≤ 1000000) × (daily "2026-09-23" b ≤ 300000)
allowed-within_caps_example =
    allowed-within_caps limits facts load empty_book "c1" named refl engine_tests.0
