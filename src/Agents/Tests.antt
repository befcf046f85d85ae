-- ===== src/Agents/Tests.antt =====
-- A broker and a carrier at a concrete load of 780 miles.
use agentic_freight_venue.Common.{
  ℕ, ◌-◌, ◌*◌, ◌≤◌, ◌<◌, Option, ◌≡◌, refl, true, false, none, some, [], ◌∷◌,
}
use agentic_freight_venue.Mandate.Limits.{van, MandateLimits}
use agentic_freight_venue.Agents.Money.{
  Window, Offer, LoadSpec, NegotiationView, CounterNoteCode, counter, accept, last_offer,
}
use agentic_freight_venue.Agents.Broker.{
  BrokerPrivateContext, max_pay, opening_offer, on_accept_request,
}
use agentic_freight_venue.Agents.Broker.Within.{AreAtMost, broker-AreAtMost}
use agentic_freight_venue.Agents.Carrier.{
  CarrierPrivateContext, economics, on_tender, on_accept_request as carrier_on_accept_request,
}
use agentic_freight_venue.Agents.Carrier.Above.{IsAtLeast, AreAtLeast, carrier-AreAtLeast}

abbrev limits : MandateLimits
limits = record {
  min_rate_per_load = some 230000;
  max_rate_per_load = some 240000;
  min_rate_per_mile = some 200;
  max_rate_per_mile = some 400;
  allowed_lane_regions = none;
  allowed_equipment = van ∷ [];
  hazmat_permitted = false;
  required_counterparty_insurance = 75000000;
  max_per_counterparty_exposure = 1000000;
  max_daily_exposure = 300000;
  require_guarantee = true;
  require_insurer_attestation = none;
  require_insurer_undertaking = none;
  may_tender = true;
  max_negotiation_rounds = 8;
  payment_terms_days = record { least = 0; most = 30 };
}

abbrev window : Window
window = record { window_start = 0; window_end = 14400000 }

abbrev load : LoadSpec
load = record { miles = 780; origin = window; destination = window }

abbrev offer : Offer
offer = record { rate = 225000; pickup = window; delivery = window; payment_terms_days = 30 }

abbrev broker : BrokerPrivateContext
broker = record {
  customer_rate = 260000;
  target_margin = 1500;
  min_margin = 900;
  opening_discount = 800;
  concession = 4000;
  accept_gap = 150;
  pickup_flex_hours = 3;
  payment_terms_days = 30;
}

abbrev carrier : CarrierPrivateContext
carrier = record {
  cost_per_mile = 170;
  deadhead_miles = 60;
  fixed_cost_per_load = 15000;
  min_margin = 800;
  target_margin = 1600;
  opening_markup = 1000;
  concession = 4000;
  accept_gap = 150;
  earliest_pickup = none;
  payment_terms_days = 30;
}

abbrev view : NegotiationView
view = record { load = load; offer = offer; my_last_offer = some (record offer { rate = 203500 }) }

broker_tests :
    (max_pay broker limits 780 ≡ 236600) × ((opening_offer load broker limits).rate ≡ 203500)
unfolding max_pay opening_offer
broker_tests = (refl, refl)

carrier_tests :
    let e = economics load carrier limits in
    (e.cost ≡ 157800) × (e.floor ≡ 230000) × (e.target ≡ 183100) × (e.opening_ask ≡ 201500)
unfolding economics
carrier_tests = (refl, refl, refl, refl)

broker-AreAtMost_example :
    let cap = max_pay broker limits 780 in
    ((opening_offer load broker limits).rate ≤ cap)
    × AreAtMost load broker limits cap (some (opening_offer load broker limits)) (view ∷ view ∷ [])
    × ((rate days : ℕ) (v : NegotiationView)
        → on_accept_request rate days (record v { load = load }) broker limits ≡ accept
        → rate ≤ cap)
    × ((limit : ℕ) → ◌≡◌ {A = Option ℕ} (some 240000) (some limit) → cap ≤ limit)
    × ((limit : ℕ) → ◌≡◌ {A = Option ℕ} (some 400) (some limit) → 0 < limit → cap ≤ limit * 780)
    × (cap * 10000 ≤ 260000 * (10000 - 900))
broker-AreAtMost_example = broker-AreAtMost load broker limits (view ∷ view ∷ [])

-- Without the mandate's floors, the cost and the least margin set the carrier's floor.
abbrev cost_limits : MandateLimits
cost_limits = record limits { min_rate_per_load = none; min_rate_per_mile = none }

carrier-AreAtLeast_example :
    let e = economics load carrier cost_limits in
    let first = on_tender view carrier cost_limits in
    (e.floor ≤ e.target
      → e.floor ≤ e.opening_ask
      → IsAtLeast e.floor 225000 first
        × AreAtLeast load carrier cost_limits e.floor (last_offer first none) (view ∷ view ∷ []))
    × ((rate : ℕ) (v : NegotiationView)
        → carrier_on_accept_request rate (record v { load = load }) carrier cost_limits ≡ accept
        → e.floor ≤ rate)
    × (225000 < e.target
        → 225000 ≤ e.opening_ask
        → (o : Offer) × (note : CounterNoteCode) × (first ≡ counter o note)
          × (o.rate ≡ e.opening_ask))
carrier-AreAtLeast_example = carrier-AreAtLeast load carrier cost_limits view (view ∷ view ∷ [])
