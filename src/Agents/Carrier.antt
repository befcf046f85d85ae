-- ===== src/Agents/Carrier.antt =====
-- The carrier's strategy: src/agents/carrier/strategy.ts. An absent limit of the mandate counts as nothing.
pub mod Above
use agentic_freight_venue.Common.{
  ℕ, ◌+◌, ◌-◌, ◌*◌, ◌/◌, min, max, Bool, true, false, not, ◌&&◌, ◌||◌, Option, none, some,
  if◌then◌else◌, ltb, leb, nat_beq, or_else,
}
use agentic_freight_venue.Mandate.Limits.{MandateLimits}
use agentic_freight_venue.Agents.Money.{
  Window, Offer, LoadSpec, NegotiationView, terms_mismatch, below_minimum, Decision, counter,
  accept, reject, whole, exact, ceil_dollar, round5, toward, note_of,
}

pub record CarrierPrivateContext : Type 0 where
  pub cost_per_mile : ℕ
  pub deadhead_miles : ℕ
  pub fixed_cost_per_load : ℕ
  pub min_margin : ℕ
  pub target_margin : ℕ
  pub opening_markup : ℕ
  pub concession : ℕ
  pub accept_gap : ℕ
  pub earliest_pickup : Option ℕ
  pub payment_terms_days : ℕ

pub record Economics : Type 0 where
  pub cost : ℕ
  pub floor : ℕ
  pub target : ℕ
  pub opening_ask : ℕ

abbrev pub mandate_floor : LoadSpec → MandateLimits → ℕ
mandate_floor load l =
    max (or_else l.min_rate_per_load 0) (or_else l.min_rate_per_mile 0 * load.miles)

abbrev pub cost_of : LoadSpec → CarrierPrivateContext → ℕ
cost_of load ctx = ctx.cost_per_mile * (load.miles + ctx.deadhead_miles) + ctx.fixed_cost_per_load

unfoldable pub economics : LoadSpec → CarrierPrivateContext → MandateLimits → Economics
economics load ctx l =
    let cost = cost_of load ctx in
    let target = ceil_dollar (cost * (whole + ctx.target_margin)) in
    record {
      cost = cost;
      floor = ceil_dollar (max (cost * (whole + ctx.min_margin)) (exact (mandate_floor load l)));
      target = target;
      opening_ask = round5 (target * (whole + ctx.opening_markup));
    }

-- The pickup that the carrier can make: at least four hours from its earliest.
abbrev pub later_pickup : Option ℕ → Window → Window
later_pickup none offered = offered
later_pickup (some earliest) offered =
    if leb earliest offered.window_start then offered else record {
      window_start = earliest;
      window_end = max (earliest + 4 * 3600000) offered.window_end;
    }

abbrev pub pickup_for : CarrierPrivateContext → Window → Window
pickup_for ctx offered = later_pickup ctx.earliest_pickup offered

unfoldable pub opening_offer : LoadSpec → CarrierPrivateContext → MandateLimits → Offer
opening_offer load ctx l = record {
  rate = (economics load ctx l).opening_ask;
  pickup = load.origin;
  delivery = load.destination;
  payment_terms_days = ctx.payment_terms_days;
}

-- A counteroffer at a rate, with the pickup that the carrier can make.
abbrev pub countered : ℕ → Window → Bool → NegotiationView → CarrierPrivateContext → Decision
countered rate pickup windows_ok view ctx =
    counter
      (record {
        rate = rate;
        pickup = pickup;
        delivery = view.offer.delivery;
        payment_terms_days = ctx.payment_terms_days;
      })
      (note_of windows_ok)

unfoldable pub on_tender : NegotiationView → CarrierPrivateContext → MandateLimits → Decision
on_tender view ctx l =
    let e = economics view.load ctx l in
    let pickup = pickup_for ctx view.offer.pickup in
    let windows_ok = nat_beq pickup.window_start view.offer.pickup.window_start in
    if windows_ok && leb e.target view.offer.rate
    then accept
    else countered (max e.opening_ask view.offer.rate) pickup windows_ok view ctx

abbrev pub rate_or : Option Offer → ℕ → ℕ
rate_or none ask = ask
rate_or (some o) ask = o.rate

-- `(mine - offer) / offer <= acceptGapPct`
abbrev pub is_near : ℕ → ℕ → ℕ → Bool
is_near mine offer gap = leb ((mine - offer) * whole) (gap * offer)

unfoldable pub next_rate : CarrierPrivateContext → ℕ → ℕ → ℕ → ℕ
next_rate ctx floor offer mine = max floor (round5 (toward ctx.concession mine (max offer floor)))

unfoldable pub on_counter : NegotiationView → CarrierPrivateContext → MandateLimits → Decision
on_counter view ctx l =
    let e = economics view.load ctx l in
    let offer = view.offer.rate in
    let mine = rate_or view.my_last_offer e.opening_ask in
    let pickup = pickup_for ctx view.offer.pickup in
    let windows_ok = nat_beq pickup.window_start view.offer.pickup.window_start in
    let next = next_rate ctx e.floor offer mine in
    if windows_ok
      && (leb e.floor offer && (leb e.target offer || is_near mine offer ctx.accept_gap))
    then accept
    else if windows_ok && leb next offer
    then accept
    else countered (min next mine) pickup windows_ok view ctx

-- Of the terms, the rate.
unfoldable pub on_accept_request :
    ℕ → NegotiationView → CarrierPrivateContext → MandateLimits → Decision
on_accept_request rate view ctx l = elim view.my_last_offer [
  | none ↦ reject terms_mismatch
  | some mine ↦
      if not (nat_beq rate mine.rate)
      then reject terms_mismatch
      else if ltb rate (economics view.load ctx l).floor
      then reject below_minimum
      else accept
]
