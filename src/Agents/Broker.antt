-- ===== src/Agents/Broker.antt =====
-- The broker's strategy: src/agents/broker/strategy.ts. An absent limit is no bound, and so is a limit
-- per mile of nothing.
pub mod Within
use agentic_freight_venue.Common.{
  ℕ, ◌+◌, ◌-◌, ◌*◌, ◌/◌, min, max, Bool, true, false, not, ◌&&◌, ◌||◌, Option, none, some,
  if◌then◌else◌, ltb, leb, nat_beq,
}
use agentic_freight_venue.Mandate.Limits.{MandateLimits}
use agentic_freight_venue.Agents.Money.{
  Window, Offer, LoadSpec, NegotiationView, no_inbound_tenders, terms_mismatch, above_maximum,
  Decision, counter, accept, reject, whole, exact, floor_dollar, round5, toward, note_of,
}

pub record BrokerPrivateContext : Type 0 where
  pub customer_rate : ℕ
  pub target_margin : ℕ
  pub min_margin : ℕ
  pub opening_discount : ℕ
  pub concession : ℕ
  pub accept_gap : ℕ
  pub pickup_flex_hours : ℕ
  pub payment_terms_days : ℕ

-- `Math.min` with a limit that may be infinite.
abbrev pub capped : ℕ → Option ℕ → ℕ
capped amount none = amount
capped amount (some limit) = min amount (exact limit)

abbrev pub mile_limit : Option ℕ → ℕ → Option ℕ
mile_limit none miles = none
mile_limit (some limit) miles = if ltb 0 limit then some (limit * miles) else none

unfoldable pub max_pay : BrokerPrivateContext → MandateLimits → ℕ → ℕ
max_pay ctx l miles = floor_dollar (
    capped (capped (ctx.customer_rate * (whole - ctx.min_margin)) l.max_rate_per_load)
      (mile_limit l.max_rate_per_mile miles))

-- `hoursBetween(a, b) <= hours`
abbrev pub within_hours : ℕ → ℕ → ℕ → Bool
within_hours a b hours = leb (max a b - min a b) (hours * 3600000)

unfoldable pub opening_offer : LoadSpec → BrokerPrivateContext → MandateLimits → Offer
opening_offer load ctx l = record {
  rate =
      min
        (round5 (
          ctx.customer_rate * (whole - ctx.target_margin) * (whole - ctx.opening_discount) / whole))
        (max_pay ctx l load.miles);
  pickup = load.origin;
  delivery = load.destination;
  payment_terms_days = ctx.payment_terms_days;
}

unfoldable pub on_tender : Decision
on_tender = reject no_inbound_tenders

abbrev pub rate_of : Option Offer → ℕ
rate_of none = 0
rate_of (some o) = o.rate

abbrev pub pickup_of : Option Offer → Window → Window
pickup_of none w = w
pickup_of (some o) w = o.pickup

-- `ask <= mine || (ask - mine) / ask <= acceptGapPct`
abbrev pub is_close : ℕ → ℕ → ℕ → Bool
is_close ask mine gap = leb ask mine || leb ((ask - mine) * whole) (gap * ask)

unfoldable pub next_rate : BrokerPrivateContext → ℕ → ℕ → ℕ → ℕ
next_rate ctx cap ask mine = min cap (round5 (toward ctx.concession mine (min ask cap)))

unfoldable pub on_counter : NegotiationView → BrokerPrivateContext → MandateLimits → Decision
on_counter view ctx l =
    let ask = view.offer.rate in
    let mine = rate_of view.my_last_offer in
    let cap = max_pay ctx l view.load.miles in
    let windows_ok =
      within_hours view.offer.pickup.window_start view.load.origin.window_start
        ctx.pickup_flex_hours in
    let pickup =
      if windows_ok then view.offer.pickup else pickup_of view.my_last_offer view.load.origin in
    let next = next_rate ctx cap ask mine in
    if windows_ok && (leb ask cap && is_close ask mine ctx.accept_gap)
    then accept
    else if windows_ok && leb ask next
    then accept
    else counter
        (record {
          rate = max next mine;
          pickup = pickup;
          delivery = view.offer.delivery;
          payment_terms_days = ctx.payment_terms_days;
        })
        (note_of windows_ok)

-- Of the terms, the rate and the days that the strategy looks at.
unfoldable pub on_accept_request :
    ℕ → ℕ → NegotiationView → BrokerPrivateContext → MandateLimits → Decision
on_accept_request rate days view ctx l = elim view.my_last_offer [
  | none ↦ reject terms_mismatch
  | some mine ↦
      if not (nat_beq rate mine.rate) || not (nat_beq days mine.payment_terms_days)
      then reject terms_mismatch
      else if ltb (max_pay ctx l view.load.miles) rate
      then reject above_maximum
      else accept
]
