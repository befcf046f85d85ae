-- ===== src/Agents/Broker/Within.antt =====
-- The broker never pays more than it may.
use agentic_freight_venue.Common.{
  ℕ, ◌-◌, ◌*◌, ◌≤◌, ◌<◌, ◌≡◌, refl, max, Bool, true, false, Option, none, some, Option-cases, inl,
  inr, List, [], ◌∷◌, if◌then◌else◌, arith,
}
use mathlib.Core.Option.{some-injective}
use agentic_freight_venue.Mandate.Limits.{MandateLimits}
use agentic_freight_venue.Agents.Money.{
  Offer, LoadSpec, NegotiationView, CounterNoteCode, Decision, counter, accept, reject, whole,
  last_offer, floor_dollar,
}
use agentic_freight_venue.Agents.Broker.{
  BrokerPrivateContext, capped, mile_limit, max_pay, opening_offer, rate_of, next_rate, on_counter,
  on_accept_request,
}

-- A decision on a counteroffer that stays within a maximum: an acceptance is of an asked rate within it,
-- and a counteroffer raises the broker's own last rate, and never past it and the maximum.
pub IsWithin : ℕ → ℕ → ℕ → Decision → Type 0
IsWithin cap ask mine accept = ask ≤ cap
IsWithin cap ask mine (counter o note) = (mine ≤ o.rate) × (o.rate ≤ max cap mine)
IsWithin cap ask mine (reject code) = Unit

decided-IsWithin :
    (close fits : Bool) (cap ask mine next : ℕ) (o : Offer) (note : CounterNoteCode)
    → (close ≡ true → ask ≤ cap)
    → (fits ≡ true → ask ≤ next)
    → next ≤ cap
    → o.rate ≡ max next mine
    → IsWithin cap ask mine (if close then accept else if fits then accept else counter o note)
unfolding IsWithin
decided-IsWithin true fits cap ask mine next o note h k n e = h refl
decided-IsWithin false true cap ask mine next o note h k n e = omega (arith, k refl)
decided-IsWithin false false cap ask mine next o note h k n e = omega arith

-- In answer to a counteroffer the broker accepts no more than its maximum for the load, and its own
-- offers never go down and never above that maximum, or above its last offer where that was higher.
pub on_counter-IsWithin :
    (view : NegotiationView) (ctx : BrokerPrivateContext) (l : MandateLimits)
    → IsWithin
        (max_pay ctx l view.load.miles)
        view.offer.rate
        (rate_of view.my_last_offer)
        (on_counter view ctx l)
unfolding on_counter next_rate
on_counter-IsWithin view ctx l =
    decided-IsWithin _ _ (max_pay ctx l view.load.miles) view.offer.rate
      (rate_of view.my_last_offer)
      (next_rate ctx (max_pay ctx l view.load.miles) view.offer.rate (rate_of view.my_last_offer)) _
      _ (λ h. ground arith) (λ h. ground arith) (omega arith) refl

floor_le : (amount : ℕ) → floor_dollar amount * 10000 ≤ amount
floor_le amount = omega arith

capped_le : (amount : ℕ) (limit : Option ℕ) → capped amount limit ≤ amount
capped_le amount none = omega arith
capped_le amount (some limit) = omega arith

capped_limit :
    (amount : ℕ) (o : Option ℕ) (limit : ℕ) → o ≡ some limit → capped amount o ≤ limit * 10000
capped_limit amount none limit h = cc h
capped_limit amount (some bound) limit h =
    let same : bound ≡ limit = some-injective _ _ h in omega (arith, same)

mile_limited :
    (o : Option ℕ) (limit miles : ℕ)
    → o ≡ some limit
    → 0 < limit
    → mile_limit o miles ≡ some (limit * miles)
mile_limited o limit miles h positive = rw (h, mile_limit) (ground arith)

module _ (ctx : BrokerPrivateContext) (l : MandateLimits) (miles : ℕ) where
  abbrev by_margin : ℕ
  by_margin = ctx.customer_rate * (whole - ctx.min_margin)

  within_margin : max_pay ctx l miles * 10000 ≤ by_margin
  unfolding max_pay
  within_margin = omega (
    arith,
    floor_le (capped (capped by_margin l.max_rate_per_load) (mile_limit l.max_rate_per_mile miles)),
    capped_le (capped by_margin l.max_rate_per_load) (mile_limit l.max_rate_per_mile miles),
    capped_le by_margin l.max_rate_per_load,
  )

  within_load : (limit : ℕ) → l.max_rate_per_load ≡ some limit → max_pay ctx l miles ≤ limit
  unfolding max_pay
  within_load limit h = omega (
    arith,
    floor_le (capped (capped by_margin l.max_rate_per_load) (mile_limit l.max_rate_per_mile miles)),
    capped_le (capped by_margin l.max_rate_per_load) (mile_limit l.max_rate_per_mile miles),
    capped_limit by_margin l.max_rate_per_load limit h,
  )

  within_miles :
      (limit : ℕ)
      → l.max_rate_per_mile ≡ some limit
      → 0 < limit
      → max_pay ctx l miles ≤ limit * miles
  unfolding max_pay
  within_miles limit h positive = omega (
    arith,
    floor_le (capped (capped by_margin l.max_rate_per_load) (mile_limit l.max_rate_per_mile miles)),
    capped_limit (capped by_margin l.max_rate_per_load) (mile_limit l.max_rate_per_mile miles)
        (limit * miles) (mile_limited l.max_rate_per_mile limit miles h positive),
  )

-- The broker's maximum for a load is at most its customer's rate less its least margin, at most the
-- mandate's limit for a load, and at most the mandate's limit per mile over the miles where that limit
-- is not nothing; and it opens at no more.
pub max_pay_bounds :
    (load : LoadSpec) (ctx : BrokerPrivateContext) (l : MandateLimits)
    → (max_pay ctx l load.miles * 10000 ≤ ctx.customer_rate * (10000 - ctx.min_margin))
      × ((limit : ℕ) → l.max_rate_per_load ≡ some limit → max_pay ctx l load.miles ≤ limit)
      × ((limit : ℕ)
          → l.max_rate_per_mile ≡ some limit
          → 0 < limit
          → max_pay ctx l load.miles ≤ limit * load.miles)
      × ((opening_offer load ctx l).rate ≤ max_pay ctx l load.miles)
unfolding opening_offer
max_pay_bounds load ctx l = (
  within_margin ctx l load.miles,
  within_load ctx l load.miles,
  within_miles ctx l load.miles,
  omega arith,
)

-- A decision that pays no more than a maximum: what is accepted, or offered.
abbrev pub IsAtMost : ℕ → ℕ → Decision → Type 0
IsAtMost cap ask accept = ask ≤ cap
IsAtMost cap ask (counter o note) = o.rate ≤ cap
IsAtMost cap ask (reject code) = Unit {0}

module _ (load : LoadSpec) (ctx : BrokerPrivateContext) (l : MandateLimits) where
  abbrev pub answer : Option Offer → NegotiationView → Decision
  answer mine v = on_counter (record v { load = load; my_last_offer = mine }) ctx l

  -- Every answer to a run of counteroffers about the load, from an own last offer on.
  abbrev pub AreAtMost : ℕ → Option Offer → List NegotiationView → Type 0
  AreAtMost cap mine [] = Unit {0}
  AreAtMost cap mine (v ∷ vs) =
      IsAtMost cap v.offer.rate (answer mine v) × AreAtMost cap (last_offer (answer mine v) mine) vs

  one_more :
      (mine : Option Offer) (ask : ℕ) (d : Decision)
      → rate_of mine ≤ max_pay ctx l load.miles
      → IsWithin (max_pay ctx l load.miles) ask (rate_of mine) d
      → IsAtMost (max_pay ctx l load.miles) ask d
        × (rate_of (last_offer d mine) ≤ max_pay ctx l load.miles)
  unfolding IsWithin
  one_more mine ask accept within h = (h, within)
  one_more mine ask (counter o note) within h = (omega arith, omega arith)
  one_more mine ask (reject code) within h = (tt, within)

  answers-AreAtMost :
      (mine : Option Offer) (vs : List NegotiationView)
      → rate_of mine ≤ max_pay ctx l load.miles
      → AreAtMost (max_pay ctx l load.miles) mine vs
  answers-AreAtMost mine [] within = tt
  answers-AreAtMost mine (v ∷ vs) within =
      let step =
        one_more mine v.offer.rate (answer mine v) within
          (on_counter-IsWithin (record v { load = load; my_last_offer = mine }) ctx l) in
      (step.0, answers-AreAtMost (last_offer (answer mine v) mine) vs step.1)

  accept-within :
      (rate days : ℕ) (v : NegotiationView)
      → on_accept_request rate days (record v { load = load }) ctx l ≡ accept
      → rate ≤ max_pay ctx l load.miles
  unfolding on_accept_request
  accept-within rate days v h = elim (Option-cases (v.my_last_offer)) [
    | inl none_yet ↦ ground arith
    | inr (mine, is) ↦ ground arith
  ]

  -- In a whole negotiation of a load the broker pays no more than its maximum: its opening offer is within it,
  -- so is every rate that it then accepts or offers in answer to any run of counteroffers, each with the
  -- broker's own last offer in view, and every rate that it confirms when asked to. And the maximum is within
  -- the mandate's limit for a load, its limit per mile where that is not nothing, and what the customer pays
  -- less the least margin.
  pub broker-AreAtMost :
      (vs : List NegotiationView)
      → let cap = max_pay ctx l load.miles in
        ((opening_offer load ctx l).rate ≤ cap)
        × AreAtMost cap (some (opening_offer load ctx l)) vs
        × ((rate days : ℕ) (v : NegotiationView)
            → on_accept_request rate days (record v { load = load }) ctx l ≡ accept
            → rate ≤ cap)
        × ((limit : ℕ) → l.max_rate_per_load ≡ some limit → cap ≤ limit)
        × ((limit : ℕ) → l.max_rate_per_mile ≡ some limit → 0 < limit → cap ≤ limit * load.miles)
        × (cap * 10000 ≤ ctx.customer_rate * (10000 - ctx.min_margin))
  broker-AreAtMost vs =
      let (margin, per_load, per_mile, opens) = max_pay_bounds load ctx l in
      (
        opens,
        answers-AreAtMost (some (opening_offer load ctx l)) vs opens,
        accept-within,
        per_load,
        per_mile,
        margin,
      )
