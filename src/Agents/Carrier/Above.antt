-- ===== src/Agents/Carrier/Above.antt =====
-- The carrier's floor: where it holds, and the one answer that does not look at it.
use agentic_freight_venue.Common.{
  ℕ, ◌+◌, ◌*◌, ◌≤◌, ◌<◌, ◌≡◌, refl, min, max, Bool, true, false, Option, none, Option-cases, inl,
  inr, List, [], ◌∷◌, if◌then◌else◌, arith, or_else,
}
use agentic_freight_venue.Mandate.Limits.{MandateLimits}
use agentic_freight_venue.Agents.Money.{
  Offer, LoadSpec, NegotiationView, CounterNoteCode, Decision, counter, accept, reject, whole,
  last_offer,
}
use agentic_freight_venue.Agents.Carrier.{
  CarrierPrivateContext, mandate_floor, cost_of, economics, on_tender, rate_or, next_rate,
  on_counter, on_accept_request,
}

-- A decision that stays above a floor: an acceptance is of an offered rate above it, and a counteroffer
-- lowers the carrier's own last rate, and never past it and the floor.
pub IsAbove : ℕ → ℕ → ℕ → Decision → Type 0
IsAbove floor offered mine accept = floor ≤ offered
IsAbove floor offered mine (counter o note) = (o.rate ≤ mine) × (min floor mine ≤ o.rate)
IsAbove floor offered mine (reject code) = Unit

decided-IsAbove :
    (close fits : Bool) (floor offered mine next : ℕ) (o : Offer) (note : CounterNoteCode)
    → (close ≡ true → floor ≤ offered)
    → (fits ≡ true → next ≤ offered)
    → floor ≤ next
    → o.rate ≡ min next mine
    → IsAbove floor offered mine (if close then accept else if fits then accept else counter o note)
unfolding IsAbove
decided-IsAbove true fits floor offered mine next o note h k n e = h refl
decided-IsAbove false true floor offered mine next o note h k n e = omega (arith, k refl)
decided-IsAbove false false floor offered mine next o note h k n e = omega arith

-- In answer to a counteroffer the carrier accepts no less than its floor for the load, and its own offers
-- never go up and never below that floor, or below its last offer where that was lower.
pub on_counter-IsAbove :
    (view : NegotiationView) (ctx : CarrierPrivateContext) (l : MandateLimits)
    → let e = economics view.load ctx l in
      IsAbove e.floor view.offer.rate
        (rate_or view.my_last_offer e.opening_ask)
        (on_counter view ctx l)
unfolding on_counter next_rate
on_counter-IsAbove view ctx l =
    let e = economics view.load ctx l in
    let mine = rate_or view.my_last_offer e.opening_ask in
    decided-IsAbove _ _ e.floor view.offer.rate mine (next_rate ctx e.floor view.offer.rate mine) _
      _ (λ h. ground arith) (λ h. ground arith) (omega arith) refl

-- The floor covers the carrier's cost with its least margin and the mandate's two floors.
pub floor_bounds :
    (load : LoadSpec) (ctx : CarrierPrivateContext) (l : MandateLimits)
    → let e = economics load ctx l in
      (cost_of load ctx * (10000 + ctx.min_margin) ≤ e.floor * 10000)
      × (or_else l.min_rate_per_load 0 ≤ e.floor)
      × (or_else l.min_rate_per_mile 0 * load.miles ≤ e.floor)
unfolding economics
floor_bounds load ctx l =
    let total = cost_of load ctx * (whole + ctx.min_margin) in
    let bound = mandate_floor load l in omega arith

-- A tender that the carrier can pick up is accepted at the carrier's target already: where the mandate's
-- floor is above the target, a tender between the two is accepted below the floor.
pub on_tender-below_floor :
    (view : NegotiationView) (ctx : CarrierPrivateContext) (l : MandateLimits)
    → ctx.earliest_pickup ≡ none
    → (economics view.load ctx l).target ≤ view.offer.rate
    → view.offer.rate < mandate_floor view.load l
    → (on_tender view ctx l ≡ accept) × (view.offer.rate < (economics view.load ctx l).floor)
unfolding on_tender
on_tender-below_floor view ctx l free meets below =
    (ground (arith, free), omega (arith, floor_bounds view.load ctx l))

-- A decision that takes no less than a floor: what is accepted, or asked.
abbrev pub IsAtLeast : ℕ → ℕ → Decision → Type 0
IsAtLeast floor offered accept = floor ≤ offered
IsAtLeast floor offered (counter o note) = floor ≤ o.rate
IsAtLeast floor offered (reject code) = Unit {0}

accept-or_ask :
    (fits : Bool) (floor target ask offered : ℕ) (o : Offer) (note : CounterNoteCode)
    → (fits ≡ true → target ≤ offered)
    → floor ≤ target
    → floor ≤ ask
    → o.rate ≡ max ask offered
    → let d = if fits then accept else counter o note in
      IsAtLeast floor offered d × (floor ≤ rate_or (last_offer d none) ask)
accept-or_ask true floor target ask offered o note h meets asks e = (omega (arith, h refl), asks)
accept-or_ask false floor target ask offered o note h meets asks e = (omega arith, omega arith)

asks-if :
    (fits : Bool) (o : Offer) (note : CounterNoteCode)
    → fits ≡ false
    → (if fits then accept else counter o note) ≡ counter o note
asks-if fits o note h = rw h refl

module _ (load : LoadSpec) (ctx : CarrierPrivateContext) (l : MandateLimits) where
  abbrev pub answer : Option Offer → NegotiationView → Decision
  answer mine v = on_counter (record v { load = load; my_last_offer = mine }) ctx l

  -- Every answer to a run of counteroffers about the load, from an own last offer on.
  abbrev pub AreAtLeast : ℕ → Option Offer → List NegotiationView → Type 0
  AreAtLeast floor mine [] = Unit {0}
  AreAtLeast floor mine (v ∷ vs) =
      IsAtLeast floor v.offer.rate (answer mine v)
      × AreAtLeast floor (last_offer (answer mine v) mine) vs

  one_more :
      (mine : Option Offer) (offered : ℕ) (d : Decision)
      → let e = economics load ctx l in
        e.floor ≤ rate_or mine e.opening_ask
        → IsAbove e.floor offered (rate_or mine e.opening_ask) d
        → IsAtLeast e.floor offered d × (e.floor ≤ rate_or (last_offer d mine) e.opening_ask)
  unfolding IsAbove
  one_more mine offered accept above h = (h, above)
  one_more mine offered (counter o note) above h = (omega arith, omega arith)
  one_more mine offered (reject code) above h = (tt, above)

  answers-AreAtLeast :
      (mine : Option Offer) (vs : List NegotiationView)
      → let e = economics load ctx l in
        e.floor ≤ rate_or mine e.opening_ask → AreAtLeast e.floor mine vs
  answers-AreAtLeast mine [] above = tt
  answers-AreAtLeast mine (v ∷ vs) above =
      let step =
        one_more mine v.offer.rate (answer mine v) above
          (on_counter-IsAbove (record v { load = load; my_last_offer = mine }) ctx l) in
      (step.0, answers-AreAtLeast (last_offer (answer mine v) mine) vs step.1)

  tender-IsAtLeast :
      (v : NegotiationView)
      → let e = economics load ctx l in
        let d = on_tender (record v { load = load }) ctx l in
        e.floor ≤ e.target
        → e.floor ≤ e.opening_ask
        → IsAtLeast e.floor v.offer.rate d × (e.floor ≤ rate_or (last_offer d none) e.opening_ask)
  unfolding on_tender
  tender-IsAtLeast v meets asks =
      let e = economics load ctx l in
      accept-or_ask _ e.floor e.target e.opening_ask v.offer.rate _ _ (λ h. ground arith) meets asks
        refl

  accept-above :
      (rate : ℕ) (v : NegotiationView)
      → on_accept_request rate (record v { load = load }) ctx l ≡ accept
      → (economics load ctx l).floor ≤ rate
  unfolding on_accept_request
  accept-above rate v h = elim (Option-cases (v.my_last_offer)) [
    | inl none_yet ↦ ground arith
    | inr (mine, is) ↦ ground arith
  ]

  tender-asks :
      (v : NegotiationView)
      → let e = economics load ctx l in
        v.offer.rate < e.target
        → v.offer.rate ≤ e.opening_ask
        → (o : Offer) × (note : CounterNoteCode) × (on_tender (record v { load = load }) ctx l
            ≡ counter o note)
          × (o.rate ≡ e.opening_ask)
  unfolding on_tender
  tender-asks v misses under = (_, _, asks-if _ _ _ (ground arith), omega arith)

  -- In a whole negotiation of a load the carrier takes no less than its floor, where neither its target nor
  -- its opening ask is below that floor: so are the rate of a tender that it accepts, its first ask, every rate
  -- that it then accepts or asks in answer to any run of counteroffers, each with the carrier's own last offer
  -- in view, and every rate that it confirms when asked to. That condition is needed: a tender that misses
  -- the target and is no more than the opening ask is answered with the opening ask, even below the floor.
  pub carrier-AreAtLeast :
      (tender : NegotiationView) (vs : List NegotiationView)
      → let e = economics load ctx l in
        let first = on_tender (record tender { load = load }) ctx l in
        (e.floor ≤ e.target
          → e.floor ≤ e.opening_ask
          → IsAtLeast e.floor tender.offer.rate first
            × AreAtLeast e.floor (last_offer first none) vs)
        × ((rate : ℕ) (v : NegotiationView)
            → on_accept_request rate (record v { load = load }) ctx l ≡ accept
            → e.floor ≤ rate)
        × (tender.offer.rate < e.target
            → tender.offer.rate ≤ e.opening_ask
            → (o : Offer) × (note : CounterNoteCode) × (first ≡ counter o note)
              × (o.rate ≡ e.opening_ask))
  carrier-AreAtLeast tender vs = (
    λ meets asks.
        let opened = tender-IsAtLeast tender meets asks in
        (opened.0, answers-AreAtLeast _ vs opened.1),
    accept-above,
    tender-asks tender,
  )
