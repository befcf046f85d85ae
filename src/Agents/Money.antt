-- ===== src/Agents/Money.antt =====
-- What the two strategies share: offers and views (src/agentkit/types.ts), and amounts of money that are
-- cut to dollars, to five dollars, or part of the way between two amounts. An amount is in cents, a
-- share in ten-thousandths, and a product of the two is kept exact until it is rounded; the source
-- computes it with floats. Of a negotiation's view, the parts that a strategy reads are kept.
use agentic_freight_venue.Common.{some, ℕ, ◌+◌, ◌-◌, ◌*◌, ◌/◌, Bool, Option, if◌then◌else◌, leb}

pub record Window : Type 0 where
  pub window_start : ℕ
  pub window_end : ℕ

pub record Offer : Type 0 where
  pub rate : ℕ
  pub pickup : Window
  pub delivery : Window
  pub payment_terms_days : ℕ

-- Of the load, its miles and its two windows.
pub record LoadSpec : Type 0 where
  pub miles : ℕ
  pub origin : Window
  pub destination : Window

pub record NegotiationView : Type 0 where
  pub load : LoadSpec
  pub offer : Offer
  pub my_last_offer : Option Offer

pub data CounterNoteCode : Type 0 where
  rate pickup_window delivery_window payment_terms equipment final_offer other : CounterNoteCode

pub data RejectReasonCode : Type 0 where
  outside_mandate below_minimum above_maximum terms_mismatch window_infeasible no_capacity
        no_inbound_tenders other_reason :
      RejectReasonCode

pub data Decision : Type 0 where
  counter : Offer → CounterNoteCode → Decision
  accept : Decision
  reject : RejectReasonCode → Decision

-- `1` as a share.
abbrev pub whole : ℕ
whole = 10000

-- An amount over a share, exact.
abbrev pub exact : ℕ → ℕ
exact cents = cents * whole

-- `Math.floor` and `Math.ceil` of an exact amount, to the dollar, in cents.
abbrev pub floor_dollar : ℕ → ℕ
floor_dollar amount = amount / 1000000 * 100

abbrev pub ceil_dollar : ℕ → ℕ
ceil_dollar amount = (amount + 999999) / 1000000 * 100

-- `round5`: `Math.round(x / 5) * 5`, halves up, of an exact amount.
abbrev pub round5 : ℕ → ℕ
round5 amount = (2 * amount + 5000000) / 10000000 * 500

-- `mine + share * (goal - mine)`, exact, for a share of at most 1.
abbrev pub toward : ℕ → ℕ → ℕ → ℕ
toward share mine goal =
    if leb mine goal then exact mine + share * (goal - mine) else exact mine - share * (mine - goal)

abbrev pub note_of : Bool → CounterNoteCode
note_of windows_ok = if windows_ok then rate else pickup_window

-- The own last offer after a decision: `myLastOffer` of a view is what the strategy opened or countered with.
abbrev pub last_offer : Decision → Option Offer → Option Offer
last_offer (counter o note) mine = some o
last_offer accept mine = mine
last_offer (reject code) mine = mine
