-- ===== src/Underwriting/Settlement/Twice.antt =====
-- What a retry pays on two deferred claims of one guarantee.
use agentic_freight_venue.Common.{ℕ, ◌+◌, ◌≤◌, ◌≡◌, refl, true, some, List, [], ◌∷◌, arith}
use agentic_freight_venue.Underwriting.Claims.{Claim, Decision, deferred, reserve_available}
use agentic_freight_venue.Underwriting.Engine.{Underwriting}
use agentic_freight_venue.Underwriting.Settlement.{
  paid_out, settle_covered, settle, settle_each, store, is_deferred,
}
use agentic_freight_venue.Underwriting.Settlement.Solvency.{after_payment-SameFunds}

-- A deferred claim whose rules-decision covers it for an amount.
pub record IsDeferred (c : Claim) (payout : ℕ) : Type 0 where
  pub waits : c.status ≡ deferred
  pub decision : Decision
  pub decided : c.decision ≡ some decision
  pub covers : decision.is_covered ≡ true
  pub amount : decision.payout ≡ payout

settle_pays :
    (c : Claim) (payout now : ℕ) (s : Underwriting)
    → IsDeferred c payout
    → s.reserve.payouts + payout ≤ s.reserve.initial_capital + s.reserve.premiums
    → let s' = (settle c now s).1 in
      (s'.reserve.payouts ≡ s.reserve.payouts + payout)
      × (s'.reserve.initial_capital ≡ s.reserve.initial_capital)
      × (s'.reserve.premiums ≡ s.reserve.premiums)
unfolding settle settle_covered reserve_available
settle_pays c payout now s d enough =
    rw (d.decided, settle)
      (ground
        (arith, d.waits, d.covers, d.amount, after_payment-SameFunds c now (paid_out payout s)))

each_deferred :
    (c : Claim) (cs : List Claim) (now : ℕ) (s : Underwriting)
    → is_deferred c.status ≡ true
    → (settle_each (c ∷ cs) now s).1 ≡ (settle_each cs now (store (settle c now s))).1
unfolding settle_each
each_deferred c cs now s e = rw e refl

-- A retry over two deferred claims pays both in full where the reserve allows it, whatever their
-- guarantees: two claims under one guarantee are paid even where the sum is above its covered amount
-- and the first payment has released it.
pub settle_each_twice :
    (c d : Claim) (p q now : ℕ) (s : Underwriting)
    → IsDeferred c p
    → IsDeferred d q
    → s.reserve.payouts + p + q ≤ s.reserve.initial_capital + s.reserve.premiums
    → (settle_each (c ∷ d ∷ []) now s).1.reserve.payouts ≡ s.reserve.payouts + p + q
settle_each_twice c d p q now s hc hd enough =
    let first = settle_pays c p now s hc (omega (arith, enough)) in
    let second = settle_pays d q now (store (settle c now s)) hd (omega (arith, first, enough)) in
    rw
      (
        each_deferred c (d ∷ []) now s (rw hc.waits refl),
        each_deferred d [] now (store (settle c now s)) (rw hd.waits refl),
      )
      (unfold settle_each in omega (arith, first, second))
