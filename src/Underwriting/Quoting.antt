-- ===== src/Underwriting/Quoting.antt =====
-- The pure part of src/underwriting/engine.ts: the exposure that a quote looks at, and the quote.
use agentic_freight_venue.Common.{
  ℕ, ◌+◌, Bool, false, not, Option, none, some, String, if◌then◌else◌, ltb, ℤ, pos, ◌+ℤ◌, ltb_ℤ,
  ◌≡◌, ◌≤◌, arith, pos_part, ◌≢◌,
}
use agentic_freight_venue.Protocol.Reasons.{
  ReasonCode, guarantee_not_offered, underwriting_declined_risk, venue_exposure_limit_exceeded,
  venue_portfolio_limit_exceeded,
}
use agentic_freight_venue.Mandate.Exposure.{outstanding}
use agentic_freight_venue.Underwriting.Types.{RiskInputs, RiskAssessment}
use agentic_freight_venue.Underwriting.Model.{assess_risk, price_premium}
use agentic_freight_venue.Underwriting.Engine.{Underwriting, pair_key}

pub record ExposureView : Type 0 where
  pub counterparty_outstanding : ℕ
  pub counterparty_limit : ℕ
  pub pair_outstanding : ℕ
  pub portfolio_outstanding : ℤ
  pub portfolio_limit : ℕ

unfoldable pub exposure : String → String → Underwriting → ExposureView
exposure counterparty beneficiary s = record {
  counterparty_outstanding = outstanding counterparty s.counterparty;
  counterparty_limit = s.params.max_counterparty_exposure;
  pair_outstanding = outstanding (pair_key beneficiary counterparty) s.pair;
  portfolio_outstanding = s.portfolio;
  portfolio_limit = s.params.max_portfolio_exposure;
}

pub data UnderwritingDecision : Type 0 where
  guaranteed : RiskAssessment → ℕ → ℕ → ExposureView → UnderwritingDecision
  declined : RiskAssessment → ReasonCode → ExposureView → UnderwritingDecision

abbrev refuses : Option Bool → Bool
refuses none = false
refuses (some offers) = not offers

-- `quote`: pure. A guarantee is quoted by its covered amount and its premium; its identifier and the
-- texts of its scope are left out.
unfoldable pub quote : RiskInputs → String → Underwriting → UnderwritingDecision
quote inputs beneficiary s =
    let a = assess_risk inputs s.params in
    let e = exposure inputs.usdot beneficiary s in
    if refuses s.params.offer_guarantees
    then declined a guarantee_not_offered e
    else if ltb s.params.max_probability_of_loss a.probability_of_loss
    then declined a underwriting_declined_risk e
    else if ltb e.counterparty_limit (e.counterparty_outstanding + inputs.amount)
    then declined a venue_exposure_limit_exceeded e
    else if ltb_ℤ (pos e.portfolio_limit) (e.portfolio_outstanding +ℤ pos inputs.amount)
    then declined a venue_portfolio_limit_exceeded e
    else guaranteed a inputs.amount (price_premium a s.params) (record e {
      counterparty_outstanding = e.counterparty_outstanding + inputs.amount;
      pair_outstanding = e.pair_outstanding + inputs.amount;
      portfolio_outstanding = e.portfolio_outstanding +ℤ pos inputs.amount;
    })

-- A quote that guarantees a load covers exactly its amount at the model's premium, and only where
-- guarantees are not switched off, the assessed probability of loss is within the threshold, and the
-- amount fits under the counterparty's limit and under the portfolio's.
pub guaranteed-within_limits :
    (inputs : RiskInputs) (beneficiary : String) (s : Underwriting) (a : RiskAssessment)
    (amount premium : ℕ) (after : ExposureView)
    → quote inputs beneficiary s ≡ guaranteed a amount premium after
    → (a ≡ assess_risk inputs s.params)
      × (amount ≡ inputs.amount)
      × (premium ≡ price_premium a s.params)
      × (s.params.offer_guarantees ≢ some false)
      × (a.probability_of_loss ≤ s.params.max_probability_of_loss)
      × (outstanding inputs.usdot s.counterparty + amount ≤ s.params.max_counterparty_exposure)
      × (pos_part (s.portfolio +ℤ pos amount) ≤ s.params.max_portfolio_exposure)
unfolding quote exposure
guaranteed-within_limits inputs beneficiary s a amount premium after h = ground arith
