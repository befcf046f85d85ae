-- ===== src/Underwriting/Model/Bounds.antt =====
-- Bounds on what the risk model reports and charges.
use agentic_freight_venue.Common.{ℕ, ◌+◌, ◌*◌, ◌≤◌, arith}
use agentic_freight_venue.Underwriting.Types.{RiskInputs, RiskAssessment, UnderwritingParams}
use agentic_freight_venue.Underwriting.Model.{
  clamp_probability, apply_factors, risk_factors, assess_risk, price_premium,
}

-- The probability of loss lies between 0.2% and 99%.
clamp_bounds : (pd : ℕ) → (20 ≤ clamp_probability pd) × (clamp_probability pd ≤ 9900)
unfolding clamp_probability
clamp_bounds pd = omega arith

cents_le : (pd lgd amount : ℕ) → pd ≤ 9900 → lgd ≤ 10000 → pd * lgd * amount ≤ 99000000 * amount
cents_le pd lgd amount h k = grind arith

-- The assessed probability lies between 0.2% and 99%, and with a loss given default of at most 1 the
-- expected loss is at most the amount at stake.
pub assessment_bounds :
    (i : RiskInputs) (p : UnderwritingParams)
    → p.loss_given_default ≤ 10000
    → let a = assess_risk i p in
      (20 ≤ a.probability_of_loss) × (a.probability_of_loss ≤ 9900) × (a.expected_loss ≤ i.amount)
unfolding assess_risk
assessment_bounds i p h =
    let pd = clamp_probability (apply_factors 0 (risk_factors i)) in
    let b = clamp_bounds (apply_factors 0 (risk_factors i)) in
    (b.0, b.1, omega (arith, cents_le pd p.loss_given_default i.amount b.1 h))

-- With a load factor of at least 1 the premium covers the expected loss and the flat fee, and it is
-- never below the minimum premium.
pub premium-covers :
    (a : RiskAssessment) (p : UnderwritingParams)
    → 10000 ≤ p.load_factor
    → (a.expected_loss + p.flat_fee ≤ price_premium a p) × (p.min_premium ≤ price_premium a p)
unfolding price_premium
premium-covers a p h =
    let k : a.expected_loss * 10000 ≤ a.expected_loss * p.load_factor = grind arith in
    omega (arith, k)
