-- ===== src/Underwriting/Tests.antt =====
-- The underwriting engine at concrete inputs: a carrier, a guarantee, its claims and its books.
use text.Mathlib.TextEquality.{eq_iff}
use agentic_freight_venue.Common.{
  ℕ, ◌+◌, ◌≤◌, ◌≡◌, refl, ◌≢◌, ◌↔◌, Bool, true, false, Option, none, some, List, [], ◌∷◌, String,
  arith, lookup, insert, values, sum, pos, pos_part, ◌+ℤ◌, if◌then◌else◌,
}
use agentic_freight_venue.Protocol.Freight.{picked_up}
use agentic_freight_venue.Mandate.Exposure.{outstanding}
use agentic_freight_venue.Underwriting.Types.{
  satisfactory, conditional, RiskInputs, UnderwritingParams,
}
use agentic_freight_venue.Underwriting.Model.{
  age_base, rating_factors, thin_headroom, bad_flags, history_credit, risk_factors, apply_factors,
  clamp_probability, assess_risk, price_premium,
}
use agentic_freight_venue.Underwriting.Model.Response.{AtLeastAsRisky, probability_monotone}
use agentic_freight_venue.Underwriting.Model.Bounds.{premium-covers}
use agentic_freight_venue.Underwriting.Claims.{
  Claim, ClaimInput, ClaimContext, Decision, deferred, rules, adjudicate, new_claim,
  reserve_available,
}
use agentic_freight_venue.Underwriting.Claims.Coverage.{
  Covers, IsCapped, adjudicate-Covers_iff, adjudicate-IsCapped,
}
use agentic_freight_venue.Underwriting.Engine.{
  Underwriting, QuotedGuarantee, attached_record, fresh, no_history, restart, is_claimable, attach,
  guarantee_for_commitment, release, history_for,
}
use agentic_freight_venue.Underwriting.Engine.Preserved.{IsAgreed}
use agentic_freight_venue.Underwriting.Quoting.{
  quote, exposure, guaranteed, guaranteed-within_limits,
}
use agentic_freight_venue.Underwriting.Settlement.{
  settle_each, file_claim, conclude, settle, settle_covered, after_payment,
}
use agentic_freight_venue.Underwriting.Settlement.Solvency.{IsSolvent, run-fresh-IsSolvent}
use agentic_freight_venue.Underwriting.Settlement.Twice.{IsDeferred, settle_each_twice}
use agentic_freight_venue.Underwriting.Run.{Call, attaches, completes, files, funds, perform, run}
use agentic_freight_venue.Underwriting.Run.Agreement.{
  AreOrderly, run-fresh-IsAgreed, restart-loses_waiting,
}

abbrev params : UnderwritingParams
params = record {
  offer_guarantees = none;
  max_probability_of_loss = 1500;
  load_factor = 15000;
  flat_fee = 500;
  min_premium = 1000;
  max_counterparty_exposure = 1000000;
  max_portfolio_exposure = 10000000;
  loss_given_default = 6000;
  claim_window_days = 14;
  initial_capital = 500000;
}

abbrev carrier : RiskInputs
carrier = record {
  usdot = "2233541";
  authority_age_days = 900;
  safety_rating = satisfactory;
  power_units = 12;
  bipd = 100000000;
  required_bipd = 75000000;
  vetting_flags = [];
  registry_changed = false;
  history = no_history;
  amount = 221500;
}

abbrev new_carrier : RiskInputs
new_carrier = record carrier {
  authority_age_days = 90;
  safety_rating = conditional;
  power_units = 2;
  registry_changed = true;
}

abbrev quoted : QuotedGuarantee
quoted = record {
  guarantee_id = "g1";
  counterparty = "2233541";
  beneficiary = "3100001";
  covered_amount = 221500;
  premium = 2000;
  day = "2026-09-23";
}

abbrev claimed : ClaimInput
claimed = record {
  guarantee_id = "g1";
  commitment_id = "c1";
  claimant = "3100001";
  peril = "IDENTITY_FRAUD";
  amount = 300000;
}

abbrev decided : Decision
decided = record {
  is_covered = true;
  reason_code = none;
  payout = 221500;
  decided_at = 20;
  decided_by = rules;
}

abbrev waiting : Claim
waiting = record {
  claim_id = "cl1";
  guarantee_id = "g1";
  commitment_id = "c1";
  claimant = "3100001";
  peril = "IDENTITY_FRAUD";
  amount = 300000;
  filed_at = 20;
  status = deferred;
  decision = some decided;
  paid_at = none;
}

abbrev context : ClaimContext
context = record {
  guarantee = some (attached_record quoted "c1" 10);
  commitment = some (record {
    delivery_window_end = 15;
    voided_at = none;
    lifecycle = record { event = picked_up; at = "2026-09-23T12:00:00.000Z" } ∷ [];
  });
  now = 20;
  window_days = 14;
}

abbrev calls : List Call
calls = attaches quoted "c1" 10 ∷ completes "g1" 15 16 ∷ []

model_tests :
    ((assess_risk carrier params).probability_of_loss ≡ 120)
    × ((assess_risk new_carrier params).probability_of_loss ≡ 1000)
    × (price_premium (assess_risk carrier params) params ≡ 2893)
unfolding assess_risk price_premium risk_factors age_base rating_factors thin_headroom bad_flags
    history_credit apply_factors clamp_probability
model_tests = (refl, refl, refl)

claim_tests :
    ((adjudicate waiting context).payout ≡ 221500)
    × ((run
          (attaches quoted "c1" 10 ∷ files "cl1" claimed none 20 ∷ [])
          (fresh params)).reserve.payouts
        ≡ 221500)
unfolding adjudicate run perform fresh lookup insert attach guarantee_for_commitment file_claim
    new_claim conclude settle settle_covered reserve_available after_payment release history_for
claim_tests = (refl, refl)

named : ◌≢◌ {A = String} "c1" ""
named = ground (arith, eq_iff "c1" "")

riskier : AtLeastAsRisky carrier new_carrier
unfolding bad_flags thin_headroom
riskier = record {
  age = omega arith;
  rating = omega arith;
  fleet = omega arith;
  headroom = λ h. h;
  flags = omega arith;
  drift = λ h. refl;
  completed = omega arith;
  claims = omega arith;
  disputes = omega arith;
}

probability_monotone_example :
    (assess_risk carrier params).probability_of_loss
    ≤ (assess_risk new_carrier params).probability_of_loss
probability_monotone_example = probability_monotone carrier new_carrier params riskier

premium-covers_example :
    let a = assess_risk carrier params in
    (a.expected_loss + 500 ≤ price_premium a params) × (1000 ≤ price_premium a params)
premium-covers_example = premium-covers (assess_risk carrier params) params (omega arith)

adjudicate-Covers_iff_example :
    ((adjudicate waiting context).is_covered ≡ true) ↔ Covers waiting context context.guarantee
adjudicate-Covers_iff_example = adjudicate-Covers_iff waiting context

adjudicate-IsCapped_example : IsCapped waiting context.guarantee (adjudicate waiting context)
adjudicate-IsCapped_example = adjudicate-IsCapped waiting context

run-fresh-IsSolvent_example :
    IsSolvent
      (run (attaches quoted "c1" 10 ∷ files "cl1" claimed none 20 ∷ funds 100 ∷ []) (fresh params))
run-fresh-IsSolvent_example =
    run-fresh-IsSolvent params
      (attaches quoted "c1" 10 ∷ files "cl1" claimed none 20 ∷ funds 100 ∷ [])

calls-AreOrderly : AreOrderly calls (fresh params)
unfolding fresh lookup
calls-AreOrderly = ((refl, named), (tt, tt))

run-fresh-IsAgreed_example : IsAgreed (run calls (fresh params))
run-fresh-IsAgreed_example = run-fresh-IsAgreed params calls calls-AreOrderly

restart-loses_waiting_example :
    let s = run calls (fresh params) in
    pos_part s.portfolio
    ≡ pos_part (restart s).portfolio
      + sum (λ g. if is_claimable g.status then g.covered_amount else 0) (values s.guarantees)
restart-loses_waiting_example =
    restart-loses_waiting (run calls (fresh params)) run-fresh-IsAgreed_example

abbrev funded : Underwriting
funded = record (fresh params) { guarantees = ("g1", attached_record quoted "c1" 10) ∷ [] }

waiting-IsDeferred : IsDeferred waiting 221500
waiting-IsDeferred = record {
  waits = refl;
  decision = decided;
  decided = refl;
  covers = refl;
  amount = refl;
}

settle_each_twice_example :
    (settle_each (waiting ∷ record waiting { claim_id = "cl2" } ∷ []) 30 funded).1.reserve.payouts
    ≡ funded.reserve.payouts + 221500 + 221500
unfolding fresh
settle_each_twice_example =
    settle_each_twice waiting (record waiting { claim_id = "cl2" }) 221500 221500 30 funded
      waiting-IsDeferred
      (record { waits = refl; decision = decided; decided = refl; covers = refl; amount = refl })
      (omega arith)

quote_computes :
    quote carrier "3100001" (fresh params)
    ≡ guaranteed
        (assess_risk carrier params)
        221500
        (price_premium (assess_risk carrier params) params)
        (record {
          counterparty_outstanding = 221500;
          counterparty_limit = 1000000;
          pair_outstanding = 221500;
          portfolio_outstanding = pos 221500;
          portfolio_limit = 10000000;
        })
unfolding quote exposure fresh assess_risk price_premium risk_factors age_base rating_factors
    thin_headroom bad_flags history_credit apply_factors clamp_probability outstanding lookup ◌+ℤ◌
quote_computes = refl

guaranteed-within_limits_example :
    (assess_risk carrier params ≡ assess_risk carrier params)
    × (◌≡◌ {A = ℕ} 221500 221500)
    × (price_premium (assess_risk carrier params) params
        ≡ price_premium (assess_risk carrier params) params)
    × (◌≢◌ {A = Option Bool} none (some false))
    × ((assess_risk carrier params).probability_of_loss ≤ 1500)
    × (outstanding "2233541" (fresh params).counterparty + 221500 ≤ 1000000)
    × (pos_part ((fresh params).portfolio +ℤ pos 221500) ≤ 10000000)
guaranteed-within_limits_example =
    unfold fresh in
    guaranteed-within_limits carrier "3100001" (fresh params) _ 221500 _ _ quote_computes
