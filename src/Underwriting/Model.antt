-- ===== src/Underwriting/Model.antt =====
-- The risk model of src/underwriting/model.ts. The source's coefficients are multiples of 0.0001 and
-- become whole numbers; `toFixed(2)` of an amount is rounding to the cent, halves up. The notes
-- beside the factors are text and are left out.
pub mod Bounds
pub mod Response
use text.Mathlib.Text.{find?}
use agentic_freight_venue.Common.{
  ℕ, ◌+◌, ◌-◌, ◌*◌, ◌/◌, min, max, Bool, true, false, ◌||◌, Option, none, some, List, [], ◌∷◌, ◌++◌,
  String, if◌then◌else◌, ltb, leb, nat_beq, keep, length,
}
use agentic_freight_venue.Underwriting.Types.{
  SafetyRating, satisfactory, conditional, unsatisfactory, unrated, RiskInputs, Factor,
  RiskAssessment, UnderwritingParams,
}

abbrev pub raising : String → ℕ → Factor
raising name d = record { name = name; raises = d; lowers = 0 }

abbrev pub lowering : String → ℕ → Factor
lowering name d = record { name = name; raises = 0; lowers = d }

unfoldable pub age_base : ℕ → ℕ
age_base days = if ltb days 180 then 600 else if ltb days 730 then 300 else 120

unfoldable pub rating_factors : SafetyRating → List Factor
rating_factors conditional = raising "safetyRating" 200 ∷ []
rating_factors unsatisfactory = raising "safetyRating" 5000 ∷ []
rating_factors satisfactory = []
rating_factors unrated = []

abbrev pub factor_if : Bool → String → ℕ → List Factor
factor_if b name d = if b then raising name d ∷ [] else []

-- `bipd / required < 1.2`, where an absent requirement counts as a ratio of 1.
unfoldable pub thin_headroom : ℕ → ℕ → Bool
thin_headroom bipd required = if ltb 0 required then ltb (bipd * 10) (required * 12) else true

abbrev pub mentions : String → String → Bool
mentions flag word = elim (find? flag word) [ none ↦ false | some _ ↦ true ]

-- `/mismatch|recently-changed|virtual-office|not-found/`
unfoldable pub is_bad_flag : String → Bool
is_bad_flag flag =
    mentions flag "mismatch"
    || mentions flag "recently-changed"
    || mentions flag "virtual-office"
    || mentions flag "not-found"

unfoldable pub bad_flags : List String → ℕ
bad_flags flags = length (keep is_bad_flag flags)

unfoldable pub history_credit : ℕ → ℕ
history_credit completed = min 120 (completed * 6)

abbrev pub counted : ℕ → String → ℕ → List Factor
counted n name weight = factor_if (ltb 0 n) name (weight * n)

abbrev pub credit_factor : ℕ → List Factor
credit_factor credit = if ltb 0 credit then lowering "history" credit ∷ [] else []

-- The factors in the order of the source.
unfoldable pub risk_factors : RiskInputs → List Factor
risk_factors i =
    (raising "authorityAge" (age_base i.authority_age_days) ∷ [])
    ++ (rating_factors i.safety_rating
        ++ (factor_if (leb i.power_units 3) "fleetSize" 100
            ++ (factor_if (thin_headroom i.bipd i.required_bipd) "insuranceHeadroom" 80
                ++ (counted (bad_flags i.vetting_flags) "vettingFlags" 150
                    ++ (factor_if i.registry_changed "registryDrift" 100
                        ++ (credit_factor (history_credit i.history.loads_completed)
                            ++ (counted i.history.claims_paid "claims" 200
                                ++ counted i.history.disputes_open "disputes" 100)))))))

-- `pd` as the source runs it up: each factor is applied to the running total. The history credit,
-- at most 120, comes after an authority age of at least 120, so nothing is cut off.
unfoldable pub apply_factors : ℕ → List Factor → ℕ
apply_factors pd [] = pd
apply_factors pd (f ∷ fs) = apply_factors (pd + f.raises - f.lowers) fs

-- `a / b` rounded to the nearest whole, halves up.
abbrev pub rounded : ℕ → ℕ → ℕ
rounded a b = (2 * a + b) / (2 * b)

unfoldable pub clamp_probability : ℕ → ℕ
clamp_probability pd = max 20 (min 9900 pd)

unfoldable pub assess_risk : RiskInputs → UnderwritingParams → RiskAssessment
assess_risk i p =
    let pd = clamp_probability (apply_factors 0 (risk_factors i)) in
    record {
      usdot = i.usdot;
      probability_of_loss = pd;
      loss_given_default = p.loss_given_default;
      expected_loss = rounded (pd * p.loss_given_default * i.amount) 100000000;
      factors = risk_factors i;
    }

unfoldable pub price_premium : RiskAssessment → UnderwritingParams → ℕ
price_premium a p =
    rounded (max (p.min_premium * 10000) (a.expected_loss * p.load_factor + p.flat_fee * 10000))
      10000
