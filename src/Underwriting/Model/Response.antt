-- ===== src/Underwriting/Model/Response.antt =====
-- The probability of loss as a sum of its named factors, and how it responds to the inputs.
use agentic_freight_venue.Common.{
  ℕ, ◌+◌, ◌-◌, ◌*◌, ◌≤◌, min, max, ◌≡◌, refl, Bool, true, false, List, [], ◌∷◌, ◌++◌, String, sum,
  arith, leb, ltb, if◌then◌else◌,
}
use agentic_freight_venue.Underwriting.Types.{
  SafetyRating, satisfactory, conditional, unsatisfactory, unrated, RiskInputs, Factor,
  UnderwritingParams,
}
use agentic_freight_venue.Underwriting.Model.{
  raising, age_base, rating_factors, factor_if, thin_headroom, bad_flags, history_credit,
  credit_factor, risk_factors, apply_factors, clamp_probability, assess_risk,
}

abbrev raised : List Factor → ℕ
raised = sum (λ f. f.raises)

abbrev lowered : List Factor → ℕ
lowered = sum (λ f. f.lowers)

apply_factors-append :
    (pd : ℕ) (xs ys : List Factor)
    → apply_factors pd (xs ++ ys) ≡ apply_factors (apply_factors pd xs) ys
unfolding apply_factors
apply_factors-append pd [] ys = refl
apply_factors-append pd (x ∷ xs) ys = apply_factors-append (pd + x.raises - x.lowers) xs ys

apply-factor_if :
    (pd : ℕ) (b : Bool) (name : String) (d : ℕ)
    → apply_factors pd (factor_if b name d) ≡ pd + (if b then d else 0)
unfolding apply_factors
apply-factor_if pd b name d = ground arith

times_positive : (n weight : ℕ) → (if ltb 0 n then weight * n else 0) ≡ weight * n
times_positive n weight = grind arith

apply-first : (name : String) (d : ℕ) → apply_factors 0 (raising name d ∷ []) ≡ d
unfolding apply_factors
apply-first name d = omega arith

abbrev rating_weight : SafetyRating → ℕ
rating_weight satisfactory = 0
rating_weight conditional = 200
rating_weight unsatisfactory = 5000
rating_weight unrated = 0

apply-rating :
    (pd : ℕ) (r : SafetyRating) → apply_factors pd (rating_factors r) ≡ pd + rating_weight r
unfolding apply_factors rating_factors
apply-rating pd r = ground arith

apply-credit : (pd c : ℕ) → apply_factors pd (credit_factor c) ≡ pd - c
unfolding apply_factors
apply-credit pd c = ground arith

-- The total before clamping, written as one sum.
abbrev total : RiskInputs → ℕ
total i =
    age_base i.authority_age_days
    + rating_weight i.safety_rating
    + (if leb i.power_units 3 then 100 else 0)
    + (if thin_headroom i.bipd i.required_bipd then 80 else 0)
    + 150 * bad_flags i.vetting_flags
    + (if i.registry_changed then 100 else 0)
    - history_credit i.history.loads_completed
    + 200 * i.history.claims_paid
    + 100 * i.history.disputes_open

apply-risk_factors : (i : RiskInputs) → apply_factors 0 (risk_factors i) ≡ total i
unfolding risk_factors
apply-risk_factors i =
    simp (apply_factors-append, apply-factor_if, apply-rating, apply-credit, apply-first)
      (simp times_positive)

-- One carrier is at least as risky as another, input by input.
pub record AtLeastAsRisky (i j : RiskInputs) : Type 0 where
  pub age : j.authority_age_days ≤ i.authority_age_days
  pub rating : rating_weight i.safety_rating ≤ rating_weight j.safety_rating
  pub fleet : j.power_units ≤ i.power_units
  pub headroom :
      thin_headroom i.bipd i.required_bipd ≡ true → thin_headroom j.bipd j.required_bipd ≡ true
  pub flags : bad_flags i.vetting_flags ≤ bad_flags j.vetting_flags
  pub drift : i.registry_changed ≡ true → j.registry_changed ≡ true
  pub completed : j.history.loads_completed ≤ i.history.loads_completed
  pub claims : i.history.claims_paid ≤ j.history.claims_paid
  pub disputes : i.history.disputes_open ≤ j.history.disputes_open

age_base_mono : (a b : ℕ) → b ≤ a → age_base a ≤ age_base b
unfolding age_base
age_base_mono a b h = ground arith

age_base_least : (a : ℕ) → 120 ≤ age_base a
unfolding age_base
age_base_least a = ground arith

credit_mono : (a b : ℕ) → b ≤ a → history_credit b ≤ history_credit a
unfolding history_credit
credit_mono a b h = omega arith

credit_most : (a : ℕ) → history_credit a ≤ 120
unfolding history_credit
credit_most a = omega arith

when_mono :
    (a b : Bool) (d : ℕ) → (a ≡ true → b ≡ true) → (if a then d else 0) ≤ (if b then d else 0)
when_mono true b d h = rw (h refl) (omega arith)
when_mono false b d h = omega arith

fleet_mono : (a b : ℕ) → b ≤ a → (if leb a 3 then 100 else 0) ≤ (if leb b 3 then 100 else 0)
fleet_mono a b h = ground arith

-- A carrier at least as risky in every input (a younger authority, a worse safety rating, a smaller
-- fleet, thinner coverage, more bad vetting flags, a changed record, fewer completed loads, more paid
-- claims, more open disputes) is assessed a probability of loss at least as high.
pub probability_monotone :
    (i j : RiskInputs) (p : UnderwritingParams)
    → AtLeastAsRisky i j
    → (assess_risk i p).probability_of_loss ≤ (assess_risk j p).probability_of_loss
unfolding assess_risk clamp_probability
probability_monotone i j p h =
    rw (apply-risk_factors i, apply-risk_factors j)
      (omega (
        arith,
        age_base_mono i.authority_age_days j.authority_age_days h.age,
        age_base_least i.authority_age_days,
        age_base_least j.authority_age_days,
        h.rating,
        fleet_mono i.power_units j.power_units h.fleet,
        when_mono (thin_headroom i.bipd i.required_bipd) (thin_headroom j.bipd j.required_bipd) 80
            h.headroom,
        when_mono i.registry_changed j.registry_changed 100 h.drift,
        credit_mono i.history.loads_completed j.history.loads_completed h.completed,
        credit_most i.history.loads_completed,
        credit_most j.history.loads_completed,
      ))

sum-append : (f : Factor → ℕ) (xs ys : List Factor) → sum f (xs ++ ys) ≡ sum f xs + sum f ys
sum-append f [] ys = omega arith
sum-append f (x ∷ xs) ys = omega (arith, sum-append f xs ys)

raised-factor_if :
    (b : Bool) (name : String) (d : ℕ) → raised (factor_if b name d) ≡ (if b then d else 0)
raised-factor_if b name d = ground arith

lowered-factor_if : (b : Bool) (name : String) (d : ℕ) → lowered (factor_if b name d) ≡ 0
lowered-factor_if b name d = ground arith

raised-rating : (r : SafetyRating) → raised (rating_factors r) ≡ rating_weight r
unfolding rating_factors
raised-rating r = ground arith

lowered-rating : (r : SafetyRating) → lowered (rating_factors r) ≡ 0
unfolding rating_factors
lowered-rating r = ground arith

raised-credit : (c : ℕ) → raised (credit_factor c) ≡ 0
raised-credit c = ground arith

lowered-credit : (c : ℕ) → lowered (credit_factor c) ≡ c
lowered-credit c = ground arith

raised-risk_factors :
    (i : RiskInputs) → raised (risk_factors i) ≡ total i + history_credit i.history.loads_completed
unfolding risk_factors
raised-risk_factors i =
    simp (sum-append, raised-factor_if, raised-rating, raised-credit)
      (simp times_positive
        (omega (arith, age_base_least i.authority_age_days, credit_most i.history.loads_completed)))

lowered-risk_factors :
    (i : RiskInputs) → lowered (risk_factors i) ≡ history_credit i.history.loads_completed
unfolding risk_factors
lowered-risk_factors i =
    simp (sum-append, lowered-factor_if, lowered-rating, lowered-credit) (omega arith)

-- The assessment is explained by its factors: the probability of loss is what the named factors
-- raise it by, less what they lower it by, held between 0.2% and 99%; and what they lower never
-- exceeds what they raise.
pub probability-eq-factors :
    (i : RiskInputs) (p : UnderwritingParams)
    → let a = assess_risk i p in
      (a.probability_of_loss
        ≡ max 20 (min 9900 (sum (λ f. f.raises) a.factors - sum (λ f. f.lowers) a.factors)))
      × (sum (λ f. f.lowers) a.factors ≤ sum (λ f. f.raises) a.factors)
unfolding assess_risk clamp_probability
probability-eq-factors i p =
    rw (apply-risk_factors i) (omega (arith, raised-risk_factors i, lowered-risk_factors i))
