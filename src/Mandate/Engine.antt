-- ===== src/Mandate/Engine.antt =====
-- The policy engine of src/mandate/engine.ts: a pure function of the limits, an action and the
-- exposure book, which returns every violation. A violation is its reason code; the evidence beside
-- it, text for the audit log, is left out. `rate / miles` is compared without dividing: `miles = 0`
-- stands for the source's infinite rate per mile.
pub mod Checks
pub mod Permits
pub mod Disclosure
use agentic_freight_venue.Common.{
  ℕ, ◌+◌, ◌*◌, Bool, true, false, not, ◌&&◌, ◌||◌, Option, none, some, List, [], ◌∷◌, ◌++◌, String,
  string_eq, nat_eq, ◌==◌, if◌then◌else◌, ltb, leb, includes, or_else,
}
use agentic_freight_venue.Protocol.Reasons.{
  ReasonCode, mandate_rate_above_ceiling, mandate_rate_below_floor, mandate_lane_not_approved,
  mandate_equipment_not_approved, no_brokerage_authority, negotiation_max_rounds,
  protocol_violation, mandate_insurance_min_not_met, mandate_guarantee_required,
  mandate_insurer_attestation_required, mandate_insurer_undertaking_required,
  mandate_exposure_counterparty_exceeded, mandate_exposure_daily_exceeded,
}
use agentic_freight_venue.Mandate.Limits.{
  equipment_eq, MandateLimits, Proposal, AcceptFacts, MandateAction, offer, accept,
}
use agentic_freight_venue.Mandate.Exposure.{ExposureBook, outstanding, daily}

-- `if (bad) v.push({ code })`
abbrev pub flag : Bool → ReasonCode → List ReasonCode
flag bad code = if bad then code ∷ [] else []

-- A test on an optional limit; `undefined` bounds nothing.
abbrev pub beyond : Option ℕ → (ℕ → Bool) → Bool
beyond none test = false
beyond (some limit) test = test limit

abbrev pub truthy : Option Bool → Bool
truthy none = false
truthy (some b) = b

pub per_mile_above : Proposal → ℕ → Bool
per_mile_above p limit = if ltb 0 p.miles then ltb (limit * p.miles) p.rate else true

pub per_mile_below : Proposal → ℕ → Bool
per_mile_below p limit = if ltb 0 p.miles then ltb p.rate (limit * p.miles) else false

pub lane_approved : Option (List String) → String → String → Bool
lane_approved none o d = true
lane_approved (some []) o d = true
lane_approved (some (r ∷ rs)) o d = includes (r ∷ rs) o && includes (r ∷ rs) d

pub rate_violations : MandateLimits → Proposal → List ReasonCode
rate_violations l p =
    flag (beyond l.max_rate_per_load (λ limit. ltb limit p.rate)) mandate_rate_above_ceiling
    ++ flag (beyond l.max_rate_per_mile (per_mile_above p)) mandate_rate_above_ceiling
    ++ flag (beyond l.min_rate_per_load (λ limit. ltb p.rate limit)) mandate_rate_below_floor
    ++ flag (beyond l.min_rate_per_mile (per_mile_below p)) mandate_rate_below_floor

pub equipment_refused : MandateLimits → Proposal → Bool
equipment_refused l p =
    not (includes l.allowed_equipment p.equipment) || (p.hazmat && not l.hazmat_permitted)

pub terms_refused : MandateLimits → Proposal → Bool
terms_refused l p =
    ltb p.payment_terms_days l.payment_terms_days.least
    || ltb l.payment_terms_days.most p.payment_terms_days

-- `action.kind === "OFFER" && action.isTender`
abbrev pub is_tender : MandateAction → Bool
is_tender (offer tender _) = truthy tender
is_tender (accept _ _) = false

abbrev pub proposal : MandateAction → Proposal
proposal (offer _ p) = p
proposal (accept _ p) = p

-- The checks that every action passes, in the order of the source.
pub common_violations : MandateLimits → MandateAction → List ReasonCode
common_violations l a =
    let p = proposal a in
    rate_violations l p
    ++ flag (not (lane_approved l.allowed_lane_regions p.origin_state p.destination_state))
        mandate_lane_not_approved
    ++ flag (equipment_refused l p) mandate_equipment_not_approved
    ++ flag (is_tender a && not l.may_tender) no_brokerage_authority
    ++ flag (ltb l.max_negotiation_rounds p.round) negotiation_max_rounds
    ++ flag (terms_refused l p) protocol_violation

abbrev pub day_ms : ℕ
day_ms = 86400000

abbrev pub undertaking : String
undertaking = "NO_DENIAL_FOR_UNDISCLOSED_LAPSE"

-- `pickupWindowStart`, or the delivery time where it is absent.
abbrev pub pickup_or_delivery : Option ℕ → ℕ → ℕ
pickup_or_delivery none delivery = delivery
pickup_or_delivery (some pickup) delivery = pickup

-- Delivery less the insurer's notice is no later than pickup.
pub renewable : AcceptFacts → ℕ → Bool
renewable f delivery = leb delivery (
    pickup_or_delivery f.pickup_window_start delivery + or_else f.insurance_notice_days 30 * day_ms)

pub attestation_short : AcceptFacts → Option ℕ → Option ℕ → Bool
attestation_short f none _ = true
attestation_short f (some assured) none = true
attestation_short f (some assured) (some delivery) =
    ltb assured delivery && not (renewable f delivery)

abbrev pub undertakes : Option String → Bool
undertakes none = false
undertakes (some u) = u == undertaking

abbrev pub insurer_required : MandateLimits → Bool
insurer_required l = truthy l.require_insurer_attestation || truthy l.require_insurer_undertaking

abbrev pub lacks_attestation : AcceptFacts → Bool
lacks_attestation f = attestation_short f f.insurance_assured_through f.delivery_window_end

abbrev pub lacks_undertaking : MandateLimits → AcceptFacts → Bool
lacks_undertaking l f =
    truthy l.require_insurer_undertaking && not (undertakes f.insurer_undertaking)

pub insurer_violations : MandateLimits → AcceptFacts → List ReasonCode
insurer_violations l f =
    if insurer_required l
    then if lacks_attestation f
      then mandate_insurer_attestation_required ∷ []
      else flag (lacks_undertaking l f) mandate_insurer_undertaking_required
    else []

pub exposure_violations :
    MandateLimits → AcceptFacts → Proposal → Option ExposureBook → List ReasonCode
exposure_violations l f p none = []
exposure_violations l f p (some book) =
    flag (ltb l.max_per_counterparty_exposure (outstanding f.counterparty_usdot book + p.rate))
      mandate_exposure_counterparty_exceeded
    ++ flag (ltb l.max_daily_exposure (daily f.day book + p.rate)) mandate_exposure_daily_exceeded

pub accept_violations : MandateLimits → MandateAction → Option ExposureBook → List ReasonCode
accept_violations l (offer _ _) exposure = []
accept_violations l (accept f p) exposure =
    flag (ltb f.counterparty_insurance l.required_counterparty_insurance)
      mandate_insurance_min_not_met
    ++ flag (l.require_guarantee && not f.guarantee_available) mandate_guarantee_required
    ++ insurer_violations l f
    ++ exposure_violations l f p exposure

abbrev is_empty : List ReasonCode → Bool
is_empty [] = true
is_empty (_ ∷ _) = false

-- The names of the checks that an action went through.
abbrev exposure_checked : Option ExposureBook → List String
exposure_checked none = []
exposure_checked (some _) = "exposure.counterparty" ∷ "exposure.daily" ∷ []

-- "insurerUndertaking" is pushed only where the undertaking is what is missing.
pub insurer_checked : MandateLimits → AcceptFacts → List String
insurer_checked l f =
    if insurer_required l
    then "insurerAttestation"
      ∷ (if not (lacks_attestation f) && lacks_undertaking l f
          then "insurerUndertaking" ∷ []
          else [])
    else []

pub checked : MandateLimits → MandateAction → Option ExposureBook → List String
checked l a exposure =
    "rate.ceiling"
    ∷ "rate.floor"
    ∷ "lane"
    ∷ "equipment"
    ∷ "mayTender"
    ∷ "rounds"
    ∷ "paymentTerms"
    ∷ elim a [
      | offer _ _ ↦ []
      | accept f _ ↦
          "counterpartyInsurance" ∷ "guarantee" ∷ insurer_checked l f ++ exposure_checked exposure
    ]

pub record MandateVerdict : Type 0 where
  pub allowed : Bool
  pub violations : List ReasonCode
  pub checked : List String

unfoldable pub evaluate_mandate :
    MandateLimits → MandateAction → Option ExposureBook → MandateVerdict
unfolding common_violations accept_violations checked rate_violations lane_approved
    equipment_refused terms_refused insurer_violations exposure_violations insurer_checked renewable
    attestation_short per_mile_above per_mile_below
evaluate_mandate l a exposure =
    let v = common_violations l a ++ accept_violations l a exposure in
    record { allowed = is_empty v; violations = v; checked = checked l a exposure }
