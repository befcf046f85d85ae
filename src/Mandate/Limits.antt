-- ===== src/Mandate/Limits.antt =====
-- The data of a mandate, its disclosed envelope and the actions it is asked about:
-- src/mandate/types.ts, the envelope of src/protocol/types.ts, and the two maps between them
-- (src/mandate/sign.ts, src/mandate/engine.ts). Money is in cents, miles are whole, and a point in
-- time is its number of milliseconds. A partial disclosure, the signatures and the names of the
-- parties are left out: no limit depends on them.
use agentic_freight_venue.Common.{
  ℕ, ◌≡◌, ◌↔◌, Bool, true, false, Option, none, List, String, Comparable, arith,
}

pub data Equipment : Type 0 where
  van reefer flatbed step_deck power_only : Equipment

-- `===` on equipment, case by case.
abbrev equipment_beq : Equipment → Equipment → Bool
equipment_beq van van = true
equipment_beq reefer reefer = true
equipment_beq flatbed flatbed = true
equipment_beq step_deck step_deck = true
equipment_beq power_only power_only = true
equipment_beq _ _ = false

pub equipment_beq_iff : (a b : Equipment) → (equipment_beq a b ≡ true) ↔ (a ≡ b)
equipment_beq_iff a b = grind arith

instance abbrev pub equipment_eq : Comparable Equipment
equipment_eq = record { same = equipment_beq; same_iff = equipment_beq_iff }

pub record PaymentTerms : Type 0 where
  pub least : ℕ
  pub most : ℕ

-- Optional fields of the source are options; an optional flag that is absent counts as false.
pub record MandateLimits : Type 0 where
  pub min_rate_per_load : Option ℕ
  pub max_rate_per_load : Option ℕ
  pub min_rate_per_mile : Option ℕ
  pub max_rate_per_mile : Option ℕ
  pub allowed_lane_regions : Option (List String)
  pub allowed_equipment : List Equipment
  pub hazmat_permitted : Bool
  pub required_counterparty_insurance : ℕ
  pub max_per_counterparty_exposure : ℕ
  pub max_daily_exposure : ℕ
  pub require_guarantee : Bool
  pub require_insurer_attestation : Option Bool
  pub require_insurer_undertaking : Option Bool
  pub may_tender : Bool
  pub max_negotiation_rounds : ℕ
  pub payment_terms_days : PaymentTerms

-- What an offer and an acceptance have in common.
pub record Proposal : Type 0 where
  pub rate : ℕ
  pub miles : ℕ
  pub origin_state : String
  pub destination_state : String
  pub equipment : Equipment
  pub hazmat : Bool
  pub payment_terms_days : ℕ
  pub round : ℕ

-- What only an acceptance carries.
pub record AcceptFacts : Type 0 where
  pub counterparty_usdot : String
  pub counterparty_insurance : ℕ
  pub insurance_assured_through : Option ℕ
  pub insurance_notice_days : Option ℕ
  pub insurer_undertaking : Option String
  pub pickup_window_start : Option ℕ
  pub delivery_window_end : Option ℕ
  pub guarantee_available : Bool
  pub day : String

pub data MandateAction : Type 0 where
  offer : Option Bool → Proposal → MandateAction
  accept : AcceptFacts → Proposal → MandateAction

-- The limits that a principal lets the venue see.
pub record EnvelopeLimits : Type 0 where
  pub max_rate_per_load : Option ℕ
  pub min_rate_per_load : Option ℕ
  pub max_daily_exposure : ℕ
  pub max_per_counterparty_exposure : ℕ
  pub allowed_equipment : List Equipment
  pub allowed_lane_regions : Option (List String)
  pub required_counterparty_insurance : ℕ
  pub require_guarantee : Bool
  pub require_insurer_attestation : Option Bool
  pub require_insurer_undertaking : Option Bool

-- `Number.MAX_SAFE_INTEGER`
abbrev pub max_safe_integer : ℕ
max_safe_integer = 9007199254740991

-- The limits of `issueEnvelope` with nothing disclosed beyond the default.
unfoldable pub issue_envelope : MandateLimits → EnvelopeLimits
issue_envelope m = record {
  max_rate_per_load = m.max_rate_per_load;
  min_rate_per_load = m.min_rate_per_load;
  max_daily_exposure = m.max_daily_exposure;
  max_per_counterparty_exposure = m.max_per_counterparty_exposure;
  allowed_equipment = m.allowed_equipment;
  allowed_lane_regions = m.allowed_lane_regions;
  required_counterparty_insurance = m.required_counterparty_insurance;
  require_guarantee = m.require_guarantee;
  require_insurer_attestation = m.require_insurer_attestation;
  require_insurer_undertaking = m.require_insurer_undertaking;
}

unfoldable pub envelope_to_limits : EnvelopeLimits → MandateLimits
envelope_to_limits e = record {
  min_rate_per_load = e.min_rate_per_load;
  max_rate_per_load = e.max_rate_per_load;
  min_rate_per_mile = none;
  max_rate_per_mile = none;
  allowed_lane_regions = e.allowed_lane_regions;
  allowed_equipment = e.allowed_equipment;
  hazmat_permitted = true;
  required_counterparty_insurance = e.required_counterparty_insurance;
  max_per_counterparty_exposure = e.max_per_counterparty_exposure;
  max_daily_exposure = e.max_daily_exposure;
  require_guarantee = e.require_guarantee;
  require_insurer_attestation = e.require_insurer_attestation;
  require_insurer_undertaking = e.require_insurer_undertaking;
  may_tender = true;
  max_negotiation_rounds = max_safe_integer;
  payment_terms_days = record { least = 0; most = 365 };
}
