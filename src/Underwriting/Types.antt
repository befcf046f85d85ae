-- ===== src/Underwriting/Types.antt =====
-- The data of src/underwriting/types.ts. Money is in cents; a probability or a factor is in
-- ten-thousandths, the precision that the source rounds a probability to.
use agentic_freight_venue.Common.{ℕ, Bool, Option, List, String}

pub record CounterpartyHistory : Type 0 where
  pub loads_committed : ℕ
  pub loads_completed : ℕ
  pub claims_paid : ℕ
  pub disputes_open : ℕ
  pub first_load_at : Option ℕ
  pub last_load_at : Option ℕ

pub data SafetyRating : Type 0 where
  satisfactory conditional unsatisfactory unrated : SafetyRating

pub record RiskInputs : Type 0 where
  pub usdot : String
  pub authority_age_days : ℕ
  pub safety_rating : SafetyRating
  pub power_units : ℕ
  pub bipd : ℕ
  pub required_bipd : ℕ
  pub vetting_flags : List String
  pub registry_changed : Bool
  pub history : CounterpartyHistory
  pub amount : ℕ

-- A named contribution: what it adds to the probability of loss, and what it takes off.
pub record Factor : Type 0 where
  pub name : String
  pub raises : ℕ
  pub lowers : ℕ

pub record RiskAssessment : Type 0 where
  pub usdot : String
  pub probability_of_loss : ℕ
  pub loss_given_default : ℕ
  pub expected_loss : ℕ
  pub factors : List Factor

pub record UnderwritingParams : Type 0 where
  pub offer_guarantees : Option Bool
  pub max_probability_of_loss : ℕ
  pub load_factor : ℕ
  pub flat_fee : ℕ
  pub min_premium : ℕ
  pub max_counterparty_exposure : ℕ
  pub max_portfolio_exposure : ℕ
  pub loss_given_default : ℕ
  pub claim_window_days : ℕ
  pub initial_capital : ℕ
