-- ===== src/Venue/Standing.antt =====
-- What src/venue/service.ts asks the identity and registry parts during one call: the interface between
-- them. A value of this type is what they answer at that moment; the identifiers drawn at random and the
-- hash of the artifact that is built are answers too.
use agentic_freight_venue.Common.{ℕ, Bool, Option, List, String}
use agentic_freight_venue.Protocol.Reasons.{ReasonCode}
use agentic_freight_venue.Protocol.Terms.{Entity, Terms}
use agentic_freight_venue.Protocol.Insurance.{InsurerAttestation}
use agentic_freight_venue.Underwriting.Types.{SafetyRating}

pub record Credential : Type 0 where
  pub credential_id : String
  pub entity : Entity
  pub is_broker : Bool
  pub vetting_flags : List String

-- What a live check is asked beyond the credential.
pub record Demand : Type 0 where
  pub hazmat : Bool
  pub required_bipd : Option ℕ
  pub through : Option ℕ

pub record InsurerWord : Type 0 where
  pub assured_through : ℕ
  pub notice_days : ℕ
  pub undertaking : Option String

-- `reason_code` is absent where the check is passed.
pub record LiveCheck : Type 0 where
  pub reason_code : Option ReasonCode
  pub broker_authority : Bool
  pub bipd : Option ℕ
  pub bond : Option ℕ
  pub insurer : Option InsurerWord
  pub insurer_false : Bool

-- Of an entity's record; the grant dates are those of its active authorities.
pub record RegistryFacts : Type 0 where
  pub usdot : String
  pub active_grants : List ℕ
  pub safety_rating : SafetyRating
  pub power_units : ℕ

pub record Standing : Type 0 where
  pub now : ℕ
  -- `freshen`: whether a quorum of registries answered for each of them, no older than allowed.
  pub is_fresh : List String → ℕ → Bool
  pub credential : String → Option Credential
  -- `verifyCredential`: the reason to refuse, if any.
  pub verdict : Credential → Option ReasonCode
  pub live : Credential → Demand → LiveCheck
  -- `filerKey`: the reason why an insurer's key does not count, if any.
  pub filer_key : InsurerAttestation → ℕ → Option ReasonCode
  pub facts : String → Option RegistryFacts
  pub has_changed : Credential → Bool
  pub commitment_id : String
  pub guarantee_id : String
  pub artifact_hash : Terms → String
