-- ===== src/Protocol/Reasons.antt =====
-- The machine-readable reasons of src/protocol/reasons.ts: every refusal carries one.
use agentic_freight_venue.Common.{String}

pub data ReasonCode : Type 0 where
  identity_signature_invalid identity_key_mismatch credential_unknown credential_expired :
      ReasonCode
  credential_revoked credential_superseded rotation_unauthorized credential_issuer_invalid :
      ReasonCode
  credential_entity_mismatch authority_not_active insurance_lapsed insurance_below_minimum :
      ReasonCode
  insurance_cancellation_pending registry_unavailable registry_stale : ReasonCode
  registry_contradicts_commitment registry_attestation_invalid registry_attestation_missing :
      ReasonCode
  registry_quorum_not_met registry_disagreement registry_false_attestation : ReasonCode
  insurer_attestation_missing insurer_attestation_invalid : ReasonCode
  insurance_not_assured_through_delivery insurance_renewal_pending : ReasonCode
  insurance_renewal_not_presented insurer_contradicts_commitment insurer_not_of_record : ReasonCode
  regulator_key_untrusted regulator_rotation_unauthorized filer_unlicensed : ReasonCode
  filer_rotation_unauthorized insurer_key_not_of_record insurer_false_attestation : ReasonCode
  insurer_undertaking_missing onboarding_proof_of_control_failed control_proof_missing : ReasonCode
  control_method_not_accepted control_proof_not_bound_to_key control_proof_expired : ReasonCode
  control_proof_replayed control_verifier_untrusted control_challenge_failed : ReasonCode
  control_contact_not_exclusive control_no_contact_on_record onboarding_entity_not_found :
      ReasonCode
  onboarding_key_already_bound guarantee_not_offered mandate_rate_above_ceiling : ReasonCode
  mandate_rate_below_floor mandate_lane_not_approved mandate_equipment_not_approved : ReasonCode
  mandate_insurance_min_not_met mandate_exposure_counterparty_exceeded : ReasonCode
  mandate_exposure_daily_exceeded mandate_guarantee_required : ReasonCode
  mandate_insurer_attestation_required mandate_insurer_undertaking_required : ReasonCode
  mandate_signature_invalid mandate_envelope_missing protocol_violation : ReasonCode
  untrusted_text_rejected nonce_reused message_stale envelope_not_from_venue : ReasonCode
  terms_hash_mismatch negotiation_max_rounds negotiation_walkaway negotiation_timeout : ReasonCode
  load_already_committed double_brokering_attempt no_brokerage_authority : ReasonCode
  counterparty_unverified replay_detected record_tampered chain_broken ledger_fork_detected :
      ReasonCode
  status_not_witnessed inclusion_promise_broken notice_pending notice_source_unknown : ReasonCode
  venue_equivocation witness_quorum_not_met status_stale venue_key_untrusted : ReasonCode
  root_rotation_unauthorized venue_key_rotation_unauthorized underwriting_declined_risk : ReasonCode
  venue_exposure_limit_exceeded venue_portfolio_limit_exceeded lifecycle_event_invalid : ReasonCode
  claim_invalid credential_revoked_pre_pickup commitment_under_compromised_key : ReasonCode

-- The code as it is written.
abbrev pub reason_name : ReasonCode → String
reason_name identity_signature_invalid = "IDENTITY_SIGNATURE_INVALID"
reason_name identity_key_mismatch = "IDENTITY_KEY_MISMATCH"
reason_name credential_unknown = "CREDENTIAL_UNKNOWN"
reason_name credential_expired = "CREDENTIAL_EXPIRED"
reason_name credential_revoked = "CREDENTIAL_REVOKED"
reason_name credential_superseded = "CREDENTIAL_SUPERSEDED"
reason_name rotation_unauthorized = "ROTATION_UNAUTHORIZED"
reason_name credential_issuer_invalid = "CREDENTIAL_ISSUER_INVALID"
reason_name credential_entity_mismatch = "CREDENTIAL_ENTITY_MISMATCH"
reason_name authority_not_active = "AUTHORITY_NOT_ACTIVE"
reason_name insurance_lapsed = "INSURANCE_LAPSED"
reason_name insurance_below_minimum = "INSURANCE_BELOW_MINIMUM"
reason_name insurance_cancellation_pending = "INSURANCE_CANCELLATION_PENDING"
reason_name registry_unavailable = "REGISTRY_UNAVAILABLE"
reason_name registry_stale = "REGISTRY_STALE"
reason_name registry_contradicts_commitment = "REGISTRY_CONTRADICTS_COMMITMENT"
reason_name registry_attestation_invalid = "REGISTRY_ATTESTATION_INVALID"
reason_name registry_attestation_missing = "REGISTRY_ATTESTATION_MISSING"
reason_name registry_quorum_not_met = "REGISTRY_QUORUM_NOT_MET"
reason_name registry_disagreement = "REGISTRY_DISAGREEMENT"
reason_name registry_false_attestation = "REGISTRY_FALSE_ATTESTATION"
reason_name insurer_attestation_missing = "INSURER_ATTESTATION_MISSING"
reason_name insurer_attestation_invalid = "INSURER_ATTESTATION_INVALID"
reason_name insurance_not_assured_through_delivery = "INSURANCE_NOT_ASSURED_THROUGH_DELIVERY"
reason_name insurance_renewal_pending = "INSURANCE_RENEWAL_PENDING"
reason_name insurance_renewal_not_presented = "INSURANCE_RENEWAL_NOT_PRESENTED"
reason_name insurer_contradicts_commitment = "INSURER_CONTRADICTS_COMMITMENT"
reason_name insurer_not_of_record = "INSURER_NOT_OF_RECORD"
reason_name regulator_key_untrusted = "REGULATOR_KEY_UNTRUSTED"
reason_name regulator_rotation_unauthorized = "REGULATOR_ROTATION_UNAUTHORIZED"
reason_name filer_unlicensed = "FILER_UNLICENSED"
reason_name filer_rotation_unauthorized = "FILER_ROTATION_UNAUTHORIZED"
reason_name insurer_key_not_of_record = "INSURER_KEY_NOT_OF_RECORD"
reason_name insurer_false_attestation = "INSURER_FALSE_ATTESTATION"
reason_name insurer_undertaking_missing = "INSURER_UNDERTAKING_MISSING"
reason_name onboarding_proof_of_control_failed = "ONBOARDING_PROOF_OF_CONTROL_FAILED"
reason_name control_proof_missing = "CONTROL_PROOF_MISSING"
reason_name control_method_not_accepted = "CONTROL_METHOD_NOT_ACCEPTED"
reason_name control_proof_not_bound_to_key = "CONTROL_PROOF_NOT_BOUND_TO_KEY"
reason_name control_proof_expired = "CONTROL_PROOF_EXPIRED"
reason_name control_proof_replayed = "CONTROL_PROOF_REPLAYED"
reason_name control_verifier_untrusted = "CONTROL_VERIFIER_UNTRUSTED"
reason_name control_challenge_failed = "CONTROL_CHALLENGE_FAILED"
reason_name control_contact_not_exclusive = "CONTROL_CONTACT_NOT_EXCLUSIVE"
reason_name control_no_contact_on_record = "CONTROL_NO_CONTACT_ON_RECORD"
reason_name onboarding_entity_not_found = "ONBOARDING_ENTITY_NOT_FOUND"
reason_name onboarding_key_already_bound = "ONBOARDING_KEY_ALREADY_BOUND"
reason_name guarantee_not_offered = "GUARANTEE_NOT_OFFERED"
reason_name mandate_rate_above_ceiling = "MANDATE_RATE_ABOVE_CEILING"
reason_name mandate_rate_below_floor = "MANDATE_RATE_BELOW_FLOOR"
reason_name mandate_lane_not_approved = "MANDATE_LANE_NOT_APPROVED"
reason_name mandate_equipment_not_approved = "MANDATE_EQUIPMENT_NOT_APPROVED"
reason_name mandate_insurance_min_not_met = "MANDATE_INSURANCE_MIN_NOT_MET"
reason_name mandate_exposure_counterparty_exceeded = "MANDATE_EXPOSURE_COUNTERPARTY_EXCEEDED"
reason_name mandate_exposure_daily_exceeded = "MANDATE_EXPOSURE_DAILY_EXCEEDED"
reason_name mandate_guarantee_required = "MANDATE_GUARANTEE_REQUIRED"
reason_name mandate_insurer_attestation_required = "MANDATE_INSURER_ATTESTATION_REQUIRED"
reason_name mandate_insurer_undertaking_required = "MANDATE_INSURER_UNDERTAKING_REQUIRED"
reason_name mandate_signature_invalid = "MANDATE_SIGNATURE_INVALID"
reason_name mandate_envelope_missing = "MANDATE_ENVELOPE_MISSING"
reason_name protocol_violation = "PROTOCOL_VIOLATION"
reason_name untrusted_text_rejected = "UNTRUSTED_TEXT_REJECTED"
reason_name nonce_reused = "NONCE_REUSED"
reason_name message_stale = "MESSAGE_STALE"
reason_name envelope_not_from_venue = "ENVELOPE_NOT_FROM_VENUE"
reason_name terms_hash_mismatch = "TERMS_HASH_MISMATCH"
reason_name negotiation_max_rounds = "NEGOTIATION_MAX_ROUNDS"
reason_name negotiation_walkaway = "NEGOTIATION_WALKAWAY"
reason_name negotiation_timeout = "NEGOTIATION_TIMEOUT"
reason_name load_already_committed = "LOAD_ALREADY_COMMITTED"
reason_name double_brokering_attempt = "DOUBLE_BROKERING_ATTEMPT"
reason_name no_brokerage_authority = "NO_BROKERAGE_AUTHORITY"
reason_name counterparty_unverified = "COUNTERPARTY_UNVERIFIED"
reason_name replay_detected = "REPLAY_DETECTED"
reason_name record_tampered = "RECORD_TAMPERED"
reason_name chain_broken = "CHAIN_BROKEN"
reason_name ledger_fork_detected = "LEDGER_FORK_DETECTED"
reason_name status_not_witnessed = "STATUS_NOT_WITNESSED"
reason_name inclusion_promise_broken = "INCLUSION_PROMISE_BROKEN"
reason_name notice_pending = "NOTICE_PENDING"
reason_name notice_source_unknown = "NOTICE_SOURCE_UNKNOWN"
reason_name venue_equivocation = "VENUE_EQUIVOCATION"
reason_name witness_quorum_not_met = "WITNESS_QUORUM_NOT_MET"
reason_name status_stale = "STATUS_STALE"
reason_name venue_key_untrusted = "VENUE_KEY_UNTRUSTED"
reason_name root_rotation_unauthorized = "ROOT_ROTATION_UNAUTHORIZED"
reason_name venue_key_rotation_unauthorized = "VENUE_KEY_ROTATION_UNAUTHORIZED"
reason_name underwriting_declined_risk = "UNDERWRITING_DECLINED_RISK"
reason_name venue_exposure_limit_exceeded = "VENUE_EXPOSURE_LIMIT_EXCEEDED"
reason_name venue_portfolio_limit_exceeded = "VENUE_PORTFOLIO_LIMIT_EXCEEDED"
reason_name lifecycle_event_invalid = "LIFECYCLE_EVENT_INVALID"
reason_name claim_invalid = "CLAIM_INVALID"
reason_name credential_revoked_pre_pickup = "CREDENTIAL_REVOKED_PRE_PICKUP"
reason_name commitment_under_compromised_key = "COMMITMENT_UNDER_COMPROMISED_KEY"
