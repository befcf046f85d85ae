-- ===== src/Venue/Outcome.antt =====
-- What the venue says of its guarantee beside a refusal: src/venue/guarantee-outcome.ts.
use agentic_freight_venue.Common.{String}
use agentic_freight_venue.Protocol.Reasons.{
  ReasonCode, identity_signature_invalid, identity_key_mismatch, credential_revoked,
  credential_superseded, rotation_unauthorized, credential_issuer_invalid,
  credential_entity_mismatch, authority_not_active, insurance_lapsed, insurance_below_minimum,
  insurance_cancellation_pending, registry_unavailable, registry_stale,
  registry_contradicts_commitment, registry_attestation_missing, registry_quorum_not_met,
  registry_disagreement, registry_false_attestation, insurer_attestation_missing,
  insurance_not_assured_through_delivery, insurance_renewal_not_presented,
  insurer_contradicts_commitment, insurer_not_of_record, insurer_false_attestation,
  mandate_rate_above_ceiling, mandate_rate_below_floor, mandate_lane_not_approved,
  mandate_equipment_not_approved, mandate_insurance_min_not_met,
  mandate_exposure_counterparty_exceeded, mandate_exposure_daily_exceeded,
  mandate_guarantee_required, mandate_insurer_attestation_required,
  mandate_insurer_undertaking_required, untrusted_text_rejected, nonce_reused, message_stale,
  terms_hash_mismatch, negotiation_max_rounds, negotiation_walkaway, negotiation_timeout,
  load_already_committed, double_brokering_attempt, no_brokerage_authority, counterparty_unverified,
  replay_detected, record_tampered, underwriting_declined_risk, venue_exposure_limit_exceeded,
  venue_portfolio_limit_exceeded, credential_revoked_pre_pickup, commitment_under_compromised_key,
}

-- Would the guarantee have paid? The answer is keyed by the reason.
unfoldable pub guarantee_would_have_paid : ReasonCode → String
guarantee_would_have_paid identity_signature_invalid =
    "Yes — impersonation is the covered peril. Had the venue verified this sender and the broker paid the impersonator, the guarantee pays. Caught here, so no loss and no claim."
guarantee_would_have_paid identity_key_mismatch =
    "Yes — impersonation is the covered peril. Had the venue verified this sender and the broker paid the impersonator, the guarantee pays. Caught here, so no loss and no claim."
guarantee_would_have_paid credential_revoked =
    "Guarantee WAS attached and is now RELEASED with the commitment voided. If the broker ships anyway after the VOIDED notice, PRINCIPAL_OVERRODE_REFUSAL applies: excluded."
guarantee_would_have_paid credential_superseded =
    "N/A — refused before any transaction. A refused self-rotation is the control working: a stolen key cannot rebind itself."
guarantee_would_have_paid rotation_unauthorized =
    "N/A — refused before any transaction. A refused self-rotation is the control working: a stolen key cannot rebind itself."
guarantee_would_have_paid credential_issuer_invalid =
    "Yes — impersonation is the covered peril. Had the venue verified this sender and the broker paid the impersonator, the guarantee pays. Caught here, so no loss and no claim."
guarantee_would_have_paid credential_entity_mismatch =
    "Yes — impersonation is the covered peril. Had the venue verified this sender and the broker paid the impersonator, the guarantee pays. Caught here, so no loss and no claim."
guarantee_would_have_paid authority_not_active =
    "No. Refused before commitment, so no guarantee attached. Even if missed, an uninsured carrier's accident is a liability/cargo loss — excluded (NON_PERFORMANCE / CARGO), not an identity failure."
guarantee_would_have_paid insurance_lapsed =
    "No. Refused before commitment, so no guarantee attached. Even if missed, an uninsured carrier's accident is a liability/cargo loss — excluded (NON_PERFORMANCE / CARGO), not an identity failure."
guarantee_would_have_paid insurance_below_minimum =
    "No. Refused before commitment, so no guarantee attached. Even if missed, an uninsured carrier's accident is a liability/cargo loss — excluded (NON_PERFORMANCE / CARGO), not an identity failure."
guarantee_would_have_paid insurance_cancellation_pending =
    "No. Refused before commitment, so no guarantee attached. Even if missed, an uninsured carrier's accident is a liability/cargo loss — excluded (NON_PERFORMANCE / CARGO), not an identity failure."
guarantee_would_have_paid registry_unavailable =
    "N/A — refused before commitment: the venue could not obtain the registry's signed word and will not attest standing from memory. A liveness cost, not a coverage gap."
guarantee_would_have_paid registry_stale =
    "The guarantee was attached on the venue's say-so, and the artifact shows that say-so was not backed by the registry's word at the time. The venue's own evidence indicts it: a claim against the venue, not against the guarantee's exclusions."
guarantee_would_have_paid registry_contradicts_commitment =
    "The guarantee was attached on the venue's say-so, and the artifact shows that say-so was not backed by the registry's word at the time. The venue's own evidence indicts it: a claim against the venue, not against the guarantee's exclusions."
guarantee_would_have_paid registry_attestation_missing =
    "The guarantee was attached on the venue's say-so, and the artifact shows that say-so was not backed by the registry's word at the time. The venue's own evidence indicts it: a claim against the venue, not against the guarantee's exclusions."
guarantee_would_have_paid registry_quorum_not_met =
    "The guarantee was attached on the venue's say-so, and the artifact shows that say-so was not backed by the registry's word at the time. The venue's own evidence indicts it: a claim against the venue, not against the guarantee's exclusions."
guarantee_would_have_paid registry_disagreement =
    "The guarantee was attached on the venue's say-so, and the artifact shows that say-so was not backed by the registry's word at the time. The venue's own evidence indicts it: a claim against the venue, not against the guarantee's exclusions."
guarantee_would_have_paid registry_false_attestation =
    "The guarantee was attached on the venue's say-so, and the artifact shows that say-so was not backed by the registry's word at the time. The venue's own evidence indicts it: a claim against the venue, not against the guarantee's exclusions."
guarantee_would_have_paid insurer_attestation_missing =
    "The guarantee was attached on the venue's say-so, and the artifact shows that say-so was not backed by the registry's word at the time. The venue's own evidence indicts it: a claim against the venue, not against the guarantee's exclusions."
guarantee_would_have_paid insurance_not_assured_through_delivery =
    "The guarantee was attached on the venue's say-so, and the artifact shows that say-so was not backed by the registry's word at the time. The venue's own evidence indicts it: a claim against the venue, not against the guarantee's exclusions."
guarantee_would_have_paid insurance_renewal_not_presented =
    "Guarantee WAS attached conditionally and is now RELEASED with the void: the carrier's insurer did not re-attest coverage through delivery by pickup. The broker was told in time to re-cover; dispatching anyway is PRINCIPAL_OVERRODE_REFUSAL, excluded."
guarantee_would_have_paid insurer_contradicts_commitment =
    "The guarantee was attached on the venue's say-so, and the artifact shows that say-so was not backed by the registry's word at the time. The venue's own evidence indicts it: a claim against the venue, not against the guarantee's exclusions."
guarantee_would_have_paid insurer_not_of_record =
    "The guarantee was attached on the venue's say-so, and the artifact shows that say-so was not backed by the registry's word at the time. The venue's own evidence indicts it: a claim against the venue, not against the guarantee's exclusions."
guarantee_would_have_paid insurer_false_attestation =
    "The guarantee was attached on the venue's say-so, and the artifact shows that say-so was not backed by the registry's word at the time. The venue's own evidence indicts it: a claim against the venue, not against the guarantee's exclusions."
guarantee_would_have_paid mandate_rate_above_ceiling =
    "N/A — no transaction formed. A mandate refusal is the principal's own control, not an insured peril. A rogue agent that bypassed both the local and venue mandate check would be CONTROLS_BYPASSED: excluded."
guarantee_would_have_paid mandate_rate_below_floor =
    "N/A — no transaction formed. A mandate refusal is the principal's own control, not an insured peril. A rogue agent that bypassed both the local and venue mandate check would be CONTROLS_BYPASSED: excluded."
guarantee_would_have_paid mandate_lane_not_approved =
    "N/A — no transaction formed. A mandate refusal is the principal's own control, not an insured peril. A rogue agent that bypassed both the local and venue mandate check would be CONTROLS_BYPASSED: excluded."
guarantee_would_have_paid mandate_equipment_not_approved =
    "N/A — no transaction formed. A mandate refusal is the principal's own control, not an insured peril. A rogue agent that bypassed both the local and venue mandate check would be CONTROLS_BYPASSED: excluded."
guarantee_would_have_paid mandate_insurance_min_not_met =
    "N/A — no transaction formed. A mandate refusal is the principal's own control, not an insured peril. A rogue agent that bypassed both the local and venue mandate check would be CONTROLS_BYPASSED: excluded."
guarantee_would_have_paid mandate_exposure_counterparty_exceeded =
    "N/A — no transaction formed. A mandate refusal is the principal's own control, not an insured peril. A rogue agent that bypassed both the local and venue mandate check would be CONTROLS_BYPASSED: excluded."
guarantee_would_have_paid mandate_exposure_daily_exceeded =
    "N/A — no transaction formed. A mandate refusal is the principal's own control, not an insured peril. A rogue agent that bypassed both the local and venue mandate check would be CONTROLS_BYPASSED: excluded."
guarantee_would_have_paid mandate_guarantee_required =
    "N/A — no transaction formed. A mandate refusal is the principal's own control, not an insured peril. A rogue agent that bypassed both the local and venue mandate check would be CONTROLS_BYPASSED: excluded."
guarantee_would_have_paid mandate_insurer_attestation_required =
    "N/A — no transaction formed. A mandate refusal is the principal's own control, not an insured peril. A rogue agent that bypassed both the local and venue mandate check would be CONTROLS_BYPASSED: excluded."
guarantee_would_have_paid mandate_insurer_undertaking_required =
    "N/A — no transaction formed. A mandate refusal is the principal's own control, not an insured peril. A rogue agent that bypassed both the local and venue mandate check would be CONTROLS_BYPASSED: excluded."
guarantee_would_have_paid untrusted_text_rejected =
    "N/A — the message never entered the negotiation. Had it been forwarded, the counterparty's strategy would still not have seen the text (quarantined by the runtime)."
guarantee_would_have_paid nonce_reused =
    "N/A — no new commitment formed. The original commitment and its guarantee are unaffected; a tampered artifact simply fails verification."
guarantee_would_have_paid message_stale =
    "N/A — no new commitment formed. The original commitment and its guarantee are unaffected; a tampered artifact simply fails verification."
guarantee_would_have_paid terms_hash_mismatch =
    "N/A — no new commitment formed. The original commitment and its guarantee are unaffected; a tampered artifact simply fails verification."
guarantee_would_have_paid negotiation_max_rounds =
    "N/A — no commitment formed; nothing to guarantee."
guarantee_would_have_paid negotiation_walkaway = "N/A — no commitment formed; nothing to guarantee."
guarantee_would_have_paid negotiation_timeout = "N/A — no commitment formed; nothing to guarantee."
guarantee_would_have_paid load_already_committed =
    "N/A for this negotiation — the load's guarantee rides on the commitment that won."
guarantee_would_have_paid double_brokering_attempt =
    "Yes, for the original broker — if the venue had let the committed carrier re-tender through the venue to an unverified party. Blocked here. Re-tendering OFF the venue is excluded (OFF_VENUE_ARRANGEMENTS); the artifact is the broker's evidence for a claim against the carrier."
guarantee_would_have_paid no_brokerage_authority =
    "Yes, for the original broker — if the venue had let the committed carrier re-tender through the venue to an unverified party. Blocked here. Re-tendering OFF the venue is excluded (OFF_VENUE_ARRANGEMENTS); the artifact is the broker's evidence for a claim against the carrier."
guarantee_would_have_paid counterparty_unverified =
    "Yes, for the original broker — if the venue had let the committed carrier re-tender through the venue to an unverified party. Blocked here. Re-tendering OFF the venue is excluded (OFF_VENUE_ARRANGEMENTS); the artifact is the broker's evidence for a claim against the carrier."
guarantee_would_have_paid replay_detected =
    "N/A — no new commitment formed. The original commitment and its guarantee are unaffected; a tampered artifact simply fails verification."
guarantee_would_have_paid record_tampered =
    "N/A — no new commitment formed. The original commitment and its guarantee are unaffected; a tampered artifact simply fails verification."
guarantee_would_have_paid underwriting_declined_risk =
    "No — the venue declined to guarantee. Commitment was refused only because a party's mandate requires a guarantee; a principal whose mandate permits unguaranteed commits could proceed with NO coverage."
guarantee_would_have_paid venue_exposure_limit_exceeded =
    "No — the venue declined to guarantee. Commitment was refused only because a party's mandate requires a guarantee; a principal whose mandate permits unguaranteed commits could proceed with NO coverage."
guarantee_would_have_paid venue_portfolio_limit_exceeded =
    "No — the venue declined to guarantee. Commitment was refused only because a party's mandate requires a guarantee; a principal whose mandate permits unguaranteed commits could proceed with NO coverage."
guarantee_would_have_paid credential_revoked_pre_pickup =
    "Guarantee WAS attached and is now RELEASED with the commitment voided. If the broker ships anyway after the VOIDED notice, PRINCIPAL_OVERRODE_REFUSAL applies: excluded."
guarantee_would_have_paid commitment_under_compromised_key =
    "Guarantee released with the void. A stolen or leaked agent key is the principal's custody failure (PRINCIPAL_KEY_COMPROMISE exclusion): losses before the principal declared the compromise are not covered. A venue-hosted key custody tier would change that."
guarantee_would_have_paid _ = "N/A — refused before commitment."
