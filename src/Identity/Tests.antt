-- ===== src/Identity/Tests.antt =====
-- A credential in the grace of a supersession, and its later revocation.
use agentic_freight_venue.Common.{
  ℕ, ◌<◌, ◌≡◌, ◌↔◌, refl, inr, Bool, true, false, Option, none, some, String, arith,
}
use agentic_freight_venue.Identity.Verifier.{
  Credential, revoked, superseded, CredentialStatusEntry, ok, IssuerKeys, resolved, issuer_key,
  issued_untrusted, status_verdict, signature_trusted_at, verify_credential,
}
use agentic_freight_venue.Identity.Verifier.Trusted.{
  IsStanding, verify_credential_iff, verified-trusted,
}

abbrev credential : Credential
credential = record {
  credential_id = "cb";
  agent_id = "b";
  usdot = "1";
  mc = none;
  subject_kid = some "k1";
  issuer_kid = "v1";
  issued_at = 10;
  signed_at = none;
  expires_at = 100;
}

abbrev keys : IssuerKeys
keys = resolved (record { key = λ kid. some kid; untrusted_at = λ kid at. false })

abbrev signs : String → Credential → Bool
signs key c = true

abbrev rotated : CredentialStatusEntry
rotated = record { status = superseded; at = 40; grace_until = some 60; compromised_at = none }

abbrev withdrawn : CredentialStatusEntry
withdrawn = record { status = revoked; at = 70; grace_until = none; compromised_at = some 65 }

passes : verify_credential signs (some credential) keys (some rotated) none 50 ≡ ok
unfolding verify_credential status_verdict
passes = refl

verify_credential_iff_example :
    (verify_credential signs (some credential) keys (some rotated) none 50 ≡ ok) ↔ (
      ((key : String) × (issuer_key keys "v1" ≡ some key) × (signs key credential ≡ true))
      × (issued_untrusted keys credential ≡ false)
      × (50 < 100)
      × IsStanding (some rotated) 50)
verify_credential_iff_example = verify_credential_iff signs credential keys (some rotated) 50

dated : (t : ℕ) → ◌≡◌ {A = Option ℕ} (some 65) (some t) → 50 < t
dated t e = grind arith

verified-trusted_example : signature_trusted_at credential 50 (some withdrawn) ≡ ok
verified-trusted_example =
    verified-trusted signs credential keys (some rotated) (some withdrawn) 50 (omega arith) passes
      (inr (omega arith, dated))
