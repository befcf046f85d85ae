-- ===== src/Identity/Verifier.antt =====
-- Credentials and the signatures made under them: `verifyCredential`, `signatureTrustedAt` and
-- `verifyPresentation` of src/identity/verifier.ts, with the data of src/protocol/types.ts. A point in time is
-- its number of milliseconds. The signatures over a credential and over a message, and the venue's keys, are
-- parameters; evidence is left out.
pub mod Trusted
use agentic_freight_venue.Common.{
  ℕ, Bool, true, false, not, ◌&&◌, ◌||◌, Option, none, some, String, string_eq, ◌==◌, if◌then◌else◌,
  leb, ltb, or_else,
}
use agentic_freight_venue.Protocol.Reasons.{
  ReasonCode, credential_unknown, credential_issuer_invalid, credential_expired, credential_revoked,
  credential_superseded, credential_entity_mismatch, commitment_under_compromised_key,
  identity_key_mismatch, identity_signature_invalid,
}

-- Of the subject, what a presentation is compared with; the public key is named by its identifier.
pub record Credential : Type 0 where
  pub credential_id : String
  pub agent_id : String
  pub usdot : String
  pub mc : Option String
  pub subject_kid : Option String
  pub issuer_kid : String
  pub issued_at : ℕ
  pub signed_at : Option ℕ
  pub expires_at : ℕ

pub data CredentialStatus : Type 0 where
  revoked superseded : CredentialStatus

pub record CredentialStatusEntry : Type 0 where
  pub status : CredentialStatus
  pub at : ℕ
  pub grace_until : Option ℕ
  pub compromised_at : Option ℕ

pub data Verdict : Type 0 where
  ok : Verdict
  refused : ReasonCode → Verdict

-- `VenueKeyResolver`: the keys the venue's root certifies, and whether one is not to be trusted at a time.
pub record VenueKeyResolver : Type 0 where
  pub key : String → Option String
  pub untrusted_at : String → ℕ → Bool

-- The issuer's key: from a resolver, or the one that is given.
pub data IssuerKeys : Type 0 where
  resolved : VenueKeyResolver → IssuerKeys
  given : Option String → IssuerKeys

-- What a presentation claims.
pub record Claimed : Type 0 where
  pub agent_id : String
  pub usdot : String
  pub mc : Option String

abbrev pub issuer_key : IssuerKeys → String → Option String
issuer_key (resolved r) kid = r.key kid
issuer_key (given key) kid = key

abbrev pub issued_untrusted : IssuerKeys → Credential → Bool
issued_untrusted (resolved r) c = r.untrusted_at c.issuer_kid (or_else c.signed_at c.issued_at)
issued_untrusted (given key) c = false

-- `opts.status ?? opts.revocation`
abbrev pub either_entry :
    Option CredentialStatusEntry → Option CredentialStatusEntry → Option CredentialStatusEntry
either_entry none second = second
either_entry (some e) second = some e

abbrev pub in_grace : Option ℕ → ℕ → Bool
in_grace none now = false
in_grace (some until) now = ltb now until

-- The verdict by the venue's status entry: a superseded credential is good within its grace, unless its key
-- was compromised.
unfoldable pub status_verdict : Option CredentialStatusEntry → ℕ → Verdict
status_verdict none now = ok
status_verdict (some e) now = elim (e.status) [
  | revoked ↦ refused credential_revoked
  | superseded ↦ elim (e.compromised_at) [
    | some _ ↦ refused credential_superseded
    | none ↦ if in_grace e.grace_until now then ok else refused credential_superseded
  ]
]

-- `at && signedAt >= at`
abbrev pub is_from : Option ℕ → ℕ → Bool
is_from none signed_at = false
is_from (some at) signed_at = leb at signed_at

abbrev revoked_from : CredentialStatusEntry → Option ℕ
revoked_from e = elim (e.status) [ revoked ↦ some e.at | superseded ↦ none ]

-- Whether a signature of a past time still counts.
unfoldable pub signature_trusted_at : Credential → ℕ → Option CredentialStatusEntry → Verdict
signature_trusted_at c signed_at status =
    if ltb signed_at c.issued_at || leb c.expires_at signed_at
    then refused credential_expired
    else elim status [
      | none ↦ ok
      | some e ↦
          if is_from e.compromised_at signed_at
          then refused commitment_under_compromised_key
          else if is_from (revoked_from e) signed_at
          then refused credential_revoked
          else ok
    ]

-- `claimed.mc && claimed.mc !== e.mc`
abbrev claims_other_mc : Option String → Option String → Bool
claims_other_mc none mc = false
claims_other_mc (some c) none = not (c == "")
claims_other_mc (some c) (some mc) = not (c == "") && not (c == mc)

abbrev pub mismatches : Claimed → Credential → Bool
mismatches p c =
    not (p.agent_id == c.agent_id) || not (p.usdot == c.usdot) || claims_other_mc p.mc c.mc

-- `presentedKid && boundKid && presentedKid !== boundKid`
abbrev is_other_key : Option String → Option String → Bool
is_other_key (some p) (some b) = not (p == "") && not (b == "") && not (p == b)
is_other_key _ _ = false

-- A presentation whose signature verifies or not, with the key that it names.
unfoldable pub verify_presentation : Bool → Option String → Credential → Option Claimed → Verdict
verify_presentation signed kid c claimed =
    if not signed
    then refused (
        if is_other_key kid c.subject_kid
        then identity_key_mismatch
        else identity_signature_invalid)
    else elim claimed [
      | none ↦ ok
      | some p ↦ if mismatches p c then refused credential_entity_mismatch else ok
    ]

module _ (signs : String → Credential → Bool) where
  -- `verifyCredential`, where `signs key c` says that the issuer's signature over the credential verifies
  -- under the key.
  unfoldable pub verify_credential :
      Option Credential
      → IssuerKeys
      → Option CredentialStatusEntry
      → Option CredentialStatusEntry
      → ℕ
      → Verdict
  verify_credential none keys status revocation now = refused credential_unknown
  verify_credential (some c) keys status revocation now = elim (issuer_key keys c.issuer_kid) [
    | none ↦ refused credential_issuer_invalid
    | some key ↦
        if not (signs key c)
        then refused credential_issuer_invalid
        else if issued_untrusted keys c
        then refused credential_issuer_invalid
        else if leb c.expires_at now
        then refused credential_expired
        else status_verdict (either_entry status revocation) now
  ]
