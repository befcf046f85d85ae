-- ===== src/Identity/Verifier/Trusted.antt =====
-- What a verdict of src/identity/verifier.ts says, and how its judgments of the present and of the past agree.
use agentic_freight_venue.Common.{
  ℕ, ◌≤◌, ◌<◌, ◌≡◌, ◌↔◌, ◌⊎◌, inl, inr, refl, sym, subst, Bool, true, false, Option, none, some,
  Option-cases, String, ltb→lt, arith,
}
use agentic_freight_venue.Identity.Verifier.{
  Credential, superseded, CredentialStatusEntry, ok, IssuerKeys, issuer_key, issued_untrusted,
  is_from, in_grace, status_verdict, signature_trusted_at, verify_credential,
}

-- A status under which a credential is good: none, or superseded by no compromise and in its grace.
abbrev pub IsStanding : Option CredentialStatusEntry → ℕ → Type 0
IsStanding none now = Unit
IsStanding (some e) now =
    (e.status ≡ superseded)
    × (e.compromised_at ≡ none)
    × ((until : ℕ) × (e.grace_until ≡ some until) × (now < until))

status-passed :
    (e : CredentialStatusEntry) (now : ℕ)
    → status_verdict (some e) now ≡ ok
    → (e.status ≡ superseded) × (e.compromised_at ≡ none) × (in_grace e.grace_until now ≡ true)
unfolding status_verdict
status-passed e now h = ground arith

grace-left :
    (grace : Option ℕ) (now : ℕ)
    → in_grace grace now ≡ true
    → (until : ℕ) × (grace ≡ some until) × (now < until)
grace-left none now h = cc
grace-left (some until) now h = (until, refl, ltb→lt now until h)

status-IsStanding :
    (status : Option CredentialStatusEntry) (now : ℕ)
    → (status_verdict status now ≡ ok) ↔ IsStanding status now
unfolding status_verdict
status-IsStanding none now = ((λ h. tt), λ h. refl)
status-IsStanding (some e) now = (
  λ h.
      let (is, whole, left) = status-passed e now h in
      (is, whole, grace-left e.grace_until now left),
  λ (is, whole, (until, grace, left)). ground arith,
)

standing-trusted :
    (c : Credential) (status : Option CredentialStatusEntry) (now : ℕ)
    → c.issued_at ≤ now
    → now < c.expires_at
    → IsStanding status now
    → signature_trusted_at c now status ≡ ok
unfolding signature_trusted_at
standing-trusted c none now issued early stands = ground arith
standing-trusted c (some e) now issued early (is, whole, grace) = ground arith

-- A later entry, none of whose dates reaches back.
abbrev pub IsDatedAfter : ℕ → Option CredentialStatusEntry → Type 0
IsDatedAfter now none = Unit
IsDatedAfter now (some e) = (now < e.at) × ((t : ℕ) → e.compromised_at ≡ some t → now < t)

not_from : (at : Option ℕ) (now : ℕ) → ((t : ℕ) → at ≡ some t → now < t) → is_from at now ≡ false
not_from none now h = refl
not_from (some t) now h = let lt = h t refl in ground arith

dated-trusted :
    (c : Credential) (later : Option CredentialStatusEntry) (now : ℕ)
    → c.issued_at ≤ now
    → now < c.expires_at
    → IsDatedAfter now later
    → signature_trusted_at c now later ≡ ok
unfolding signature_trusted_at
dated-trusted c none now issued early after = ground arith
dated-trusted c (some e) now issued early (after, uncompromised) =
    let trusted = not_from e.compromised_at now uncompromised in ground arith

module _ (signs : String → Credential → Bool) where
  keyed :
      (c : Credential) (keys : IssuerKeys) (status : Option CredentialStatusEntry) (now : ℕ)
      → verify_credential signs (some c) keys status none now ≡ ok
      → (key : String) × (issuer_key keys c.issuer_kid ≡ some key)
  unfolding verify_credential
  keyed c keys status now h = elim (Option-cases (issuer_key keys c.issuer_kid)) [
    | inl unknown ↦ ground arith
    | inr found ↦ found
  ]

  signed-parts :
      (c : Credential) (keys : IssuerKeys) (key : String) (status : Option CredentialStatusEntry)
      (now : ℕ)
      → issuer_key keys c.issuer_kid ≡ some key
      → verify_credential signs (some c) keys status none now ≡ ok
      → (signs key c ≡ true)
        × (issued_untrusted keys c ≡ false)
        × (now < c.expires_at)
        × (status_verdict status now ≡ ok)
  unfolding verify_credential
  signed-parts c keys key none now is h = ground arith
  signed-parts c keys key (some e) now is h = ground arith

  parts-verified :
      (c : Credential) (keys : IssuerKeys) (key : String) (status : Option CredentialStatusEntry)
      (now : ℕ)
      → issuer_key keys c.issuer_kid ≡ some key
      → signs key c ≡ true
      → issued_untrusted keys c ≡ false
      → now < c.expires_at
      → status_verdict status now ≡ ok
      → verify_credential signs (some c) keys status none now ≡ ok
  unfolding verify_credential
  parts-verified c keys key none now is signed trusted early good = ground arith
  parts-verified c keys key (some e) now is signed trusted early good = ground arith

  -- A credential passes exactly if a key that the venue certifies signed it, no compromise of that key
  -- reaches back to the signing, it has not expired, and its status is good.
  pub verify_credential_iff :
      (c : Credential) (keys : IssuerKeys) (status : Option CredentialStatusEntry) (now : ℕ)
      → (verify_credential signs (some c) keys status none now ≡ ok) ↔ (
          ((key : String) × (issuer_key keys c.issuer_kid ≡ some key) × (signs key c ≡ true))
          × (issued_untrusted keys c ≡ false)
          × (now < c.expires_at)
          × IsStanding status now)
  verify_credential_iff c keys status now = (
    λ h.
        let (key, is) = keyed c keys status now h in
        let (signed, trusted, early, good) = signed-parts c keys key status now is h in
        ((key, is, signed), trusted, early, (status-IsStanding status now).0 good),
    λ ((key, is, signed), trusted, early, stands).
        parts-verified c keys key status now is signed trusted early
          ((status-IsStanding status now).1 stands),
  )

  -- A signature made when its credential passes, and no earlier than the credential was issued, is trusted
  -- from then on: under the status that the credential passed with, and under any later entry, a revocation,
  -- a supersession or a compromise, whose dates are after the signature.
  pub verified-trusted :
      (c : Credential) (keys : IssuerKeys) (status later : Option CredentialStatusEntry) (now : ℕ)
      → c.issued_at ≤ now
      → verify_credential signs (some c) keys status none now ≡ ok
      → (later ≡ status) ⊎ IsDatedAfter now later
      → signature_trusted_at c now later ≡ ok
  verified-trusted c keys status later now issued h dated =
      let (_, _, early, stands) = (verify_credential_iff c keys status now).0 h in
      elim dated [
        | inl same ↦
            subst (λ s. signature_trusted_at c now s ≡ ok) (sym same)
              (standing-trusted c status now issued early stands)
        | inr after ↦ dated-trusted c later now issued early after
      ]
