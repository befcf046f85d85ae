-- ===== src/Witness/Inclusion/Kept.antt =====
-- A promise that the venue signs, and the entry that keeps it.
use agentic_freight_venue.Common.{
  ℕ, ◌≡◌, refl, true, Option, some, List, [], ◌∷◌, ◌++◌, String, string_eq, ==_refl, inl, inr,
  Bool-cases,
}
use agentic_freight_venue.Protocol.Canonical.{string, object, Fields, field, Primitives}
use agentic_freight_venue.Ledger.Chain.{LedgerEntry, credential_status, append, new_entry}
use agentic_freight_venue.Witness.Inclusion.{
  StatusNotice, InclusionPromise, included_hash, is_hash, find_inclusion, notice_hash, sign_promise,
  verify_promise,
}

-- An entry that carries the promised hash.
abbrev pub Keeps : InclusionPromise → LedgerEntry → Type 0
Keeps p e = is_hash p.notice_hash (included_hash e.content.payload) ≡ true

found_appended :
    (p : InclusionPromise) (es : List LedgerEntry) (e : LedgerEntry)
    → Keeps p e
    → (d : LedgerEntry) × (find_inclusion p (es ++ (e ∷ [])) ≡ some d) × Keeps p d
unfolding find_inclusion
found_appended p [] e k = (e, rw k refl, k)
found_appended p (f ∷ es) e k =
    let rest = found_appended p es e k in
    elim (Bool-cases (is_hash p.notice_hash (included_hash f.content.payload))) [
      | inl here ↦ (f, rw here refl, here)
      | inr past ↦ (rest.0, rw past rest.1, rest.2)
    ]

module _ (x : Primitives) (iso : ℕ → String) where
  -- A promise that the venue signs for a notice verifies for whoever resolves its kid to the venue's key,
  -- and once the venue appends an entry that carries the notice's hash, to whatever ledger, the promised
  -- entry is found there.
  pub promise_kept :
      (venue kid venue_id now : String) (n : StatusNotice) (delay at : ℕ)
      (venue_key : String → Option String) (rest : Fields) (es : List LedgerEntry)
      → venue_key kid ≡ some (x.public_key venue)
      → let p = sign_promise x iso venue kid venue_id n delay at in
        (verify_promise x iso p venue_key ≡ true)
        × ((d : LedgerEntry) × (find_inclusion p
                (append x venue credential_status
                  (object (field "noticeHash" (string (notice_hash x iso n)) rest))
                  now
                  es).1
              ≡ some d)
            × Keeps p d)
  unfolding sign_promise verify_promise append new_entry
  promise_kept venue kid venue_id now n delay at venue_key rest es known = (
    rw (known, verify_promise) (x.verify-sign venue _),
    found_appended (sign_promise x iso venue kid venue_id n delay at) es _
        (==_refl (notice_hash x iso n)),
  )
