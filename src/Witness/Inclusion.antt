-- ===== src/Witness/Inclusion.antt =====
-- Status notices of a source, the venue's promises to include them, and where a ledger keeps one:
-- src/protocol/inclusion.ts. Times are milliseconds, printed by an argument where they are signed.
pub mod Kept
use agentic_freight_venue.Common.{
  ℕ, ◌+◌, Bool, true, false, Option, none, some, List, [], ◌∷◌, String, string_eq, ◌==◌,
  if◌then◌else◌, find,
}
use agentic_freight_venue.Protocol.Canonical.{
  Json, string, object, Fields, no_fields, field, undefined_field, Primitives, canonicalize,
  hash_object,
}
use agentic_freight_venue.Ledger.Chain.{LedgerEntry}
use agentic_freight_venue.Witness.Receipts.{WitnessReceipt}

pub data Assertion : Type 0 where
  revoked insurance_cancelled authority_revoked key_compromised : Assertion

abbrev assertion_name : Assertion → String
assertion_name revoked = "REVOKED"
assertion_name insurance_cancelled = "INSURANCE_CANCELLED"
assertion_name authority_revoked = "AUTHORITY_REVOKED"
assertion_name key_compromised = "KEY_COMPROMISED"

pub record NoticeSubject : Type 0 where
  pub credential_id : Option String
  pub usdot : Option String
  pub agent_id : Option String

-- What a source asserts, before it is dated and signed.
pub record NoticeFields : Type 0 where
  pub notice_id : String
  pub subject : NoticeSubject
  pub assertion : Assertion
  pub effective_at : String
  pub reason : String

pub record StatusNotice : Type 0 where
  pub source_id : String
  pub issued_at : ℕ
  pub fields : NoticeFields
  pub source_signature : String

pub record InclusionPromise : Type 0 where
  pub venue_id : String
  pub notice_hash : String
  pub notice_id : String
  pub received_at : ℕ
  pub include_by : ℕ
  pub kid : String
  pub signature : String

-- A head past the deadline, under a witness's receipt, without the promised entry.
pub record BrokenPromiseProof : Type 0 where
  pub promise : InclusionPromise
  pub head_receipt : WitnessReceipt
  pub checked_at : ℕ
  pub detected_by : String

pub record PendingNotice : Type 0 where
  pub notice : StatusNotice
  pub lodged_at : ℕ
  pub lodged_with : String
  pub submission_outcome : String

abbrev optional : String → Option String → Fields → Fields
optional key none rest = undefined_field key rest
optional key (some s) rest = field key (string s) rest

abbrev subject_json : NoticeSubject → Json
subject_json s = object (
    optional "credentialId" s.credential_id
      (optional "usdot" s.usdot (optional "agentId" s.agent_id no_fields)))

-- `payload.noticeHash`, where it is a text.
abbrev notice_hash_in : Fields → Option String
notice_hash_in no_fields = none
notice_hash_in (undefined_field k fs) = notice_hash_in fs
notice_hash_in (field k v fs) =
    let rest = notice_hash_in fs in
    if k == "noticeHash" then elim v [ string s ↦ some s | _ ↦ none ] else rest

abbrev pub included_hash : Json → Option String
included_hash (object fs) = notice_hash_in fs
included_hash _ = none

abbrev pub is_hash : String → Option String → Bool
is_hash h none = false
is_hash h (some s) = s == h

-- The entry on the chain that carries what was promised.
unfoldable pub find_inclusion : InclusionPromise → List LedgerEntry → Option LedgerEntry
find_inclusion p entries =
    find (λ e. is_hash p.notice_hash (included_hash e.content.payload)) entries

module _ (x : Primitives) (iso : ℕ → String) where
  -- The notice without its signature, in front of what else is to be hashed.
  abbrev notice_fields : String → ℕ → NoticeFields → Fields → Fields
  notice_fields source_id issued_at n rest =
      field "schema" (string "freight-venue/status-notice/v1") (
        field "sourceId" (string source_id) (
          field "issuedAt" (string (iso issued_at)) (
            field "noticeId" (string n.notice_id) (
              field "subject" (subject_json n.subject) (
                field "assertion" (string (assertion_name n.assertion)) (
                  field "effectiveAt" (string n.effective_at)
                    (field "reason" (string n.reason) rest)))))))

  unfoldable pub notice_hash : StatusNotice → String
  notice_hash n = hash_object x (
      object (
        notice_fields n.source_id n.issued_at n.fields
          (field "sourceSignature" (string n.source_signature) no_fields)))

  unfoldable pub sign_notice : String → String → NoticeFields → ℕ → StatusNotice
  sign_notice source source_id n now = record {
    source_id = source_id;
    issued_at = now;
    fields = n;
    source_signature =
        x.sign source (canonicalize x (object (notice_fields source_id now n no_fields)));
  }

  unfoldable pub verify_notice : StatusNotice → String → Bool
  verify_notice n source_key =
      x.verify source_key n.source_signature
        (canonicalize x (object (notice_fields n.source_id n.issued_at n.fields no_fields)))

  abbrev promise_json : String → String → String → ℕ → ℕ → String → Json
  promise_json venue_id hash notice_id received_at include_by kid = object (
      field "schema" (string "freight-venue/inclusion-promise/v1") (
        field "venueId" (string venue_id) (
          field "noticeHash" (string hash) (
            field "noticeId" (string notice_id) (
              field "receivedAt" (string (iso received_at)) (
                field "includeBy" (string (iso include_by))
                  (field "kid" (string kid) no_fields)))))))

  -- The venue's private key, its `kid`, the notice, the delay and the time.
  unfoldable pub sign_promise : String → String → String → StatusNotice → ℕ → ℕ → InclusionPromise
  sign_promise venue kid venue_id n include_by_ms now =
      let h = notice_hash n in
      record {
        venue_id = venue_id;
        notice_hash = h;
        notice_id = n.fields.notice_id;
        received_at = now;
        include_by = now + include_by_ms;
        kid = kid;
        signature = x.sign venue (
            canonicalize x
              (promise_json venue_id h n.fields.notice_id now (now + include_by_ms) kid));
      }

  -- `venueKey` resolves the promise's kid.
  unfoldable pub verify_promise : InclusionPromise → (String → Option String) → Bool
  verify_promise p venue_key = elim (venue_key p.kid) [
    | none ↦ false
    | some key ↦ x.verify key p.signature (
        canonicalize x
          (promise_json p.venue_id p.notice_hash p.notice_id p.received_at p.include_by p.kid))
  ]
