-- ===== src/Witness/Tests.antt =====
-- Two witnesses at a concrete head.
use agentic_freight_venue.Common.{
  if◌then◌else◌, ℕ, ◌≡◌, refl, max, true, Option, none, some, ◌==◌, List, [], ◌∷◌, String,
  string_eq, lookup, insert,
}
use agentic_freight_venue.Protocol.Examples.{toy}
use agentic_freight_venue.Protocol.Canonical.{string, object, no_fields, field, canonicalize}
use agentic_freight_venue.Ledger.Chain.{LedgerEntry, credential_status, append}
use agentic_freight_venue.Witness.Inclusion.{
  StatusNotice, authority_revoked, sign_notice, verify_notice, notice_hash, sign_promise,
  verify_promise, find_inclusion,
}
use agentic_freight_venue.Witness.Inclusion.Kept.{Keeps, promise_kept}
use agentic_freight_venue.Witness.Receipts.{
  LedgerHead, WitnessReceipt, WitnessKey, Witnessed, WitnessPolicy, sign_receipt, verify_receipt,
  witnessed_as_of, is_good, latest_by,
}
use agentic_freight_venue.Witness.Receipts.Quorum.{IsVouched, quorum-IsVouched}

abbrev iso : ℕ → String
iso at = "t"

abbrev head : LedgerHead
head = record { seq = 4; hash = "aa" }

abbrev pinned : List WitnessKey
pinned =
    record { witness_id = "w1"; public_key = "k1" }
    ∷ record { witness_id = "w2"; public_key = "k2" }
    ∷ []

abbrev first : WitnessReceipt
first = sign_receipt toy iso "k1" "w1" "v" head 10

abbrev second : WitnessReceipt
second = sign_receipt toy iso "k2" "w2" "v" head 20

abbrev forked : WitnessReceipt
forked = sign_receipt toy iso "k2" "w2" "v" (record { seq = 4; hash = "bb" }) 20

abbrev witnessed : Witnessed
witnessed = record { head = head; receipts = first ∷ second ∷ [] }

abbrev policy : WitnessPolicy
policy = record { min_witnesses = some 2; required = "w1" ∷ [] }

quorum_test :
    ((witnessed_as_of toy iso "v" (some witnessed) pinned policy).at ≡ some 10)
    × ((witnessed_as_of toy iso "v" (some witnessed) pinned policy).quorum ≡ true)
unfolding witnessed_as_of latest_by is_good sign_receipt verify_receipt canonicalize lookup insert
quorum_test = (refl, refl)

quorum-IsVouched_example :
    (t : ℕ) × ((witnessed_as_of toy iso "v" (some witnessed) pinned policy).at ≡ some t)
    × IsVouched (is_good toy iso "v" head pinned) (max 1 2) ("w1" ∷ []) t
quorum-IsVouched_example = quorum-IsVouched toy iso "v" witnessed pinned policy quorum_test.1

abbrev notice : StatusNotice
notice =
    sign_notice toy iso "s1" "registry"
      (record {
        notice_id = "n1";
        subject = record { credential_id = none; usdot = some "2233541"; agent_id = none };
        assertion = authority_revoked;
        effective_at = "t";
        reason = "revoked";
      })
      5

abbrev resolver : String → Option String
resolver kid = if kid == "kid1" then some "k1" else none

promise_kept_example :
    let p = sign_promise toy iso "k1" "kid1" "v" notice 60 6 in
    (verify_promise toy iso p resolver ≡ true)
    × ((d : LedgerEntry) × (find_inclusion p
            (append toy "k1" credential_status
              (object (field "noticeHash" (string (notice_hash toy iso notice)) no_fields))
              "t"
              []).1
          ≡ some d)
        × Keeps p d)
promise_kept_example =
    promise_kept toy iso "k1" "kid1" "v" "t" notice 60 6 resolver no_fields [] refl

notice_test : verify_notice toy iso notice "s1" ≡ true
unfolding verify_notice sign_notice canonicalize
notice_test = refl
