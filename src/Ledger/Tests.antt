-- ===== src/Ledger/Tests.antt =====
-- The ledger and the audit log at concrete inputs, with primitives that can be computed.
use text.Mathlib.TextEquality.{eq_iff}
use agentic_freight_venue.Common.{
  ◌≡◌, refl, ◌≢◌, true, none, some, List, [], ◌∷◌, String, string_eq, arith, length, map,
}
use agentic_freight_venue.Protocol.Examples.{toy}
use agentic_freight_venue.Protocol.Canonical.{
  Json, string, number, object, no_fields, field, undefined_field, canonicalize, Fields,
  hash_object,
}
use agentic_freight_venue.Ledger.Chain.{
  LedgerEntry, genesis, commitment, void, append, new_entry, opened, verify_chain, verify_entries,
  entry_hash,
}
use agentic_freight_venue.Ledger.Chain.Appended.{append_all, append_all-verifies}
use agentic_freight_venue.Ledger.Chain.Tampering.{TellsApart, heads-agree}
use agentic_freight_venue.Ledger.Audit.{
  AuditEntry, reopen, reread, verify_audit_chain, write, write_once,
}
use agentic_freight_venue.Ledger.Audit.Chained.{
  Write, writes, writes_once, perform, perform_all, perform_all-verifies,
}
use agentic_freight_venue.Ledger.Audit.Reopened.{reopen-eq}

abbrev load : Json
load =
    object (
      field "rate" (number 2215) (undefined_field "note" (field "lane" (string "TX-OK") no_fields)))

abbrev ledger : List LedgerEntry
ledger = (append toy "k1" commitment load "t1" (append toy "k1" genesis load "t0" []).1).1

abbrev signed_anew : List LedgerEntry
signed_anew = (append toy "k2" commitment load "t1" (append toy "k2" genesis load "t0" []).1).1

canonical_test : canonicalize toy load ≡ "{lane:TX-OK,rate:7}"
unfolding canonicalize
canonical_test = refl

ledger-IsOk : (verify_chain toy "k1" ledger).is_ok ≡ true
unfolding verify_chain verify_entries append new_entry entry_hash hash_object canonicalize
ledger-IsOk = refl

signed_anew-IsOk : (verify_chain toy "k2" signed_anew).is_ok ≡ true
unfolding verify_chain verify_entries append new_entry entry_hash hash_object canonicalize
signed_anew-IsOk = refl

wrong_key : (verify_chain toy "k2" ledger).first_bad_seq ≡ some 0
unfolding verify_chain verify_entries append new_entry entry_hash hash_object canonicalize
wrong_key = refl

append_all-verifies_example :
    (verify_chain toy "k1" (
      append_all toy "k1"
        ((commitment, load, "t1") ∷ (void, load, "t2") ∷ [])
        (opened toy "k1" load "t0" []))).is_ok
    ≡ true
append_all-verifies_example =
    append_all-verifies toy "k1" load "t0" ((commitment, load, "t1") ∷ (void, load, "t2") ∷ [])

told_apart : TellsApart toy ledger signed_anew
unfolding append new_entry
told_apart = ((λ h. refl), ((λ h. refl), tt))

heads-agree_example : map (λ e. e.content) ledger ≡ map (λ e. e.content) signed_anew
unfolding append new_entry
heads-agree_example =
    heads-agree toy "k1" "k2" ledger signed_anew told_apart ledger-IsOk signed_anew-IsOk refl refl

abbrev report : Fields
report = field "event" (string "void") no_fields

abbrev calls : List Write
calls = writes "t0" report ∷ writes_once "t1" "c1" report ∷ writes_once "t2" "c1" report ∷ []

once_test : length (perform_all toy calls (reopen [])).file ≡ 2
unfolding perform_all perform write write_once reopen reread
once_test = refl

perform_all-verifies_example :
    (verify_audit_chain toy (perform_all toy calls (reopen [])).file).is_ok ≡ true
perform_all-verifies_example = perform_all-verifies toy calls

named : ◌≢◌ {A = String} "c1" ""
named = ground (arith, eq_iff "c1" "")

reopen-eq_example :
    reopen (perform_all toy calls (reopen [])).file ≡ perform_all toy calls (reopen [])
reopen-eq_example = reopen-eq toy calls (tt, (named, (named, tt)))

abbrev unchained : AuditEntry
unchained = record {
  content = record { ts = "t3"; seq = 1; key = none; report = report };
  prev_hash = none;
  hash = none;
}
