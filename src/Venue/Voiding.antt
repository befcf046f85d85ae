-- ===== src/Venue/Voiding.antt =====
-- Voiding a commitment and finishing it after a crash: `voidCommitment`, `applyVoid` and the part of
-- `recover` on void journals, of src/venue/service.ts. Audit entries and the delivery
-- of the notices are left out. The application is one step
-- here, the writes that it makes are told apart in Recovery.
pub mod Steps
pub mod Again
pub mod Recovery
use agentic_freight_venue.Common.{
  ℕ, Bool, true, false, not, ◌&&◌, Option, none, some, List, [], ◌∷◌, String, string_eq, ◌==◌,
  if◌then◌else◌, Keyed, lookup, insert, find,
}
use agentic_freight_venue.Protocol.Reasons.{ReasonCode, reason_name}
use agentic_freight_venue.Protocol.Canonical.{
  Json, null, string, amount, object, Fields, no_fields, field, undefined_field, Primitives,
}
use agentic_freight_venue.Mandate.Exposure.{ExposureBook, release as release_book}
use agentic_freight_venue.Ledger.Chain.{LedgerEntry, LedgerEntryType, void, append}
use agentic_freight_venue.Underwriting.Claims.{GuaranteeRecord}
use agentic_freight_venue.Underwriting.Engine.{Underwriting, release, guarantee_for_commitment}
use agentic_freight_venue.Venue.Task.{NegotiationTask, Notice, PendingNotice}
use agentic_freight_venue.Venue.Outcome.{guarantee_would_have_paid}
use agentic_freight_venue.Venue.Ending.{enqueue}
use agentic_freight_venue.Venue.State.{
  CommitmentStatus, voided, Voiding, CommitmentRecord, VoidJournal, Venue, exposure_for,
}

-- `deleteJournal`
abbrev pub without {ℓ} : {V : Type ℓ} → String → Keyed V → Keyed V
without key [] = []
without key ((at, value) ∷ rows) =
    let rest = without key rows in if at == key then rest else (at, value) ∷ rest

abbrev pub is_voided : CommitmentStatus → Bool
is_voided voided = true
is_voided _ = false

abbrev pub released_for : Option String → VoidJournal → ℕ → Underwriting → Underwriting
released_for none j now u = u
released_for (some g) j now u = release g (reason_name j.reason_code) now u

-- `this.exposureFor(agent).release(usdot, rate, day, commitmentId)`
abbrev pub book_released :
    String → String → ℕ → String → String → Keyed ExposureBook → Keyed ExposureBook
book_released agent usdot rate day commitment_id books =
    insert agent (release_book usdot rate day (some commitment_id) (exposure_for agent books)) books

abbrev pub marked_void : VoidJournal → CommitmentRecord → CommitmentRecord
marked_void j c = if is_voided c.status then c else record c {
  status = voided;
  voiding = some (record { at = j.written_at; reason_code = j.reason_code; evidence = j.evidence });
}

-- The negotiation with the voiding as its outcome, the first time.
abbrev pub outcome_noted :
    VoidJournal → CommitmentRecord → Keyed NegotiationTask → Keyed NegotiationTask
outcome_noted j c tasks = if is_voided c.status then tasks else elim (lookup c.task_id tasks) [
  | none ↦ tasks
  | some t ↦
      insert c.task_id
        (record t {
          outcome = some (record {
            reason_code = j.reason_code;
            refused_by = "venue.commitment";
            evidence = j.evidence;
            guarantee_would_have_paid = guarantee_would_have_paid j.reason_code;
          });
        })
        tasks
]

-- The notices to both parties, the first time.
abbrev pub told_void : VoidJournal → CommitmentRecord → List PendingNotice → List PendingNotice
told_void j c outbox =
    let notice = Notice.voided c.load_ref j.commitment_id j.reason_code j.evidence in
    if is_voided c.status
    then outbox
    else enqueue c.carrier_agent_id notice (enqueue c.broker_agent_id notice outbox)

-- What `applyVoid` does to a commitment that is on file.
unfoldable pub void_applied : VoidJournal → ℕ → CommitmentRecord → Venue → Venue
void_applied j now c v = record v {
  underwriting = released_for c.guarantee_id j now v.underwriting;
  exposures = book_released c.carrier_agent_id c.broker_usdot c.rate c.pickup_day j.commitment_id (
      book_released c.broker_agent_id c.carrier_usdot c.rate c.pickup_day j.commitment_id
        v.exposures);
  commitments = insert j.commitment_id (marked_void j c) v.commitments;
  tasks = outcome_noted j c v.tasks;
  outbox = told_void j c v.outbox;
  journals = without j.commitment_id v.journals;
}

unfoldable pub apply_void : VoidJournal → ℕ → Venue → Venue
apply_void j now v = elim (lookup j.commitment_id v.commitments) [
  | none ↦ record v { journals = without j.commitment_id v.journals }
  | some c ↦ void_applied j now c v
]

-- `payload.commitmentId`, where it is a text.
abbrev pub string_at : String → Fields → Option String
string_at key no_fields = none
string_at key (undefined_field k fs) = string_at key fs
string_at key (field k v fs) =
    let rest = string_at key fs in
    if k == key then elim v [ string s ↦ some s | _ ↦ none ] else rest

abbrev pub commitment_of : Json → Option String
commitment_of (object fs) = string_at "commitmentId" fs
commitment_of _ = none

abbrev pub is_void_entry : LedgerEntryType → Bool
is_void_entry void = true
is_void_entry _ = false

abbrev pub names : Option String → String → Bool
names none id = false
names (some s) id = s == id

-- The ledger's entry on the voiding of a commitment.
abbrev pub void_entry : String → List LedgerEntry → Option LedgerEntry
void_entry id es =
    find (λ e. is_void_entry e.content.entry_type && names (commitment_of e.content.payload) id) es

-- `recover` on one void journal: past the commit point it is finished, before it nothing happened.
unfoldable pub recover_void : VoidJournal → ℕ → Venue → Venue
recover_void j now v = elim (void_entry j.commitment_id v.ledger) [
  | none ↦ record v { journals = without j.commitment_id v.journals }
  | some e ↦ apply_void j now v
]

-- The entries of a JavaScript record.
abbrev fields_of : Keyed Json → Fields
fields_of [] = no_fields
fields_of ((key, value) ∷ rows) = field key value (fields_of rows)

abbrev guarantee_released : Option GuaranteeRecord → Json
guarantee_released none = null
guarantee_released (some g) = object (
    field "guaranteeId" (string g.guarantee_id)
      (field "coveredAmountUsd" (amount g.covered_amount) no_fields))

abbrev guarantee_of : CommitmentRecord → Underwriting → Option GuaranteeRecord
guarantee_of c u = elim c.guarantee_id [
  | none ↦ none
  | some g ↦ guarantee_for_commitment c.commitment_id u
]

module _ (x : Primitives) (signer : String) (iso : ℕ → String) where
  abbrev pub void_payload : CommitmentRecord → ReasonCode → Keyed Json → Underwriting → Json
  void_payload c reason_code evidence u = object (
      field "commitmentId" (string c.commitment_id) (
        field "reasonCode" (string (reason_name reason_code)) (
          field "evidence" (object (fields_of evidence))
            (field "guaranteeReleased" (guarantee_released (guarantee_of c u)) no_fields))))

  abbrev pub void_journal : CommitmentRecord → ReasonCode → Keyed Json → ℕ → VoidJournal
  void_journal c reason_code evidence now = record {
    commitment_id = c.commitment_id;
    written_at = now;
    reason_code = reason_code;
    evidence = evidence;
  }

  -- The steps of `voidCommitment`, between which the process can die: the journal, the entry (the
  -- commit point), and the application.
  unfoldable pub journaled : CommitmentRecord → ReasonCode → Keyed Json → ℕ → Venue → Venue
  journaled c reason_code evidence now v = record v {
    journals = insert c.commitment_id (void_journal c reason_code evidence now) v.journals;
  }

  unfoldable pub entered : CommitmentRecord → ReasonCode → Keyed Json → ℕ → Venue → Venue
  entered c reason_code evidence now v = record v {
    ledger =
        (append x signer void (void_payload c reason_code evidence v.underwriting) (iso now)
          v.ledger).1;
  }

  unfoldable pub void_commitment : CommitmentRecord → ReasonCode → Keyed Json → ℕ → Venue → Venue
  void_commitment c reason_code evidence now v =
      apply_void (void_journal c reason_code evidence now) now
        (entered c reason_code evidence now (journaled c reason_code evidence now v))
