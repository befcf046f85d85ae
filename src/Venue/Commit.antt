-- ===== src/Venue/Commit.antt =====
-- Applying a commit: `ledgerPayloadFor`, `applyCommit` and the part of `recover` on commit journals, of
-- src/venue/service.ts. Of the artifact, the terms and the hashes are kept; the audit entries and the
-- delivery of the outbox are left out, and so is what a restart does beyond the journals. The application is
-- one step here, the writes that it makes are told apart in Recovery.
pub mod Steps
pub mod Settled
pub mod Again
pub mod Recovery
pub mod Completed
use agentic_freight_venue.Common.{
  ℕ, Bool, true, false, not, ◌&&◌, Option, none, some, List, [], ◌∷◌, String, string_eq, ◌==◌,
  if◌then◌else◌, Keyed, lookup, insert, find,
}
use agentic_freight_venue.Protocol.Canonical.{
  Json, null, string, amount, object, no_fields, field, Primitives,
}
use agentic_freight_venue.Protocol.Terms.{Terms, Window, Entity, LoadSpec, load_fingerprint, prefix}
use agentic_freight_venue.Mandate.Exposure.{ExposureBook, add}
use agentic_freight_venue.Ledger.Chain.{LedgerEntry, LedgerEntryType, commitment, append}
use agentic_freight_venue.Underwriting.Engine.{Underwriting, QuotedGuarantee, attach}
use agentic_freight_venue.Underwriting.Claims.{GuaranteeRecord}
use agentic_freight_venue.Venue.Task.{
  TaskState, NegotiationStatus, NegotiationTask, Notice, PendingNotice, CommitJournal,
}
use agentic_freight_venue.Venue.State.{active, CommitmentRecord, Venue, exposure_for}
use agentic_freight_venue.Venue.Ending.{enqueue, cancel_siblings}
use agentic_freight_venue.Venue.Voiding.{without, commitment_of, names}

abbrev pub pickup_day : Terms → String
pickup_day t = prefix 10 t.pickup.start

abbrev pub attached_for :
    Option QuotedGuarantee → String → ℕ → Underwriting → Option String × Underwriting
attached_for none commitment_id now u = (none, u)
attached_for (some q) commitment_id now u =
    let (g, u') = attach q commitment_id now u in (some g.guarantee_id, u')

-- `this.exposureFor(agent).add(usdot, rate, day, commitmentId)`
abbrev pub book_added :
    String → String → ℕ → String → String → Keyed ExposureBook → Keyed ExposureBook
book_added agent usdot rate day commitment_id books =
    insert agent (add usdot rate day (some commitment_id) (exposure_for agent books)) books

abbrev pub is_committed : NegotiationStatus → Bool
is_committed NegotiationStatus.committed = true
is_committed _ = false

abbrev pub completed : CommitJournal → NegotiationTask → NegotiationTask
completed j t = record t {
  status = NegotiationStatus.committed;
  commitment_id = some j.commitment_id;
  state = TaskState.completed;
  message = some (Notice.committed j.commitment_id j.terms_hash);
}

abbrev pub told_both : CommitJournal → List PendingNotice → List PendingNotice
told_both j outbox =
    let notice = Notice.committed j.commitment_id j.terms_hash in
    enqueue j.terms.carrier_agent_id notice (enqueue j.terms.broker_agent_id notice outbox)

-- The part of `applyCommit` on the negotiation.
unfoldable pub task_completed : CommitJournal → Venue → Venue
task_completed j v = elim (lookup j.task_id v.tasks) [
  | none ↦ v
  | some t ↦
      if is_committed t.status
      then v
      else record v { tasks = insert t.id (completed j t) v.tasks; outbox = told_both j v.outbox }
]

abbrev pub commit_entry : String → List LedgerEntry → Option LedgerEntry
commit_entry id es =
    find
      (λ e.
        elim e.content.entry_type [ commitment ↦ true | _ ↦ false ]
        && names (commitment_of e.content.payload) id)
      es

module _ (x : Primitives) (normalized : String → String) (date : String → ℕ) where
  abbrev pub new_commitment : CommitJournal → Option String → CommitmentRecord
  new_commitment j guarantee_id = record {
    commitment_id = j.commitment_id;
    task_id = j.task_id;
    load_ref = j.terms.load_ref;
    load_fingerprint = load_fingerprint x normalized j.terms.load;
    subcontract_permitted = j.terms.load.subcontract_permitted;
    broker_agent_id = j.terms.broker_agent_id;
    carrier_agent_id = j.terms.carrier_agent_id;
    broker_usdot = j.terms.broker_entity.usdot;
    carrier_usdot = j.terms.carrier_entity.usdot;
    rate = j.terms.rate;
    pickup_day = pickup_day j.terms;
    delivery_window_end = date j.terms.delivery.end;
    status = active;
    lifecycle = [];
    guarantee_id = guarantee_id;
    voiding = none;
    renewal = j.renewal;
  }

  -- `if (!alreadyRecorded) commitments.set(…)`
  abbrev pub recorded_once :
      CommitJournal → Option String → Keyed CommitmentRecord → Keyed CommitmentRecord
  recorded_once j guarantee_id commitments = elim (lookup j.commitment_id commitments) [
    | some _ ↦ commitments
    | none ↦ insert j.commitment_id (new_commitment j guarantee_id) commitments
  ]

  -- The guarantee, the two exposure books and the commitment record.
  unfoldable pub books_kept : CommitJournal → ℕ → Venue → Venue
  books_kept j now v =
      let day = pickup_day j.terms in
      let (guarantee_id, u) = attached_for j.guarantee j.commitment_id now v.underwriting in
      record v {
        underwriting = u;
        exposures =
            book_added j.terms.carrier_agent_id j.terms.broker_entity.usdot j.terms.rate day
              j.commitment_id
              (book_added j.terms.broker_agent_id j.terms.carrier_entity.usdot j.terms.rate day
                j.commitment_id v.exposures);
        commitments = recorded_once j guarantee_id v.commitments;
      }

  -- `t ? this.cancelSiblings(t, rec) : 0`
  unfoldable pub siblings_canceled : CommitJournal → Venue → Venue
  siblings_canceled j v = elim (lookup j.task_id v.tasks) [
    | none ↦ v
    | some t ↦ elim (lookup j.commitment_id v.commitments) [
      | none ↦ v
      | some c ↦ cancel_siblings x normalized t.id t.broker_agent_id c v
    ]
  ]

  unfoldable pub journal_deleted : CommitJournal → Venue → Venue
  journal_deleted j v = record v { commit_journals = without j.commitment_id v.commit_journals }

  unfoldable pub apply_commit : CommitJournal → ℕ → Venue → Venue
  apply_commit j now v =
      journal_deleted j (siblings_canceled j (task_completed j (books_kept j now v)))

  abbrev guarantee_json : Option QuotedGuarantee → Json
  guarantee_json none = null
  guarantee_json (some q) = object (
      field "guaranteeId" (string q.guarantee_id) (
        field "coveredAmountUsd" (amount q.covered_amount) (
          field "premiumUsd" (amount q.premium) (
            field "counterpartyUsdot" (string q.counterparty)
              (field "beneficiaryUsdot" (string q.beneficiary) no_fields)))))

  unfoldable pub ledger_payload_for : CommitJournal → Json
  ledger_payload_for j = object (
      field "commitmentId" (string j.commitment_id) (
        field "taskId" (string j.task_id) (
          field "termsHash" (string j.terms_hash) (
            field "artifactHash" (string j.artifact_hash) (
              field "loadRef" (string j.terms.load_ref) (
                field "brokerUsdot" (string j.terms.broker_entity.usdot) (
                  field "carrierUsdot" (string j.terms.carrier_entity.usdot) (
                    field "rateUsd" (amount j.terms.rate)
                      (field "guarantee" (guarantee_json j.guarantee) no_fields)))))))))

  -- The three last steps of `commit`, between which the process can die: the journal, the entry (the commit
  -- point), and the application.
  unfoldable pub commit_journaled : CommitJournal → Venue → Venue
  commit_journaled j v = record v { commit_journals = insert j.commitment_id j v.commit_journals }

  unfoldable pub commit_entered : String → (ℕ → String) → CommitJournal → ℕ → Venue → Venue
  commit_entered signer iso j now v = record v {
    ledger = (append x signer commitment (ledger_payload_for j) (iso now) v.ledger).1;
  }

  unfoldable pub commit_finished : String → (ℕ → String) → CommitJournal → ℕ → Venue → Venue
  commit_finished signer iso j now v =
      apply_commit j now (commit_entered signer iso j now (commit_journaled j v))

  -- `recover` on one commit journal.
  unfoldable pub recover_commit : CommitJournal → ℕ → Venue → Venue
  recover_commit j now v = elim (commit_entry j.commitment_id v.ledger) [
    | none ↦ journal_deleted j v
    | some e ↦ apply_commit j now v
  ]
