-- ===== src/Venue/NegotiationTests.antt =====
-- The negotiation of Scenario, run and ended.
use text.Mathlib.TextEquality.{eq_iff}
use mathlib.Core.Option
use agentic_freight_venue.Common.{
  length, ◌⊎◌, ◌↔◌, ◌≤◌, ◌+◌, ◌*◌, ℕ, All, values, ◌≡◌, refl, ◌≢◌, true, inr, none, some, [],
  String, string_eq, lookup, insert, arith,
}
use agentic_freight_venue.Protocol.Canonical.{hash_object, canonicalize}
use agentic_freight_venue.Protocol.Terms.{terms_hash, terms_json, load_fingerprint}
use agentic_freight_venue.Protocol.Insurance.{
  InsurerAttestation, notice_of, day_ms, renewal_window, satisfies_renewal, satisfies_renewal_iff,
}
use agentic_freight_venue.Protocol.Examples.{toy}
use agentic_freight_venue.Mandate.Limits.{envelope_to_limits}
use agentic_freight_venue.Mandate.Engine.{evaluate_mandate}
use agentic_freight_venue.Underwriting.Model.{assess_risk}
use agentic_freight_venue.Underwriting.Quoting.{quote}
use agentic_freight_venue.Underwriting.Engine.{
  Underwriting, guarantee_for_commitment, fresh, history_for,
}
use agentic_freight_venue.Underwriting.Claims.{GuaranteeRecord}
use agentic_freight_venue.Venue.Task.{TaskState, Offer, NegotiationTask, CommitJournal, refused}
use agentic_freight_venue.Venue.Ending.{active_commitment_for_load}
use agentic_freight_venue.Venue.Moves.{accept_terms, replied}
use agentic_freight_venue.Venue.Acceptance.{
  terms_accepted, acceptance_checked, acceptance_kept, check_accept_terms, against_table,
  accept_verdict,
}
use agentic_freight_venue.Venue.Prepare.{prepare, quote_for, risk_inputs}
use agentic_freight_venue.Venue.Negotiation.{advance, moved, made}
use agentic_freight_venue.Common.{◌+ℤ◌}
use agentic_freight_venue.Ledger.Chain.{append, entry_hash, new_entry}
use agentic_freight_venue.Mandate.Exposure.{add, outstanding, daily}
use agentic_freight_venue.Underwriting.Engine.{attach, attach_new, guarantee_for_commitment}
use agentic_freight_venue.Underwriting.Model.{
  clamp_probability, apply_factors, risk_factors, age_base, bad_flags, history_credit, is_bad_flag,
  price_premium, rating_factors, thin_headroom,
}
use agentic_freight_venue.Underwriting.Quoting.{exposure}
use agentic_freight_venue.Venue.Acceptance.{commit, mandate_stop}
use agentic_freight_venue.Venue.Commit.{
  apply_commit, books_kept, commit_entered, commit_finished, commit_journaled, journal_deleted,
  ledger_payload_for, siblings_canceled, task_completed,
}
use agentic_freight_venue.Venue.Ending.{
  cancel_each, cancel_siblings, ended, enqueue, fail, subject_of, terminate,
}
use agentic_freight_venue.Venue.Moves.{counter_offered, offer_permitted}
use agentic_freight_venue.Venue.Outcome.{guarantee_would_have_paid}
use agentic_freight_venue.Venue.Prepare.{
  guarantee_or_stop, insurer_kept, renewal_condition, reverified,
}
use agentic_freight_venue.Venue.Redaction.{copy_safe, redact_for_counterparty}
use agentic_freight_venue.Protocol.Insurance.{coverage_assured_through}
use agentic_freight_venue.Protocol.Reasons.{
  mandate_rate_above_ceiling, negotiation_timeout, load_already_committed,
}
use agentic_freight_venue.Venue.State.{CommitmentRecord, Venue}
use agentic_freight_venue.Venue.Step.{go}
use agentic_freight_venue.Venue.Moves.{task_of, other_party, countered}
use agentic_freight_venue.Venue.Commit.{new_commitment, recover_commit}
use agentic_freight_venue.Venue.Commit.Recovery.{Cut, recover-commit_lem}
use agentic_freight_venue.Venue.Ending.{failing, tasks_get, expire_stale_tasks}
use agentic_freight_venue.Venue.Ending.Expired.{
  TasksFiled, IsOverdue, IsCanceled, expire_stale_tasks_lem,
}
use agentic_freight_venue.Venue.Ending.Siblings.{IsRival, cancel_siblings_lem}
use agentic_freight_venue.Venue.Ending.Redacted.{IsDiscreet, Gained, terminate-discloses}
use agentic_freight_venue.Venue.Negotiation.Progress.{BothAccepted, advance-ledger}
use agentic_freight_venue.Venue.Negotiation.Termination.{IsOpen, HasAdvanced, advance-HasAdvanced}
use agentic_freight_venue.Venue.Negotiation.Stale.{countered-stale}
use agentic_freight_venue.Venue.Scenario.{
  same_text, date, iso, window, broker_entity, terms, agent, credential, standing, their_acceptance,
  task, venue, reply, venue_of,
}

-- The broker's acceptance is answered: the negotiation is completed, the rival's is canceled, and the
-- ledger has the commitment.
ran :
    (reply ≡ replied (venue_of reply))
    × (Option.map (λ (t : NegotiationTask). t.state) (lookup "t1" (venue_of reply).tasks)
        ≡ some TaskState.completed)
    × (Option.map (λ (t : NegotiationTask). t.state) (lookup "t2" (venue_of reply).tasks)
        ≡ some TaskState.canceled)
    × (length (venue_of reply).ledger ≡ 1)
unfolding advance lookup moved made terms_accepted active_commitment_for_load terms_hash hash_object
    canonicalize terms_json against_table quote_for quote fresh assess_risk insert evaluate_mandate
    envelope_to_limits renewal_window load_fingerprint history_for accept_verdict acceptance_checked
    acceptance_kept check_accept_terms prepare risk_inputs ◌+ℤ◌ append entry_hash new_entry add
    outstanding attach attach_new guarantee_for_commitment clamp_probability apply_factors
    risk_factors age_base bad_flags history_credit is_bad_flag price_premium rating_factors
    thin_headroom exposure commit mandate_stop apply_commit books_kept commit_entered
    commit_finished commit_journaled journal_deleted ledger_payload_for siblings_canceled
    task_completed cancel_each cancel_siblings ended enqueue fail subject_of terminate
    counter_offered offer_permitted guarantee_would_have_paid guarantee_or_stop insurer_kept
    renewal_condition reverified copy_safe redact_for_counterparty coverage_assured_through daily
ran = (refl, refl, refl, refl)

found : task_of (some "t1") venue ≡ some task
unfolding lookup
found = refl

parties_apart : ◌≢◌ {A = String} "b" "k"
parties_apart e = let h = (eq_iff "b" "k").1 e in cc h

tasks_filed : TasksFiled venue
unfolding lookup
tasks_filed = (refl, refl, (refl, refl, tt))

advance-ledger_example :
    ((venue_of reply).ledger ≡ venue.ledger)
    ⊎ BothAccepted toy same_text date "k1" iso 5 standing
        (agent "b" "cb")
        (credential "cb" broker_entity)
        task
        (accept_terms 2 terms (terms_hash toy terms))
        venue
advance-ledger_example =
    advance-ledger toy same_text date "k1" iso 5 standing (agent "b" "cb")
      (credential "cb" broker_entity) 1000 (some "t1") (accept_terms 2 terms (terms_hash toy terms))
      task venue (venue_of reply) found parties_apart ran.0

task-IsOpen : IsOpen 5 task
unfolding lookup
task-IsOpen = record {
  within = omega arith;
  apart = parties_apart;
  stage = inr (refl, (their_acceptance, refl));
}

advance-HasAdvanced_example :
    TasksFiled (venue_of reply)
    × HasAdvanced toy same_text date "k1" iso 5 standing
        (agent "b" "cb")
        (credential "cb" broker_entity)
        task
        (venue_of reply)
advance-HasAdvanced_example =
    advance-HasAdvanced toy same_text date "k1" iso 5 standing (agent "b" "cb")
      (credential "cb" broker_entity) 1000 (some "t1") (accept_terms 2 terms (terms_hash toy terms))
      task venue (venue_of reply) found task-IsOpen tasks_filed ran.0

expire_stale_tasks_lem_example :
    let after = expire_stale_tasks 25 50 venue in
    ((key : String) (t : NegotiationTask)
      → lookup key venue.tasks ≡ some t
      → (IsOverdue 25 50 t → IsCanceled negotiation_timeout t.awaiting t (lookup key after.tasks))
        × ((IsOverdue 25 50 t → ⊥) → lookup key after.tasks ≡ some t))
    × ((key : String) → lookup key venue.tasks ≡ none → lookup key after.tasks ≡ none)
    × All (λ t. IsOverdue 25 50 t → ⊥) (values after.tasks)
    × TasksFiled after
expire_stale_tasks_lem_example = expire_stale_tasks_lem 25 50 venue tasks_filed

abbrev journal : CommitJournal
journal = record {
  commitment_id = "c1";
  task_id = "t1";
  written_at = 50;
  terms = terms;
  terms_hash = terms_hash toy terms;
  artifact_hash = "a";
  renewal = none;
  guarantee = none;
}

named : ◌≢◌ {A = String} "c1" ""
named e = let h = (eq_iff "c1" "").1 e in cc h

no_journal : lookup "c1" venue.commit_journals ≡ none
unfolding lookup
no_journal = refl

recover-commit_lem_example :
    let begun = commit_journaled toy same_text date journal venue in
    let e = commit_entered toy same_text date "k1" iso journal 50 begun in
    (recover_commit toy same_text date journal 60 begun ≡ venue)
    × (recover_commit toy same_text date journal 60 e
        ≡ apply_commit toy same_text date journal 60 e)
    × ((u : Venue)
        → Cut toy same_text date "k1" iso journal 50 e u
        → recover_commit toy same_text date journal 60 u
          ≡ commit_finished toy same_text date "k1" iso journal 50 venue)
    × ((p : Underwriting) (g : GuaranteeRecord)
        → guarantee_for_commitment "c1" p ≡ some g
        → (recover_commit toy same_text date journal 60
            (record e { underwriting = p })).underwriting
          ≡ p)
recover-commit_lem_example =
    recover-commit_lem toy same_text date "k1" iso journal 50 60 venue no_journal refl tasks_filed
      named parties_apart

abbrev won : CommitmentRecord
won = new_commitment toy same_text date journal none

cancel_siblings_lem_example :
    let after = cancel_siblings toy same_text "t1" "b" won venue in
    ((key : String) (s : NegotiationTask)
      → lookup key venue.tasks ≡ some s
      → (IsRival toy same_text "t1" "b" won s
          → IsCanceled load_already_committed "b" s (lookup key after.tasks))
        × ((IsRival toy same_text "t1" "b" won s → ⊥) → lookup key after.tasks ≡ some s))
    × ((key : String) → lookup key venue.tasks ≡ none → lookup key after.tasks ≡ none)
    × All (λ s. IsRival toy same_text "t1" "b" won s → ⊥) (values after.tasks)
    × (cancel_siblings toy same_text "t1" "b" won after ≡ after)
cancel_siblings_lem_example = cancel_siblings_lem toy same_text "t1" "b" won venue tasks_filed

abbrev word : InsurerAttestation
word = record { insurer_id = "i"; kid = "kid"; as_of = 500; notice_days = 30; cancellation = none }

satisfies_renewal_iff_example :
    let w = renewal_window none 3000000000 4000000000 in
    ((satisfies_renewal word w 4000000000 ≡ true) ↔ (
      (4000000000 ≤ 500 + notice_of none * day_ms)
      × (4000000000 ≤ 500 + 30 * day_ms)
      × ((effective : ℕ) → word.cancellation ≡ some effective → 4000000000 ≤ effective)))
    × ((w.possible ≡ true) ↔ (
        (a : InsurerAttestation) × (a.cancellation ≡ none)
        × (a.notice_days ≡ notice_of none)
        × (a.as_of ≤ 3000000000)
        × (satisfies_renewal a w 4000000000 ≡ true)))
satisfies_renewal_iff_example = satisfies_renewal_iff none word 3000000000 4000000000

abbrev dearer : Offer
dearer = record { rate = 210000; pickup = window; delivery = window; payment_terms_days = 30 }

first_found : lookup "k" task.acceptances ≡ some their_acceptance
unfolding lookup
first_found = refl

other_hash : their_acceptance.terms_hash ≢ ""
unfolding terms_hash hash_object
other_hash = toy.sha256_some _

countered-stale_example :
    check_accept_terms toy same_text date "k1" iso standing
      (countered task "k" dearer 60)
      (other_party task "k")
      terms
      ""
      venue
    ≢ go terms
countered-stale_example =
    countered-stale toy same_text date "k1" iso standing task "k" dearer 60 their_acceptance terms
      terms "" venue parties_apart refl first_found other_hash

subject_named : subject_of (some "b") [] ≡ some "b"
unfolding subject_of
subject_named = refl

terminate-discloses_example :
    let after =
      terminate task mandate_rate_above_ceiling "venue.mandate" [] (some "b") failing venue in
    Gained (IsDiscreet "b") venue.outbox after.outbox
    × ((caller : String)
        → (caller ≡ "b") ⊎ (caller ≡ "k")
        → (t' : NegotiationTask) × (tasks_get caller "t1" after ≡ some t')
          × (t'.message ≡ some (refused mandate_rate_above_ceiling [])))
terminate-discloses_example =
    terminate-discloses task mandate_rate_above_ceiling "venue.mandate" [] (some "b") failing "b"
      venue subject_named refl
