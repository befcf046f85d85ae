-- ===== src/Venue/Commit/Recovery.antt =====
-- What a restart makes of a commit that a crash interrupted.
use agentic_freight_venue.Common.{
  ℕ, ◌≡◌, refl, sym, ap, ◌∙◌, Option, ◌≢◌, Bool, true, none, some, List, [], ◌∷◌, ◌++◌, String,
  string_eq, ==_refl, lookup, find, inl, inr, Bool-cases,
}
use agentic_freight_venue.Protocol.Canonical.{Primitives}
use agentic_freight_venue.Ledger.Chain.{LedgerEntry, append, new_entry}
use agentic_freight_venue.Venue.Task.{CommitJournal}
use agentic_freight_venue.Venue.State.{Venue}
use agentic_freight_venue.Venue.Voiding.{without}
use agentic_freight_venue.Venue.Voiding.Steps.{without_twice}
use agentic_freight_venue.Underwriting.Claims.{GuaranteeRecord}
use agentic_freight_venue.Underwriting.Engine.{
  Underwriting, QuotedGuarantee, guarantee_for_commitment,
}
use agentic_freight_venue.Venue.Voiding.Recovery.{without-insert}
use agentic_freight_venue.Venue.Ending.Expired.{TasksFiled}
use agentic_freight_venue.Venue.Commit.{
  journal_deleted, pickup_day, attached_for, task_completed, books_kept, siblings_canceled,
  apply_commit, commit_entry, ledger_payload_for, commit_journaled, commit_entered, commit_finished,
  recover_commit,
}
use agentic_freight_venue.Venue.Commit.Again.{
  apply_commit-left, applied-retasked, apply_commit-underwriting,
}
use agentic_freight_venue.Venue.Commit.Steps.{
  attach_known, attached_same, both_added, books_again, broker_added, broker_again,
}

find-last :
    (p : LedgerEntry → Bool) (es : List LedgerEntry) (e : LedgerEntry)
    → p e ≡ true
    → (d : LedgerEntry) × (find p (es ++ (e ∷ [])) ≡ some d)
find-last p [] e h = (e, rw h refl)
find-last p (f ∷ es) e h =
    let rest = find-last p es e h in
    elim (Bool-cases (p f)) [ inl here ↦ (f, rw here refl) | inr past ↦ (rest.0, rw past rest.1) ]

module _ (x : Primitives) (normalized : String → String) (date : String → ℕ) (signer : String)
    (iso : ℕ → String) (j : CommitJournal) where
  entry_found :
      (now : ℕ) (v : Venue)
      → (d : LedgerEntry) × (commit_entry j.commitment_id
            (commit_entered x normalized date signer iso j now v).ledger
          ≡ some d)
  unfolding commit_entered append new_entry ledger_payload_for
  entry_found now v = find-last _ v.ledger _ (==_refl j.commitment_id)

  past_entry :
      (now later : ℕ) (v : Venue)
      → recover_commit x normalized date j later
          (commit_entered x normalized date signer iso j now v)
        ≡ apply_commit x normalized date j later
            (commit_entered x normalized date signer iso j now v)
  unfolding recover_commit
  past_entry now later v = rw ((entry_found now v).1, recover_commit) refl

  before_entry :
      (later : ℕ) (v : Venue)
      → lookup j.commitment_id v.commit_journals ≡ none
      → commit_entry j.commitment_id v.ledger ≡ none
      → recover_commit x normalized date j later (commit_journaled x normalized date j v) ≡ v
  unfolding recover_commit commit_journaled journal_deleted
  before_entry later v clean absent =
      rw (absent, recover_commit, without-insert j.commitment_id j v.commit_journals clean) refl

  -- The venue as it was written when a crash cuts the application short, from the venue with the journal and
  -- the entry on: after the engine's files, the broker's exposure book, the carrier's, the snapshot of the
  -- commitments, the negotiations and the notices, or the end.
  pub data Cut (now : ℕ) (e : Venue) : Venue → Type 0 where
    engine_written : Cut now e (record e {
      underwriting = (attached_for j.guarantee j.commitment_id now e.underwriting).1;
    })
    broker_written : Cut now e (record e {
      underwriting = (attached_for j.guarantee j.commitment_id now e.underwriting).1;
      exposures = broker_added j e.exposures;
    })
    carrier_written : Cut now e (record e {
      underwriting = (attached_for j.guarantee j.commitment_id now e.underwriting).1;
      exposures = both_added j (pickup_day j.terms) e.exposures;
    })
    snapshot_written : Cut now e (
        siblings_canceled x normalized date j
          (task_completed j (books_kept x normalized date j now e)))
    finished : Cut now e (apply_commit x normalized date j now e)

  applied-later :
      (now later : ℕ) (e u : Venue)
      → books_kept x normalized date j later u ≡ books_kept x normalized date j now e
      → apply_commit x normalized date j later u ≡ apply_commit x normalized date j now e
  unfolding apply_commit
  applied-later now later e u same =
      ap
        (λ b.
          journal_deleted x normalized date j
            (siblings_canceled x normalized date j (task_completed j b)))
        same

  Cut-applied :
      (now later : ℕ) (e u : Venue)
      → TasksFiled e
      → j.commitment_id ≢ ""
      → j.terms.broker_agent_id ≢ j.terms.carrier_agent_id
      → Cut now e u
      → apply_commit x normalized date j later u ≡ apply_commit x normalized date j now e
  Cut-applied now later e u filed named apart engine_written = applied-later now later e u (
      unfold books_kept in
      rw (attached_same j.guarantee j.commitment_id now later e.underwriting) refl)
  Cut-applied now later e u filed named apart broker_written = applied-later now later e u (
      unfold books_kept in
      rw
        (
          attached_same j.guarantee j.commitment_id now later e.underwriting,
          broker_again j e.exposures named,
        )
        refl)
  Cut-applied now later e u filed named apart carrier_written = applied-later now later e u (
      unfold books_kept in
      rw
        (
          attached_same j.guarantee j.commitment_id now later e.underwriting,
          books_again j (pickup_day j.terms) e.exposures named apart,
        )
        refl)
  Cut-applied now later e u filed named apart snapshot_written =
      apply_commit-left x normalized date j now later e u.commit_journals filed named apart
      ∙ unfold apply_commit journal_deleted in refl
  Cut-applied now later e u filed named apart finished =
      let out =
        siblings_canceled x normalized date j
          (task_completed j (books_kept x normalized date j now e)) in
      let rows = without j.commitment_id out.commit_journals in
      let ended : apply_commit x normalized date j now e ≡ record out { commit_journals = rows } =
        unfold apply_commit journal_deleted in refl in
      ap (apply_commit x normalized date j later) ended
      ∙ apply_commit-left x normalized date j now later e rows filed named apart
      ∙ ap (λ r. record out { commit_journals = r })
          (without_twice j.commitment_id out.commit_journals)
      ∙ sym ended

  recover-applies :
      (later : ℕ) (u : Venue) (d : LedgerEntry)
      → commit_entry j.commitment_id u.ledger ≡ some d
      → recover_commit x normalized date j later u ≡ apply_commit x normalized date j later u
  unfolding recover_commit
  recover-applies later u d found = rw (found, recover_commit) refl

  -- The ledger is past the entry wherever the application is cut.
  Cut-ledger : (now : ℕ) (e u : Venue) → TasksFiled e → Cut now e u → u.ledger ≡ e.ledger
  Cut-ledger now e u filed engine_written = refl
  Cut-ledger now e u filed broker_written = refl
  Cut-ledger now e u filed carrier_written = refl
  Cut-ledger now e u filed snapshot_written =
      ap (λ w. w.ledger) (applied-retasked x normalized date j now e filed)
      ∙ unfold books_kept in refl
  Cut-ledger now e u filed finished =
      unfold apply_commit journal_deleted in
      ap (λ w. w.ledger) (applied-retasked x normalized date j now e filed)
      ∙ unfold books_kept in refl

  attached_known :
      (q : Option QuotedGuarantee) (later : ℕ) (p : Underwriting) (g : GuaranteeRecord)
      → guarantee_for_commitment j.commitment_id p ≡ some g
      → (attached_for q j.commitment_id later p).1 ≡ p
  attached_known none later p g found = refl
  attached_known (some q) later p g found = attach_known q j.commitment_id later p g found

  -- What the recovery makes of a commit by its journal, on a venue that had neither a journal nor an entry of
  -- this commitment, whose tasks are filed under their identifiers, for a commitment with a name and two
  -- parties that differ. With the journal written and no entry on the ledger, the venue is as it was before.
  -- With the entry on the ledger and nothing applied, it is as the commit would have left it at the time of
  -- the restart. Cut short after the engine's files, after either exposure book, after the snapshot or after
  -- the end, it is as the commit would have left it, at whatever later time the restart is. Within the
  -- engine's files this fails: once the guarantee is on file the engine is left as it is read back, so a
  -- premium or a history that was not yet written is lost.
  pub recover-commit_lem :
      (now later : ℕ) (v : Venue)
      → lookup j.commitment_id v.commit_journals ≡ none
      → commit_entry j.commitment_id v.ledger ≡ none
      → TasksFiled v
      → j.commitment_id ≢ ""
      → j.terms.broker_agent_id ≢ j.terms.carrier_agent_id
      → let begun = commit_journaled x normalized date j v in
        let e = commit_entered x normalized date signer iso j now begun in
        (recover_commit x normalized date j later begun ≡ v)
        × (recover_commit x normalized date j later e ≡ apply_commit x normalized date j later e)
        × ((u : Venue)
            → Cut now e u
            → recover_commit x normalized date j later u
              ≡ commit_finished x normalized date signer iso j now v)
        × ((p : Underwriting) (g : GuaranteeRecord)
            → guarantee_for_commitment j.commitment_id p ≡ some g
            → (recover_commit x normalized date j later
                (record e { underwriting = p })).underwriting
              ≡ p)
  unfolding commit_finished
  recover-commit_lem now later v clean absent filed named apart =
      let begun = commit_journaled x normalized date j v in
      let e = commit_entered x normalized date signer iso j now begun in
      let found = entry_found now begun in
      let filed_e : TasksFiled e = unfold commit_entered commit_journaled in filed in
      (
        before_entry later v clean absent,
        past_entry now later begun,
        λ u cut.
            recover-applies later u found.0
              (ap (commit_entry j.commitment_id) (Cut-ledger now e u filed_e cut) ∙ found.1)
            ∙ Cut-applied now later e u filed_e named apart cut,
        λ p g known.
            let u = record e { underwriting = p } in
            ap (λ w. w.underwriting) (recover-applies later u found.0 found.1)
            ∙ apply_commit-underwriting x normalized date j later u filed_e
            ∙ attached_known j.guarantee later p g known,
      )
