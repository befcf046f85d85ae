-- ===== src/Venue/Commit/Again.antt =====
-- A commit that is applied again: `applyCommit` of src/venue/service.ts.
use mathlib.Core.Option
use agentic_freight_venue.Common.{
  ℕ, ◌≡◌, refl, sym, ap, ◌∙◌, ◌≢◌, some, String, string_eq, ==_refl, Keyed, lookup,
  lookup-insert_self, values, inl, inr, Option-cases,
}
use agentic_freight_venue.Protocol.Canonical.{Primitives}
use agentic_freight_venue.Venue.Task.{NegotiationTask, CommitJournal}
use agentic_freight_venue.Venue.State.{CommitmentRecord, Venue}
use agentic_freight_venue.Venue.Voiding.{without}
use agentic_freight_venue.Venue.Ending.{is_sibling, cancel_siblings}
use agentic_freight_venue.Venue.Ending.Expired.{TasksFiled}
use agentic_freight_venue.Venue.Ending.Sweep.{lookup-mapped}
use agentic_freight_venue.Venue.Ending.Siblings.{
  beaten, retasked, cancel_each_none, none_left, canceled-mapped, cancel_siblings-retasked,
}
use agentic_freight_venue.Venue.Commit.{
  pickup_day, attached_for, task_completed, new_commitment, recorded_once, books_kept,
  siblings_canceled, journal_deleted, apply_commit,
}
use agentic_freight_venue.Venue.Commit.Steps.{attached_again, both_added, books_again}
use agentic_freight_venue.Venue.Commit.Settled.{
  IsSettled, completed-IsSettled, completed-filed, task_completed-retasked, settled_again,
}

module _ (x : Primitives) (normalized : String → String) (date : String → ℕ)
    (j : CommitJournal) where
  -- The winner is not among the negotiations that its commitment cancels.
  pub winner_kept :
      (v : Venue) (t : NegotiationTask) (c : CommitmentRecord)
      → TasksFiled v
      → lookup j.task_id v.tasks ≡ some t
      → t.id ≡ j.task_id
      → lookup j.task_id (cancel_siblings x normalized t.id t.broker_agent_id c v).tasks ≡ some t
  winner_kept v t c filed found named =
      let is = is_sibling x normalized t.id t.broker_agent_id c in
      rw (canceled-mapped x normalized t.id t.broker_agent_id c v filed) (
        lookup-mapped (λ s. s.id) is (beaten x normalized t.id t.broker_agent_id c) j.task_id
          v.tasks
        ∙ rw (found, ==_refl t.id) refl)

  pub siblings_at :
      (v : Venue) (t : NegotiationTask) (c : CommitmentRecord)
      → lookup j.task_id v.tasks ≡ some t
      → lookup j.commitment_id v.commitments ≡ some c
      → siblings_canceled x normalized date j v
        ≡ cancel_siblings x normalized t.id t.broker_agent_id c v
  unfolding siblings_canceled
  siblings_at v t c found here = rw (found, siblings_canceled, here) refl

  -- After the siblings are canceled, neither completing the negotiation nor canceling them again does
  -- anything more, whatever the journals are.
  record NothingLeft (v w : Venue) : Type 0 where
    retask : w ≡ retasked v w
    settled : IsSettled j w
    siblings :
        (rows : Keyed CommitJournal)
        → siblings_canceled x normalized date j (record w { commit_journals = rows })
          ≡ record w { commit_journals = rows }

  siblings_canceled-NothingLeft :
      (v : Venue) (c : CommitmentRecord)
      → TasksFiled v
      → IsSettled j v
      → lookup j.commitment_id v.commitments ≡ some c
      → NothingLeft v (siblings_canceled x normalized date j v)
  siblings_canceled-NothingLeft v c filed (inl absent) here =
      let same : siblings_canceled x normalized date j v ≡ v =
        unfold siblings_canceled in rw (absent, siblings_canceled) refl in
      rw same (record {
        retask = refl;
        settled = inl absent;
        siblings = λ rows. unfold siblings_canceled in rw (absent, siblings_canceled) refl;
      })
  siblings_canceled-NothingLeft v c filed (inr (t, found, done, named)) here =
      let w = cancel_siblings x normalized t.id t.broker_agent_id c v in
      let out = siblings_at v t c found here in
      let only = cancel_siblings-retasked x normalized t.id t.broker_agent_id c v in
      let kept = winner_kept v t c filed found named in
      rw out (record {
        retask = only;
        settled = inr (t, kept, done, named);
        siblings = λ rows.
            let w' = record w { commit_journals = rows } in
            siblings_at w' t c kept (ap (λ u. lookup j.commitment_id u.commitments) only ∙ here)
            ∙ unfold cancel_siblings in
              cancel_each_none x normalized t.id t.broker_agent_id c (values w.tasks) w'
                (none_left x normalized t.id t.broker_agent_id c v filed);
      })

  on_record :
      (guarantee_id : Option.Option String) (rows : Keyed CommitmentRecord)
      → (c : CommitmentRecord) × (lookup j.commitment_id
            (recorded_once x normalized date j guarantee_id rows)
          ≡ some c)
  on_record guarantee_id rows = elim (Option-cases (lookup j.commitment_id rows)) [
    | inl new ↦ (
      new_commitment x normalized date j guarantee_id,
      rw (new, recorded_once) (lookup-insert_self j.commitment_id _ rows),
    )
    | inr (c, found) ↦ (c, rw (found, recorded_once) found)
  ]

  pub kept-on_record :
      (now : ℕ) (v : Venue)
      → (c : CommitmentRecord) × (lookup j.commitment_id
            (books_kept x normalized date j now v).commitments
          ≡ some c)
  unfolding books_kept
  kept-on_record now v =
      on_record (attached_for j.guarantee j.commitment_id now v.underwriting).0 v.commitments

  recorded_again :
      (guarantee_id : Option.Option String) (rows : Keyed CommitmentRecord) (c : CommitmentRecord)
      → lookup j.commitment_id rows ≡ some c
      → recorded_once x normalized date j guarantee_id rows ≡ rows
  recorded_again guarantee_id rows c found = rw (found, recorded_once) refl

  kept_again :
      (now later : ℕ) (v w : Venue)
      → j.commitment_id ≢ ""
      → j.terms.broker_agent_id ≢ j.terms.carrier_agent_id
      → w.underwriting ≡ (books_kept x normalized date j now v).underwriting
      → w.exposures ≡ (books_kept x normalized date j now v).exposures
      → w.commitments ≡ (books_kept x normalized date j now v).commitments
      → books_kept x normalized date j later w ≡ w
  unfolding books_kept
  kept_again now later v w named apart u e c =
      let known = kept-on_record now v in
      let attach_same : (attached_for j.guarantee j.commitment_id later w.underwriting).1
          ≡ w.underwriting =
        ap (λ s. (attached_for j.guarantee j.commitment_id later s).1) u
        ∙ attached_again j.guarantee j.commitment_id now later v.underwriting
        ∙ sym u in
      let add_same : both_added j (pickup_day j.terms) w.exposures ≡ w.exposures =
        ap (both_added j (pickup_day j.terms)) e
        ∙ books_again j (pickup_day j.terms) v.exposures named apart
        ∙ sym e in
      let record_same =
        recorded_again (attached_for j.guarantee j.commitment_id later w.underwriting).0
          w.commitments known.0 (ap (lookup j.commitment_id) c ∙ known.1) in
      λ i. record w {
        underwriting = attach_same i;
        exposures = add_same i;
        commitments = record_same i;
      }

  -- Applying a commit again over what it has left, whatever the journals are by then, only deletes its journal:
  -- the guarantee is attached once, both parties' exposure books count the rate once, the commitment is
  -- recorded once, the negotiation is completed once, and no notice goes out twice. The conditions: tasks are
  -- filed under their identifiers, the commitment has a name, and its two parties differ.
  pub apply_commit-left :
      (now later : ℕ) (v : Venue) (rows : Keyed CommitJournal)
      → TasksFiled v
      → j.commitment_id ≢ ""
      → j.terms.broker_agent_id ≢ j.terms.carrier_agent_id
      → let out =
          siblings_canceled x normalized date j
            (task_completed j (books_kept x normalized date j now v)) in
        apply_commit x normalized date j later (record out { commit_journals = rows })
        ≡ record out { commit_journals = without j.commitment_id rows }
  unfolding apply_commit
  apply_commit-left now later v rows filed named apart =
      let kept = books_kept x normalized date j now v in
      let filed_kept : TasksFiled kept = unfold books_kept in filed in
      let w = task_completed j kept in
      let same = task_completed-retasked j kept in
      let known = kept-on_record now v in
      let left =
        siblings_canceled-NothingLeft w known.0 (completed-filed j kept filed_kept)
          (completed-IsSettled j kept filed_kept)
          (ap (λ u. lookup j.commitment_id u.commitments) same ∙ known.1) in
      let out = siblings_canceled x normalized date j w in
      let only : out ≡ retasked kept out = left.retask ∙ ap (λ u. retasked u out) same in
      let end = record out { commit_journals = rows } in
      let first : books_kept x normalized date j later end ≡ end =
        kept_again now later v end named apart (ap (λ u. u.underwriting) only)
          (ap (λ u. u.exposures) only) (ap (λ u. u.commitments) only) in
      let second : task_completed j end ≡ end = settled_again j end left.settled in
      let third : siblings_canceled x normalized date j end ≡ end = left.siblings rows in
      ap
        (λ u.
          journal_deleted x normalized date j
            (siblings_canceled x normalized date j (task_completed j u)))
        first
      ∙ ap (λ u. journal_deleted x normalized date j (siblings_canceled x normalized date j u))
          second
      ∙ ap (journal_deleted x normalized date j) third
      ∙ unfold journal_deleted in refl

  -- Beside the books and the commitments, applying a commit touches the tasks and the outbox only.
  pub applied-retasked :
      (now : ℕ) (v : Venue)
      → TasksFiled v
      → let kept = books_kept x normalized date j now v in
        let out = siblings_canceled x normalized date j (task_completed j kept) in
        out ≡ retasked kept out
  applied-retasked now v filed =
      let kept = books_kept x normalized date j now v in
      let filed_kept : TasksFiled kept = unfold books_kept in filed in
      let same = task_completed-retasked j kept in
      let known = kept-on_record now v in
      let left =
        siblings_canceled-NothingLeft (task_completed j kept) known.0
          (completed-filed j kept filed_kept) (completed-IsSettled j kept filed_kept)
          (ap (λ u. lookup j.commitment_id u.commitments) same ∙ known.1) in
      let out = siblings_canceled x normalized date j (task_completed j kept) in
      left.retask ∙ ap (λ u. retasked u out) same

  pub apply_commit-underwriting :
      (now : ℕ) (v : Venue)
      → TasksFiled v
      → (apply_commit x normalized date j now v).underwriting
        ≡ (attached_for j.guarantee j.commitment_id now v.underwriting).1
  unfolding apply_commit journal_deleted
  apply_commit-underwriting now v filed =
      ap (λ u. u.underwriting) (applied-retasked now v filed) ∙ unfold books_kept in refl
