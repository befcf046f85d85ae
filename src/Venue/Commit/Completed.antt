-- ===== src/Venue/Commit/Completed.antt =====
-- What an applied commit leaves of its negotiation.
use agentic_freight_venue.Common.{
  ℕ, ◌≡◌, refl, sym, ap, subst, ◌∙◌, false, some, String, lookup, insert, lookup-insert_self,
}
use agentic_freight_venue.Protocol.Canonical.{Primitives}
use agentic_freight_venue.Venue.Task.{NegotiationTask, CommitJournal}
use agentic_freight_venue.Venue.State.{CommitmentRecord, Venue}
use agentic_freight_venue.Venue.Ending.{ended, is_sibling, cancel_siblings}
use agentic_freight_venue.Venue.Ending.Expired.{TasksFiled}
use agentic_freight_venue.Venue.Ending.Sweep.{filed-id, mapped-AreFiled}
use agentic_freight_venue.Venue.Ending.Siblings.{beaten, canceled-mapped}
use agentic_freight_venue.Venue.Commit.{
  is_committed, completed, task_completed, books_kept, journal_deleted, apply_commit,
}
use agentic_freight_venue.Venue.Commit.Settled.{task_completed-retasked, completed-filed}
use agentic_freight_venue.Venue.Commit.Again.{winner_kept, siblings_at, kept-on_record}

completed_at :
    (j : CommitJournal) (v : Venue) (t : NegotiationTask)
    → lookup j.task_id v.tasks ≡ some t
    → t.id ≡ j.task_id
    → is_committed t.status ≡ false
    → lookup j.task_id (task_completed j v).tasks ≡ some (completed j t)
unfolding task_completed
completed_at j v t found named open_still =
    rw (found, task_completed, open_still)
      (subst (λ k. lookup k (insert t.id (completed j t) v.tasks) ≡ some (completed j t)) named
        (lookup-insert_self t.id (completed j t) v.tasks))

module _ (x : Primitives) (normalized : String → String) (date : String → ℕ)
    (j : CommitJournal) where
  canceled-filed :
      (v : Venue) (winner broker : String) (c : CommitmentRecord)
      → TasksFiled v
      → TasksFiled (cancel_siblings x normalized winner broker c v)
  unfolding ended
  canceled-filed v winner broker c filed =
      rw (canceled-mapped x normalized winner broker c v filed) (
        mapped-AreFiled (λ t. t.id) (is_sibling x normalized winner broker c)
          (beaten x normalized winner broker c) (λ t. refl) v.tasks filed)

  -- The negotiation of an applied commit that was not committed before is completed, and the tasks stay
  -- filed under their identifiers.
  pub apply_commit-completed :
      (now : ℕ) (v : Venue) (t : NegotiationTask)
      → TasksFiled v
      → lookup j.task_id v.tasks ≡ some t
      → is_committed t.status ≡ false
      → (lookup j.task_id (apply_commit x normalized date j now v).tasks ≡ some (completed j t))
        × TasksFiled (apply_commit x normalized date j now v)
  unfolding apply_commit journal_deleted
  apply_commit-completed now v t filed found open_still =
      let kept = books_kept x normalized date j now v in
      let named = filed-id (λ s. s.id) j.task_id t v.tasks filed found in
      let filed_kept : TasksFiled kept = unfold books_kept in filed in
      let w = task_completed j kept in
      let filed_w = completed-filed j kept filed_kept in
      let here : lookup j.task_id w.tasks ≡ some (completed j t) =
        completed_at j kept t (unfold books_kept in found) named open_still in
      let known = kept-on_record x normalized date j now v in
      let on_file =
        ap (λ u. lookup j.commitment_id u.commitments) (task_completed-retasked j kept) ∙ known.1 in
      let same = siblings_at x normalized date j w (completed j t) known.0 here on_file in
      (
        ap (λ u. lookup j.task_id u.tasks) same
            ∙ winner_kept x normalized date j w (completed j t) known.0 filed_w here named,
        subst TasksFiled (sym same) (canceled-filed w t.id t.broker_agent_id known.0 filed_w),
      )
