-- ===== src/Venue/Commit/Settled.antt =====
-- The negotiation of a commit, once `applyCommit` of src/venue/service.ts has completed it.
use agentic_freight_venue.Common.{
  ◌≡◌, refl, subst, true, none, some, string_eq, lookup, insert, lookup-insert_self, inl, inr, ◌⊎◌,
  Bool-cases, Option-cases,
}
use agentic_freight_venue.Venue.Task.{NegotiationTask, CommitJournal}
use agentic_freight_venue.Venue.State.{Venue}
use agentic_freight_venue.Venue.Ending.Expired.{TasksFiled}
use agentic_freight_venue.Venue.Ending.Sweep.{filed-id, insert-AreFiled}
use agentic_freight_venue.Venue.Ending.Siblings.{retasked}
use agentic_freight_venue.Venue.Commit.{is_committed, completed, task_completed}

-- What the negotiation of a commit looks like once it is completed: there is none, or it is committed.
abbrev pub IsSettled : CommitJournal → Venue → Type 0
IsSettled j v =
    (lookup j.task_id v.tasks ≡ none)
    ⊎ ((t : NegotiationTask) × (lookup j.task_id v.tasks ≡ some t)
        × (is_committed t.status ≡ true)
        × (t.id ≡ j.task_id))

pub completed-IsSettled :
    (j : CommitJournal) (v : Venue) → TasksFiled v → IsSettled j (task_completed j v)
completed-IsSettled j v filed = elim (Option-cases (lookup j.task_id v.tasks)) [
  | inl absent ↦ unfold task_completed in rw (absent, task_completed) (inl absent)
  | inr (t, found) ↦
      let named = filed-id (λ s. s.id) j.task_id t v.tasks filed found in
      elim (Bool-cases (is_committed t.status)) [
        | inl done ↦
            unfold task_completed in rw (found, task_completed, done) (inr (t, found, done, named))
        | inr open_still ↦
            unfold task_completed in
            rw (found, task_completed, open_still)
              (inr (
                completed j t,
                subst (λ k. lookup k (insert t.id (completed j t) v.tasks) ≡ some (completed j t))
                    named (lookup-insert_self t.id (completed j t) v.tasks),
                refl,
                named,
              ))
      ]
]

pub completed-filed :
    (j : CommitJournal) (v : Venue) → TasksFiled v → TasksFiled (task_completed j v)
completed-filed j v filed = elim (Option-cases (lookup j.task_id v.tasks)) [
  | inl absent ↦ unfold task_completed in rw (absent, task_completed) filed
  | inr (t, found) ↦ elim (Bool-cases (is_committed t.status)) [
    | inl done ↦ unfold task_completed in rw (found, task_completed, done) filed
    | inr open_still ↦
        unfold task_completed in
        rw (found, task_completed, open_still)
          (insert-AreFiled (λ s. s.id) t.id (completed j t) v.tasks refl filed)
  ]
]

pub task_completed-retasked :
    (j : CommitJournal) (v : Venue) → task_completed j v ≡ retasked v (task_completed j v)
unfolding task_completed
task_completed-retasked j v = elim (Option-cases (lookup j.task_id v.tasks)) [
  | inl absent ↦ rw (absent, task_completed) refl
  | inr (t, found) ↦ elim (Bool-cases (is_committed t.status)) [
    | inl done ↦ rw (found, task_completed, done) refl
    | inr open_still ↦ rw (found, task_completed, open_still) refl
  ]
]

pub settled_again : (j : CommitJournal) (v : Venue) → IsSettled j v → task_completed j v ≡ v
unfolding task_completed
settled_again j v (inl absent) = rw (absent, task_completed) refl
settled_again j v (inr (t, found, done, _)) = rw (found, task_completed, done) refl
