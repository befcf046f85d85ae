-- ===== src/Venue/Ending/Expired.antt =====
-- What the reply timeout does: `expireStaleTasks` of src/venue/service.ts.
use mathlib.Core.Option
use agentic_freight_venue.Common.{
  ℕ, ◌+◌, ◌≤◌, ◌↔◌, ◌≡◌, refl, sym, ap, subst, ◌∙◌, none, some, arith, string_eq, Option, Bool,
  true, false, List, [], ◌∷◌, String, if◌then◌else◌, lookup, insert, values, All,
}
use agentic_freight_venue.Protocol.Reasons.{ReasonCode, negotiation_timeout}
use agentic_freight_venue.Protocol.Canonical.{string}
use agentic_freight_venue.Venue.Task.{
  TaskState, submitted, working, input_required, auth_required, is_terminal, NegotiationStatus,
  TaskOutcome, NegotiationTask, refused,
}
use agentic_freight_venue.Venue.State.{Venue}
use agentic_freight_venue.Venue.Ending.{
  canceling, ended, terminate, is_stale, timeout_evidence, expired, expire_each, expire_stale_tasks,
}
use agentic_freight_venue.Venue.Ending.Sweep.{
  AreFiled, sweep, changed, mapped, sweep-mapped, lookup-mapped, mapped-AreFiled, mapped-settled,
  changed-at, unchanged-at, refuted, All-map,
}

-- The tasks of a venue are filed under their identifiers.
abbrev pub TasksFiled : Venue → Type 0
TasksFiled v = AreFiled (λ (t : NegotiationTask). t.id) v.tasks

abbrev pub timed_out : ℕ → ℕ → NegotiationTask → NegotiationTask
timed_out timeout now t =
    ended negotiation_timeout "venue.protocol" (timeout_evidence timeout now t) canceling t

written_if :
    (b : Bool) (timeout now : ℕ) (t : NegotiationTask) (v : Venue)
    → (if b then expired timeout now t v else v).tasks
      ≡ (if b then insert t.id (timed_out timeout now t) v.tasks else v.tasks)
unfolding terminate
written_if true timeout now t v = refl
written_if false timeout now t v = refl

expire_each-tasks :
    (timeout now : ℕ) (ts : List NegotiationTask) (v : Venue)
    → (expire_each timeout now ts v).tasks
      ≡ sweep (λ t. t.id) (is_stale timeout now) (timed_out timeout now) ts v.tasks
unfolding expire_each
expire_each-tasks timeout now [] v = refl
expire_each-tasks timeout now (t ∷ ts) v =
    expire_each-tasks timeout now ts (if is_stale timeout now t then expired timeout now t v else v)
    ∙ ap (sweep (λ s. s.id) (is_stale timeout now) (timed_out timeout now) ts)
        (written_if (is_stale timeout now t) timeout now t v)

expired-mapped :
    (timeout now : ℕ) (v : Venue)
    → TasksFiled v
    → (expire_stale_tasks timeout now v).tasks
      ≡ mapped (is_stale timeout now) (timed_out timeout now) v.tasks
unfolding expire_stale_tasks
expired-mapped timeout now v filed =
    expire_each-tasks timeout now (values v.tasks) v
    ∙ sweep-mapped (λ t. t.id) (is_stale timeout now) (timed_out timeout now) v.tasks filed

-- A negotiation that has not ended, by the states of the protocol.
abbrev pub IsUnended : TaskState → Type 0
IsUnended submitted = Unit {0}
IsUnended working = Unit {0}
IsUnended input_required = Unit {0}
IsUnended auth_required = Unit {0}
IsUnended TaskState.completed = ⊥
IsUnended TaskState.rejected = ⊥
IsUnended TaskState.canceled = ⊥
IsUnended TaskState.failed = ⊥

pub IsUnended-iff : (s : TaskState) → (is_terminal s ≡ false) ↔ IsUnended s
IsUnended-iff submitted = ((λ h. tt), λ h. refl)
IsUnended-iff working = ((λ h. tt), λ h. refl)
IsUnended-iff input_required = ((λ h. tt), λ h. refl)
IsUnended-iff auth_required = ((λ h. tt), λ h. refl)
IsUnended-iff TaskState.completed = ((λ h. cc), λ h. absurd h)
IsUnended-iff TaskState.rejected = ((λ h. cc), λ h. absurd h)
IsUnended-iff TaskState.canceled = ((λ h. cc), λ h. absurd h)
IsUnended-iff TaskState.failed = ((λ h. cc), λ h. absurd h)

-- The awaited party of an unended negotiation has been silent for the time allowed.
abbrev pub IsOverdue : ℕ → ℕ → NegotiationTask → Type 0
IsOverdue timeout now t = IsUnended t.state × (t.awaiting_since + timeout ≤ now)

pub stale_iff :
    (timeout now : ℕ) (t : NegotiationTask)
    → (is_stale timeout now t ≡ true) ↔ IsOverdue timeout now t
stale_iff timeout now t =
    let u = IsUnended-iff t.state in
    (
      λ h. (u.0 (ground arith), ground arith),
      λ (unended, late). (let live = u.1 unended in ground arith),
    )

-- What a negotiation that was canceled for a reason is afterwards: all but the end of it is as it was.
abbrev pub IsCanceled : ReasonCode → String → NegotiationTask → Option NegotiationTask → Type 0
IsCanceled code about t found =
    (o : TaskOutcome) × (o.reason_code ≡ code)
    × (lookup "agentId" o.evidence ≡ some (string about))
    × (found
        ≡ some (record t {
          status = NegotiationStatus.canceled;
          state = TaskState.canceled;
          message = some (refused code o.evidence);
          outcome = some o;
        }))

timed_out-IsCanceled :
    (timeout now : ℕ) (t : NegotiationTask)
    → IsCanceled negotiation_timeout t.awaiting t (some (timed_out timeout now t))
unfolding ended lookup
timed_out-IsCanceled timeout now t = (_, refl, refl, refl)

-- The reply timeout, over tasks filed under their identifiers, cancels exactly the negotiations that have not
-- ended and whose awaited party has been silent for the time allowed: each is on file as it was but for its
-- end, which has the timeout as its reason and names that party. Every other negotiation stays as it was, no
-- task is added, none that is left is overdue, and the tasks are still filed under their identifiers.
pub expire_stale_tasks_lem :
    (timeout now : ℕ) (v : Venue)
    → TasksFiled v
    → let after = expire_stale_tasks timeout now v in
      ((key : String) (t : NegotiationTask)
        → lookup key v.tasks ≡ some t
        → (IsOverdue timeout now t
            → IsCanceled negotiation_timeout t.awaiting t (lookup key after.tasks))
          × ((IsOverdue timeout now t → ⊥) → lookup key after.tasks ≡ some t))
      × ((key : String) → lookup key v.tasks ≡ none → lookup key after.tasks ≡ none)
      × All (λ t. IsOverdue timeout now t → ⊥) (values after.tasks)
      × TasksFiled after
expire_stale_tasks_lem timeout now v filed =
    let is = is_stale timeout now in
    let out = timed_out timeout now in
    let at : (key : String)
        → lookup key (expire_stale_tasks timeout now v).tasks
          ≡ Option.map (changed is out) (lookup key v.tasks) =
      rw (expired-mapped timeout now v filed)
        (λ key. lookup-mapped (λ t. t.id) is out key v.tasks) in
    (
      λ key t found. (
        λ overdue.
            subst (IsCanceled negotiation_timeout t.awaiting t)
              (sym (
                at key
                ∙ changed-at is out key v.tasks t found ((stale_iff timeout now t).1 overdue)))
              (timed_out-IsCanceled timeout now t),
        λ not_overdue.
            at key
            ∙ unchanged-at is out key v.tasks t found
                (refuted (is t) (λ h. not_overdue ((stale_iff timeout now t).0 h))),
      ),
      λ key absent. at key ∙ rw absent refl,
      All-map (λ t. is t ≡ false) (λ t. IsOverdue timeout now t → ⊥)
          (λ t fresh overdue. let h = (stale_iff timeout now t).1 overdue in cc) _
          (unfold ended in
            rw (expired-mapped timeout now v filed)
              (mapped-settled (λ t. t.id) is out (λ t. refl) v.tasks)),
      unfold ended in
          rw (expired-mapped timeout now v filed)
            (mapped-AreFiled (λ t. t.id) is out (λ t. refl) v.tasks filed),
    )
