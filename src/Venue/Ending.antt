-- ===== src/Venue/Ending.antt =====
-- How a negotiation ends without a commitment: `terminate`, `fail`, `cancelSiblings`, `expireStaleTasks` and
-- `enqueue` of src/venue/service.ts, and the lookup of an active commitment for a load. The evidence is what
-- the caller gives; the audit entry and the delivery of the outbox are left out, and of the identifier and
-- the attempts of a pending notice nothing here depends.
pub mod Sweep
pub mod Expired
pub mod Redacted
pub mod Siblings
use agentic_freight_venue.Common.{
  ℕ, ◌+◌, ◌-◌, Bool, true, false, not, ◌&&◌, ◌||◌, Option, none, some, List, [], ◌∷◌, ◌++◌, String,
  string_eq, ◌==◌, if◌then◌else◌, Keyed, lookup, insert, values, find, ltb, leb,
}
use agentic_freight_venue.Protocol.Reasons.{
  ReasonCode, negotiation_walkaway, negotiation_timeout, load_already_committed,
}
use agentic_freight_venue.Protocol.Canonical.{Json, string, number, Primitives}
use agentic_freight_venue.Protocol.Terms.{load_fingerprint}
use agentic_freight_venue.Venue.Task.{
  TaskState, is_terminal, NegotiationStatus, TaskOutcome, NegotiationTask, RegisteredAgent, Notice,
  refused, PendingNotice,
}
use agentic_freight_venue.Venue.State.{CommitmentStatus, active, CommitmentRecord, Venue}
use agentic_freight_venue.Venue.Outcome.{guarantee_would_have_paid}
use agentic_freight_venue.Venue.Redaction.{redact_for_counterparty}

pub data Disposition : Type 0 where
  failing canceling : Disposition

abbrev pub is_walkaway : ReasonCode → Bool
is_walkaway negotiation_walkaway = true
is_walkaway _ = false

-- The default of `fail`.
abbrev pub disposition_of : ReasonCode → Disposition
disposition_of code = if is_walkaway code then canceling else failing

abbrev pub ended_status : ReasonCode → Disposition → NegotiationStatus
ended_status code canceling =
    if is_walkaway code then NegotiationStatus.rejected else NegotiationStatus.canceled
ended_status code failing =
    if is_walkaway code then NegotiationStatus.rejected else NegotiationStatus.failed

abbrev pub ended_state : Disposition → TaskState
ended_state canceling = TaskState.canceled
ended_state failing = TaskState.failed

-- `typeof evidence[key] === "string"`
abbrev text_under : String → Keyed Json → Option String
text_under key evidence = elim (lookup key evidence) [ some (string s) ↦ some s | _ ↦ none ]

abbrev or_next : Option String → Option String → Option String
or_next none next = next
or_next (some s) next = some s

-- Whom a refusal is about: the caller's word, else what the evidence names.
unfoldable pub subject_of : Option String → Keyed Json → Option String
subject_of subject evidence = or_next subject (
    or_next (text_under "agentId" evidence)
      (or_next (text_under "acceptedBy" evidence) (text_under "by" evidence)))

-- `!subjectId || id === subjectId`
abbrev pub sees_all : Option String → String → Bool
sees_all none id = true
sees_all (some subject) id = subject == "" || id == subject

abbrev pub refusal_for : ReasonCode → Keyed Json → Option String → String → Notice
refusal_for code evidence subject id =
    refused code
      (if sees_all subject id then evidence else redact_for_counterparty evidence subject)

unfoldable pub enqueue : String → Notice → List PendingNotice → List PendingNotice
enqueue id notice outbox = outbox ++ (record { to_agent_id = id; notice = notice } ∷ [])

-- `if (this.state.agents.has(id)) this.enqueue(id, …)`
abbrev pub enqueue_known :
    Keyed RegisteredAgent → String → Notice → List PendingNotice → List PendingNotice
enqueue_known agents id notice outbox = elim (lookup id agents) [
  | none ↦ outbox
  | some _ ↦ enqueue id notice outbox
]

unfoldable pub ended :
    ReasonCode → String → Keyed Json → Disposition → NegotiationTask → NegotiationTask
ended code refused_by evidence disposition t = record t {
  status = ended_status code disposition;
  state = ended_state disposition;
  message = some (refused code evidence);
  outcome = some (record {
    reason_code = code;
    refused_by = refused_by;
    evidence = evidence;
    guarantee_would_have_paid = guarantee_would_have_paid code;
  });
}

unfoldable pub terminate :
    NegotiationTask → ReasonCode → String → Keyed Json → Option String → Disposition → Venue → Venue
unfolding ended subject_of
terminate t code refused_by evidence subject disposition v =
    let about = subject_of subject evidence in
    record v {
      tasks = insert t.id (ended code refused_by evidence disposition t) v.tasks;
      outbox =
          enqueue_known v.agents t.carrier_agent_id
            (refusal_for code evidence about t.carrier_agent_id)
            (enqueue_known v.agents t.broker_agent_id
              (refusal_for code evidence about t.broker_agent_id) v.outbox);
    }

unfoldable pub fail :
    NegotiationTask → ReasonCode → String → Keyed Json → Option String → Venue → Venue
fail t code refused_by evidence subject v =
    terminate t code refused_by evidence subject (disposition_of code) v

-- `tasks/get`: a negotiation as either of its parties may fetch it.
unfoldable pub tasks_get : String → String → Venue → Option NegotiationTask
tasks_get caller id v = elim (lookup id v.tasks) [
  | none ↦ none
  | some t ↦
      if not (caller == t.broker_agent_id) && not (caller == t.carrier_agent_id)
      then none
      else some t
]

-- Whether a party has kept the venue waiting for the time allowed.
abbrev pub is_stale : ℕ → ℕ → NegotiationTask → Bool
is_stale timeout now t = not (is_terminal t.state) && leb (t.awaiting_since + timeout) now

abbrev pub timeout_evidence : ℕ → ℕ → NegotiationTask → Keyed Json
timeout_evidence timeout now t =
    ("agentId", string t.awaiting)
    ∷ ("awaiting", string t.awaiting)
    ∷ ("waitedMs", number (now - t.awaiting_since))
    ∷ ("replyTimeoutMs", number timeout)
    ∷ ("round", number t.round)
    ∷ []

abbrev pub expired : ℕ → ℕ → NegotiationTask → Venue → Venue
expired timeout now t v =
    terminate t negotiation_timeout "venue.protocol" (timeout_evidence timeout now t)
      (some t.awaiting) canceling v

-- `expireStaleTasks`: the loop over the tasks.
unfoldable pub expire_each : ℕ → ℕ → List NegotiationTask → Venue → Venue
expire_each timeout now [] v = v
expire_each timeout now (t ∷ ts) v =
    expire_each timeout now ts (if is_stale timeout now t then expired timeout now t v else v)

unfoldable pub expire_stale_tasks : ℕ → ℕ → Venue → Venue
expire_stale_tasks timeout now v = expire_each timeout now (values v.tasks) v

abbrev pub is_active : CommitmentStatus → Bool
is_active active = true
is_active _ = false

abbrev pub same_load : String → String → String → CommitmentRecord → Bool
same_load broker load_ref fingerprint c =
    is_active c.status
    && c.broker_agent_id == broker
    && (c.load_ref == load_ref || c.load_fingerprint == fingerprint)

unfoldable pub active_commitment_for_load :
    String → String → String → Keyed CommitmentRecord → Option CommitmentRecord
active_commitment_for_load broker load_ref fingerprint commitments =
    find (same_load broker load_ref fingerprint) (values commitments)

module _ (x : Primitives) (normalized : String → String) where
  -- An open negotiation of the same broker for the load of a commitment that another one won.
  abbrev pub is_sibling : String → String → CommitmentRecord → NegotiationTask → Bool
  is_sibling winner broker c s =
      not (s.id == winner)
      && s.broker_agent_id == broker
      && not (is_terminal s.state)
      && (s.load_ref == c.load_ref || load_fingerprint x normalized s.load == c.load_fingerprint)

  abbrev sibling_evidence : CommitmentRecord → NegotiationTask → Keyed Json
  sibling_evidence c s =
      ("agentId", string s.broker_agent_id)
      ∷ ("winningCommitmentId", string c.commitment_id)
      ∷ ("canceledTaskId", string s.id)
      ∷ ("canceledCounterparty", string s.carrier_agent_id)
      ∷ ("round", number s.round)
      ∷ []

  abbrev pub overtaken : CommitmentRecord → NegotiationTask → Venue → Venue
  overtaken c s v =
      terminate s load_already_committed "venue.commitment" (sibling_evidence c s)
        (some s.broker_agent_id) canceling v

  unfoldable pub cancel_each :
      String → String → CommitmentRecord → List NegotiationTask → Venue → Venue
  cancel_each winner broker c [] v = v
  cancel_each winner broker c (s ∷ ss) v =
      cancel_each winner broker c ss (if is_sibling winner broker c s then overtaken c s v else v)

  unfoldable pub cancel_siblings : String → String → CommitmentRecord → Venue → Venue
  cancel_siblings winner broker c v = cancel_each winner broker c (values v.tasks) v
