-- ===== src/Venue/Ending/Redacted.antt =====
-- What the two parties are told of a refusal: the notices of `terminate` of src/venue/service.ts.
use agentic_freight_venue.Common.{
  ◌≡◌, refl, ap, sym, ◌∙◌, ◌≢◌, false, Option, some, List, [], ◌∷◌, ◌++◌, String, string_eq, ◌==◌,
  ==_iff, Keyed, lookup, includes, All, append-nil, append_assoc, inl, inr, ◌⊎◌, lookup-insert_self,
  arith, Bool-cases, Option-cases,
}
use agentic_freight_venue.Protocol.Reasons.{ReasonCode}
use agentic_freight_venue.Protocol.Canonical.{Json}
use agentic_freight_venue.Venue.Task.{
  NegotiationTask, RegisteredAgent, Notice, refused, committed, PendingNotice,
}
use agentic_freight_venue.Venue.State.{Venue}
use agentic_freight_venue.Venue.Redaction.{counterparty_safe_keys, redaction_of, redacted_lem}
use agentic_freight_venue.Venue.Ending.{
  Disposition, ended, tasks_get, subject_of, refusal_for, enqueue, enqueue_known, terminate,
}

-- A notice that shows a party other than the subject nothing under a key that is not known to be safe, beside
-- the marks of the redaction.
abbrev pub IsDiscreet : String → PendingNotice → Type 0
IsDiscreet subject n = elim n.notice [
  | refused code evidence ↦
      n.to_agent_id ≢ subject
      → (key : String) → includes counterparty_safe_keys key ≡ false
      → lookup key evidence ≡ lookup key (redaction_of subject)
  | committed _ _ ↦ Unit {0}
  | Notice.lifecycle _ ↦ Unit {0}
  | Notice.voided _ _ _ _ ↦ Unit {0}
]

refusal-IsDiscreet :
    (code : ReasonCode) (evidence : Keyed Json) (subject id : String)
    → (subject == "") ≡ false
    → IsDiscreet subject
        (record { to_agent_id = id; notice = refusal_for code evidence (some subject) id })
refusal-IsDiscreet code evidence subject id named apart key secret =
    elim (Bool-cases (id == subject)) [
      | inl same ↦ absurd (apart ((==_iff id subject).0 same))
      | inr other ↦ rw (named, other) (redacted_lem evidence subject key named secret)
    ]

-- The notices that a list has gained.
abbrev pub Gained : (PendingNotice → Type 0) → List PendingNotice → List PendingNotice → Type 0
Gained P old new = (more : List PendingNotice) × (new ≡ old ++ more) × All P more

one_notice :
    (P : PendingNotice → Type 0) (agents : Keyed RegisteredAgent) (id : String) (n : Notice)
    (outbox : List PendingNotice)
    → P (record { to_agent_id = id; notice = n })
    → Gained P outbox (enqueue_known agents id n outbox)
unfolding enqueue
one_notice P agents id n outbox h = elim (Option-cases (lookup id agents)) [
  | inl unknown ↦ ([], rw (unknown, enqueue_known) (sym (append-nil outbox)), tt)
  | inr (_, known) ↦
      (record { to_agent_id = id; notice = n } ∷ [], rw (known, enqueue_known) refl, (h, tt))
]

All-append {ℓ} :
    {A : Type ℓ} (P : A → Type 0) (xs ys : List A) → All P xs → All P ys → All P (xs ++ ys)
All-append P [] ys h k = k
All-append P (x ∷ xs) ys h k = (h.0, All-append P xs ys h.1 k)

Gained-trans :
    (P : PendingNotice → Type 0) (a b c : List PendingNotice)
    → Gained P a b
    → Gained P b c
    → Gained P a c
Gained-trans P a b c (xs, e, h) (ys, f, k) =
    (xs ++ ys, f ∙ ap (λ l. l ++ ys) e ∙ append_assoc a xs ys, All-append P xs ys h k)

fetched :
    (caller id : String) (t : NegotiationTask) (v : Venue)
    → lookup id v.tasks ≡ some t
    → (caller ≡ t.broker_agent_id) ⊎ (caller ≡ t.carrier_agent_id)
    → tasks_get caller id v ≡ some t
unfolding tasks_get
fetched caller id t v found party =
    ground (arith, ==_iff caller t.broker_agent_id, ==_iff caller t.carrier_agent_id)

-- What a negotiation that is ended for a reason about a named party tells the other one. What it adds to the
-- outbox are only notices that show the other party nothing of the evidence under a key that is not known to
-- be safe: under such a key it finds only the marks of the redaction, and what was in the outbox before
-- stays. But the negotiation itself, which either party may fetch, has the evidence in full in its status, so
-- that the redaction keeps nothing from a party that asks.
pub terminate-discloses :
    (t : NegotiationTask) (code : ReasonCode) (by : String) (evidence : Keyed Json)
    (subject : Option String) (d : Disposition) (about : String) (v : Venue)
    → subject_of subject evidence ≡ some about
    → (about == "") ≡ false
    → let after = terminate t code by evidence subject d v in
      Gained (IsDiscreet about) v.outbox after.outbox
      × ((caller : String)
          → (caller ≡ t.broker_agent_id) ⊎ (caller ≡ t.carrier_agent_id)
          → (t' : NegotiationTask) × (tasks_get caller t.id after ≡ some t')
            × (t'.message ≡ some (refused code evidence)))
unfolding terminate ended
terminate-discloses t code by evidence subject d about v names_it named =
    let to_broker = refusal_for code evidence (some about) t.broker_agent_id in
    let to_carrier = refusal_for code evidence (some about) t.carrier_agent_id in
    (
      rw names_it (
          Gained-trans (IsDiscreet about) v.outbox
            (enqueue_known v.agents t.broker_agent_id to_broker v.outbox) _
            (one_notice (IsDiscreet about) v.agents t.broker_agent_id to_broker v.outbox
              (refusal-IsDiscreet code evidence about t.broker_agent_id named))
            (one_notice (IsDiscreet about) v.agents t.carrier_agent_id to_carrier _
              (refusal-IsDiscreet code evidence about t.carrier_agent_id named))),
      λ caller party. (
        ended code by evidence d t,
        fetched caller t.id (ended code by evidence d t) (terminate t code by evidence subject d v)
            (lookup-insert_self t.id (ended code by evidence d t) v.tasks) party,
        refl,
      ),
    )
