-- ===== src/Venue/Redaction.antt =====
-- What a counterparty may see of a refusal that concerns the other party: `redactForCounterparty` of
-- src/venue/service.ts.
use agentic_freight_venue.Common.{
  ◌≡◌, refl, inl, inr, true, false, Option, none, some, List, [], ◌∷◌, String, string_eq, ◌==◌,
  ==_iff, if◌then◌else◌, Keyed, lookup, insert, lookup-insert, includes, Bool-cases,
}
use agentic_freight_venue.Protocol.Canonical.{Json, string, boolean}

abbrev pub counterparty_safe_keys : List String
counterparty_safe_keys =
    "round" ∷ "maxRounds" ∷ "stage" ∷ "atRound" ∷ "error" ∷ "taskId" ∷ "state" ∷ "awaiting"
    ∷ "awaitingSince" ∷ "waitedMs" ∷ "replyTimeoutMs" ∷ "lastOffers" ∷ "by" ∷ "reasonCode"
    ∷ "canceledTaskId" ∷ []

-- The loop over the evidence.
unfoldable pub copy_safe : Keyed Json → Keyed Json → Keyed Json
copy_safe [] out = out
copy_safe ((k, v) ∷ rows) out =
    copy_safe rows (if includes counterparty_safe_keys k then insert k v out else out)

abbrev pub redaction_of : String → Keyed Json
redaction_of subject = ("redacted", boolean true) ∷ ("concerning", string subject) ∷ []

unfoldable pub redact_for_counterparty : Keyed Json → Option String → Keyed Json
redact_for_counterparty evidence none = evidence
redact_for_counterparty evidence (some subject) =
    if subject == "" then evidence else copy_safe evidence (redaction_of subject)

other :
    (j k : String) (v : Json) (out : Keyed Json)
    → includes counterparty_safe_keys j ≡ true
    → includes counterparty_safe_keys k ≡ false
    → (if j == k then some v else lookup k out) ≡ lookup k out
other j k v out safe secret = elim (Bool-cases (j == k)) [
  | inl same ↦ let this : j ≡ k = (==_iff j k).0 same in cc
  | inr differ ↦ rw differ refl
]

copied_safe :
    (k : String) (rows out : Keyed Json)
    → includes counterparty_safe_keys k ≡ false
    → lookup k (copy_safe rows out) ≡ lookup k out
unfolding copy_safe
copied_safe k [] out h = refl
copied_safe k ((j, v) ∷ rows) out h = elim (Bool-cases (includes counterparty_safe_keys j)) [
  | inl safe ↦
      rw (safe, copied_safe k rows (insert j v out) h, lookup-insert j k v out)
        (other j k v out safe h)
  | inr secret ↦ rw (secret, copied_safe k rows out h) refl
]

-- Evidence that concerns a named party reaches the other one without anything under a key that is not
-- known to be safe: under such a key there is only the mark of the redaction itself.
pub redacted_lem :
    (evidence : Keyed Json) (subject k : String)
    → (subject == "") ≡ false
    → includes counterparty_safe_keys k ≡ false
    → lookup k (redact_for_counterparty evidence (some subject)) ≡ lookup k (redaction_of subject)
unfolding redact_for_counterparty
redacted_lem evidence subject k named h = rw named (copied_safe k evidence (redaction_of subject) h)
