-- ===== src/Venue/Negotiation.antt =====
-- The negotiation's state machine: `advance` of src/venue/service.ts. A message that is refused before anything
-- is written leaves the venue as it is; every other one ends in a venue, or throws on a missing record.
pub mod Outcomes
pub mod Progress
pub mod Stale
pub mod Termination
use agentic_freight_venue.Common.{
  ℕ, Option, none, some, [], ◌∷◌, String, string_eq, if◌then◌else◌, lookup,
}
use agentic_freight_venue.Protocol.Reasons.{
  protocol_violation, registry_unavailable, negotiation_walkaway,
}
use agentic_freight_venue.Protocol.Canonical.{string, number, Primitives}
use agentic_freight_venue.Venue.Task.{NegotiationTask, RegisteredAgent}
use agentic_freight_venue.Venue.State.{Venue}
use agentic_freight_venue.Venue.Standing.{Credential, Standing}
use agentic_freight_venue.Venue.Step.{Step, stop, broken, go, ◌>>=◌, >>=-go, present}
use agentic_freight_venue.Venue.Moves.{
  Move, counter, accept_terms, reject, Reply, refused, move_type, move_round, task_of, concluded,
  other_party, stands_or_stop, through_delivery, may_move, counter_offered,
}
use agentic_freight_venue.Venue.Acceptance.{terms_accepted}

module _ (x : Primitives) (normalized : String → String) (date : String → ℕ) (signer : String)
    (iso : ℕ → String) where
  -- What each kind of move does once both parties are known and judged.
  unfoldable pub made :
      ℕ
      → Standing
      → RegisteredAgent
      → Credential
      → RegisteredAgent
      → Credential
      → NegotiationTask
      → Move
      → Venue
      → Step Venue
  made max_rounds w sender cred other other_cred t (reject round reason) v =
      stop negotiation_walkaway "venue.protocol"
        (("by", string sender.agent_id)
          ∷ ("round", number round)
          ∷ ("reasonCode", string reason)
          ∷ [])
        none
  made max_rounds w sender cred other other_cred t (counter round o) v =
      counter_offered max_rounds w.now sender t o v
  made max_rounds w sender cred other other_cred t (accept_terms round terms hash) v =
      terms_accepted x normalized date signer iso w sender cred other other_cred t round terms hash
        v

  abbrev pub fresh_or_stop : ℕ → Standing → Credential → Credential → Move → Step Move
  fresh_or_stop max_age w cred other_cred m =
      if w.is_fresh (cred.entity.usdot ∷ other_cred.entity.usdot ∷ []) max_age
      then go m
      else stop registry_unavailable "venue.identity"
          (("stage", string (move_type m)) ∷ ("round", number (move_round m)) ∷ []) none

  -- A move of the awaited party, past the guard.
  unfoldable pub moved :
      ℕ → ℕ → Standing → RegisteredAgent → Credential → NegotiationTask → Move → Venue → Step Venue
  moved max_rounds max_age w sender cred t m v = do
    other ← present (lookup (other_party t sender.agent_id) v.agents)
    other_cred ← present (w.credential other.credential_id)
    _ ← fresh_or_stop max_age w cred other_cred m
    _ ← stands_or_stop (move_type m) sender.agent_id (w.live cred (through_delivery date t))
    made max_rounds w sender cred other other_cred t m v

  -- `advance`: the task of a message, the guard, and the move.
  unfoldable pub advance :
      ℕ → ℕ → Standing → RegisteredAgent → Credential → Option String → Move → Venue → Reply
  advance max_rounds max_age w sender cred task_id m v = elim (task_of task_id v) [
    | none ↦ refused protocol_violation
    | some t ↦
        if may_move t sender.agent_id
        then concluded t v (moved max_rounds max_age w sender cred t m v)
        else refused protocol_violation
  ]
