-- ===== src/Venue/Lifecycle/Reported.antt =====
-- What a recorded report does, and what stays true of the venue.
use agentic_freight_venue.Common.{
  ℕ, ◌+◌, ◌≡◌, refl, sym, subst, ◌∙◌, ◌≢◌, ◌⊎◌, Bool, true, false, not, ◌||◌, some, [], ◌∷◌, ◌++◌,
  String, string_eq, ◌==◌, ==_iff, if◌then◌else◌, lookup, lookup-insert_self, lookup-insert_ne, any,
  or_else, length, length-append, arith,
}
use agentic_freight_venue.Protocol.Reasons.{claim_invalid, lifecycle_event_invalid}
use agentic_freight_venue.Protocol.Freight.{
  LifecycleEventType, picked_up, pod, delivery_accepted, dispute_opened, dispute_closed, paid,
}
use agentic_freight_venue.Protocol.Canonical.{Primitives}
use agentic_freight_venue.Ledger.Chain.{append}
use agentic_freight_venue.Venue.Task.{LifecycleNotice, Notice}
use agentic_freight_venue.Venue.Ending.{enqueue}
use agentic_freight_venue.Venue.State.{
  CommitmentStatus, active, in_transit, completed, voided, CommitmentRecord, Venue,
}
use agentic_freight_venue.Venue.Lifecycle.{
  LifecycleReport, lifecycle_rule, status_beq, is_allowed_by, refused, recorded, entered,
  record_lifecycle,
}

-- On its way or past it.
abbrev pub IsUnderway : CommitmentStatus → Type 0
IsUnderway active = ⊥
IsUnderway in_transit = Unit
IsUnderway CommitmentStatus.delivered = Unit
IsUnderway completed = Unit
IsUnderway voided = ⊥

-- The life of a load: what the carrier (`false`) and the broker (`true`) may report, and what becomes of
-- the commitment.
pub data Moves : Bool → LifecycleEventType → CommitmentStatus → CommitmentStatus → Type 0 where
  picks_up : Moves false picked_up active in_transit
  delivers : Moves false LifecycleEventType.delivered in_transit CommitmentStatus.delivered
  accepts : Moves true delivery_accepted CommitmentStatus.delivered completed
  pays_delivered : Moves true paid CommitmentStatus.delivered CommitmentStatus.delivered
  pays_completed : Moves true paid completed completed
  shows : (by : Bool) (s : CommitmentStatus) → IsUnderway s → Moves by pod s s
  disputes : (by : Bool) (s : CommitmentStatus) → IsUnderway s → Moves by dispute_opened s s
  settles : (by : Bool) (s : CommitmentStatus) → IsUnderway s → Moves by dispute_closed s s

IsUnderway-of :
    (s : CommitmentStatus)
    → any (status_beq s) (in_transit ∷ CommitmentStatus.delivered ∷ completed ∷ []) ≡ true
    → IsUnderway s
IsUnderway-of active f = cc f
IsUnderway-of in_transit f = tt
IsUnderway-of CommitmentStatus.delivered f = tt
IsUnderway-of completed f = tt
IsUnderway-of voided f = cc f

rule-Moves :
    (by : Bool) (e : LifecycleEventType) (s : CommitmentStatus)
    → is_allowed_by (lifecycle_rule e).by by ≡ true
    → any (status_beq s) (lifecycle_rule e).from ≡ true
    → Moves by e s (or_else (lifecycle_rule e).to s)
unfolding lifecycle_rule
rule-Moves false picked_up active a f = picks_up
rule-Moves false LifecycleEventType.delivered in_transit a f = delivers
rule-Moves true delivery_accepted CommitmentStatus.delivered a f = accepts
rule-Moves true paid CommitmentStatus.delivered a f = pays_delivered
rule-Moves true paid completed a f = pays_completed
rule-Moves by pod s a f = shows by s (IsUnderway-of s f)
rule-Moves by dispute_opened s a f = disputes by s (IsUnderway-of s f)
rule-Moves by dispute_closed s a f = settles by s (IsUnderway-of s f)
rule-Moves true picked_up s a f = cc a
rule-Moves true LifecycleEventType.delivered s a f = cc a
rule-Moves false delivery_accepted s a f = cc a
rule-Moves false paid s a f = cc a
rule-Moves by e s a f = cc f

guards :
    (party role from : Bool) (w v : Venue)
    → (if not party
        then refused claim_invalid
        else if not role
        then refused lifecycle_event_invalid
        else if not from
        then refused lifecycle_event_invalid
        else recorded w)
      ≡ recorded v
    → (party ≡ true) × (role ≡ true) × (from ≡ true) × (w ≡ v)
guards true true true w v h = (refl, refl, refl, cc h)
guards true true false w v h = cc h
guards true false from w v h = cc h
guards false role from w v h = cc h

-- What a recorded report leaves behind.
pub record Effects (caller : String) (p : LifecycleReport) (v v' : Venue) (c : CommitmentRecord)
    : Type 0 where
  pub after : CommitmentRecord
  pub found : lookup p.commitment_id v'.commitments ≡ some after
  pub by_party : (caller ≡ c.broker_agent_id) ⊎ (caller ≡ c.carrier_agent_id)
  pub moves : Moves (caller == c.broker_agent_id) p.event c.status after.status
  pub one_event : length after.lifecycle ≡ length c.lifecycle + 1
  pub one_entry : length v'.ledger ≡ length v.ledger + 1
  pub notice : LifecycleNotice
  pub notified : String
  pub to_other :
      ((caller ≡ c.broker_agent_id) × (notified ≡ c.carrier_agent_id))
      ⊎ ((caller ≢ c.broker_agent_id) × (notified ≡ c.broker_agent_id))
  pub one_notice :
      v'.outbox
      ≡ v.outbox ++ (record { to_agent_id = notified; notice = Notice.lifecycle notice } ∷ [])
  pub tells :
      (notice.commitment_id ≡ c.commitment_id)
      × (notice.event ≡ p.event)
      × (notice.by ≡ caller)
      × (notice.status ≡ after.status)
  pub others : (k : String) → p.commitment_id ≢ k → lookup k v'.commitments ≡ lookup k v.commitments

party_of : (a b c : String) → (a == b || a == c) ≡ true → (a ≡ b) ⊎ (a ≡ c)
party_of a b c h = ground (arith, ==_iff a b, ==_iff a c)

other_party :
    (a b c : String)
    → let other = if a == b then c else b in ((a ≡ b) × (other ≡ c)) ⊎ ((a ≢ b) × (other ≡ b))
other_party a b c = ground (arith, ==_iff a b)

of_party : (a b c : String) → (a ≡ b) ⊎ (a ≡ c) → (a == b || a == c) ≡ true
of_party a b c h = ground (arith, ==_iff a b, ==_iff a c)

IsUnderway-any :
    (s : CommitmentStatus)
    → IsUnderway s
    → any (status_beq s) (in_transit ∷ CommitmentStatus.delivered ∷ completed ∷ []) ≡ true
IsUnderway-any active u = absurd u
IsUnderway-any in_transit u = refl
IsUnderway-any CommitmentStatus.delivered u = refl
IsUnderway-any completed u = refl
IsUnderway-any voided u = absurd u

module _ (x : Primitives) (signer : String) (iso : ℕ → String) where
  entered-Effects :
      (caller : String) (p : LifecycleReport) (now : ℕ) (v : Venue) (c : CommitmentRecord)
      → (caller == c.broker_agent_id || caller == c.carrier_agent_id) ≡ true
      → is_allowed_by (lifecycle_rule p.event).by (caller == c.broker_agent_id) ≡ true
      → any (status_beq c.status) (lifecycle_rule p.event).from ≡ true
      → Effects caller p v (entered x signer iso caller p now c v) c
  unfolding entered append enqueue
  entered-Effects caller p now v c party role from = record {
    after = _;
    found = lookup-insert_self p.commitment_id _ v.commitments;
    by_party = party_of caller c.broker_agent_id c.carrier_agent_id party;
    moves = rule-Moves (caller == c.broker_agent_id) p.event c.status role from;
    one_event = length-append c.lifecycle _;
    one_entry = length-append v.ledger _;
    notice = _;
    notified = _;
    to_other = other_party caller c.broker_agent_id c.carrier_agent_id;
    one_notice = refl;
    tells = (refl, refl, refl, refl);
    others = λ k ne. lookup-insert_ne p.commitment_id k _ v.commitments ne;
  }

  -- A report that is recorded on a commitment is by one of its parties, makes a move of the load's life
  -- that this party may make, adds one event to the commitment and one entry to the ledger, tells the other
  -- party, and it alone, what was reported and where the load now stands, and leaves every other commitment
  -- alone.
  pub recorded-Effects :
      (caller : String) (p : LifecycleReport) (now : ℕ) (v v' : Venue) (c : CommitmentRecord)
      → lookup p.commitment_id v.commitments ≡ some c
      → record_lifecycle x signer iso caller p now v ≡ recorded v'
      → Effects caller p v v' c
  unfolding record_lifecycle
  recorded-Effects caller p now v v' c found h =
      let guarded = guards _ _ _ _ v' (sym (rw (found, record_lifecycle) refl) ∙ h) in
      subst (λ w. Effects caller p v w c) guarded.3
        (entered-Effects caller p now v c guarded.0 guarded.1 guarded.2)

  move-allowed :
      (by : Bool) (e : LifecycleEventType) (s t : CommitmentStatus)
      → Moves by e s t
      → (is_allowed_by (lifecycle_rule e).by by ≡ true)
        × (any (status_beq s) (lifecycle_rule e).from ≡ true)
  unfolding lifecycle_rule
  move-allowed _ _ _ _ picks_up = (refl, refl)
  move-allowed _ _ _ _ delivers = (refl, refl)
  move-allowed _ _ _ _ accepts = (refl, refl)
  move-allowed _ _ _ _ pays_delivered = (refl, refl)
  move-allowed _ _ _ _ pays_completed = (refl, refl)
  move-allowed _ _ _ _ (shows by s u) = (refl, IsUnderway-any s u)
  move-allowed _ _ _ _ (disputes by s u) = (refl, IsUnderway-any s u)
  move-allowed _ _ _ _ (settles by s u) = (refl, IsUnderway-any s u)

  -- A party that reports a move of the load's life that it may make is never refused.
  pub Moves-recorded :
      (caller : String) (p : LifecycleReport) (now : ℕ) (v : Venue) (c : CommitmentRecord)
      (t : CommitmentStatus)
      → lookup p.commitment_id v.commitments ≡ some c
      → (caller ≡ c.broker_agent_id) ⊎ (caller ≡ c.carrier_agent_id)
      → Moves (caller == c.broker_agent_id) p.event c.status t
      → (v' : Venue) × (record_lifecycle x signer iso caller p now v ≡ recorded v')
  unfolding record_lifecycle
  Moves-recorded caller p now v c t found party move =
      let allowed = move-allowed (caller == c.broker_agent_id) p.event c.status t move in
      let is_party : (caller == c.broker_agent_id || caller == c.carrier_agent_id) ≡ true =
        of_party caller c.broker_agent_id c.carrier_agent_id party in
      (
        entered x signer iso caller p now c v,
        rw (found, record_lifecycle, is_party, allowed.0, allowed.1) refl,
      )
