-- ===== src/Venue/Intake/Begun.antt =====
-- What `startNegotiation` of src/venue/service.ts leaves behind for the moves that follow.
use agentic_freight_venue.Common.{
  ℕ, ◌≤◌, ◌≡◌, refl, subst, ◌≢◌, ◌⊎◌, inl, inr, true, none, string_eq, ==_refl, arith, some, List,
  [], ◌∷◌, String, lookup, insert, lookup-insert_self, lookup-insert_ne, sym,
}
use agentic_freight_venue.Protocol.Reasons.{ReasonCode}
use agentic_freight_venue.Protocol.Canonical.{Primitives}
use agentic_freight_venue.Venue.Task.{TaskState, working, NegotiationTask, RegisteredAgent}
use agentic_freight_venue.Venue.State.{Venue}
use agentic_freight_venue.Venue.Ending.Expired.{TasksFiled}
use agentic_freight_venue.Venue.Ending.Sweep.{insert-AreFiled}
use agentic_freight_venue.Venue.Standing.{Credential, Standing}
use agentic_freight_venue.Venue.Moves.{may_move}
use agentic_freight_venue.Venue.Negotiation.Termination.{IsOpen}
use agentic_freight_venue.Venue.Intake.{Tender, violations_of, filed_task, start_negotiation}
use agentic_freight_venue.Venue.Intake.Opened.{filed-id}

-- The negotiation that a tender is filed as: about its load, from its sender to the agent addressed, in the
-- first round, nothing accepted, waiting for the agent addressed since now.
pub record IsFiledFor (id sender : String) (d : Tender) (now : ℕ) (t : NegotiationTask)
    : Type 0 where
  pub is_named : t.id ≡ id
  pub load_ref : t.load_ref ≡ d.load.load_ref
  pub load : t.load ≡ d.load
  pub broker : t.broker_agent_id ≡ sender
  pub carrier : t.carrier_agent_id ≡ d.to
  pub first_round : t.round ≡ 1
  pub awaiting : t.awaiting ≡ d.to
  pub awaiting_since : t.awaiting_since ≡ now
  pub unaccepted : t.acceptances ≡ []
  pub uncommitted : t.commitment_id ≡ none

filed-IsFiledFor :
    (codes : List ReasonCode) (id sender : String) (d : Tender) (now : ℕ)
    → IsFiledFor id sender d now (filed_task codes id d sender now)
unfolding filed_task
filed-IsFiledFor [] id sender d now = record {
  is_named = refl;
  load_ref = refl;
  load = refl;
  broker = refl;
  carrier = refl;
  first_round = refl;
  awaiting = refl;
  awaiting_since = refl;
  unaccepted = refl;
  uncommitted = refl;
}
filed-IsFiledFor (code ∷ codes) id sender d now = record {
  is_named = refl;
  load_ref = refl;
  load = refl;
  broker = refl;
  carrier = refl;
  first_round = refl;
  awaiting = refl;
  awaiting_since = refl;
  unaccepted = refl;
  uncommitted = refl;
}

-- The offer of a tender is on the table, and its carrier may answer.
abbrev pub IsBegun : String → Tender → NegotiationTask → Type 0
IsBegun sender d t =
    (t.state ≡ working)
    × (t.on_table ≡ some (record { offer = d.offer; by = sender; round = 1 }))
    × (may_move t d.to ≡ true)

filed-ends :
    (max_rounds : ℕ) (codes : List ReasonCode) (id sender : String) (d : Tender) (now : ℕ)
    → 1 ≤ max_rounds
    → sender ≢ d.to
    → let t = filed_task codes id d sender now in
      (t.state ≡ TaskState.rejected) ⊎ (IsOpen max_rounds t × IsBegun sender d t)
unfolding filed_task
filed-ends max_rounds [] id sender d now some_rounds apart = inr (
  record { within = some_rounds; apart = apart; stage = inl refl },
  (refl, refl, ground (arith, ==_refl d.to)),
)
filed-ends max_rounds (code ∷ codes) id sender d now some_rounds apart = inl refl

-- A tender between two agents, where at least one round is allowed, files one negotiation under its new
-- identifier: about its load, from its sender to the agent addressed, in the first round. Either it is
-- rejected at once, or it is open to the moves that follow, with the tender's offer on the table and the
-- addressed agent's turn to answer. Every other negotiation, the commitments, the exposure books and the
-- ledger stay as they are, and each task stays under its identifier.
pub start_negotiation-IsOpen :
    (x : Primitives) (normalized : String → String) (date : String → ℕ) (max_age max_rounds : ℕ)
    (w : Standing) (sender : RegisteredAgent) (cred : Credential) (id : String) (d : Tender)
    (v : Venue)
    → 1 ≤ max_rounds
    → sender.agent_id ≢ d.to
    → TasksFiled v
    → let v' = start_negotiation x normalized date max_age w sender cred id d v in
      TasksFiled v'
      × ((t : NegotiationTask) × (lookup id v'.tasks ≡ some t)
          × IsFiledFor id sender.agent_id d w.now t
          × ((t.state ≡ TaskState.rejected) ⊎ (IsOpen max_rounds t × IsBegun sender.agent_id d t)))
      × ((other : String) → id ≢ other → lookup other v'.tasks ≡ lookup other v.tasks)
      × (v' ≡ record v { tasks = v'.tasks })
unfolding start_negotiation
start_negotiation-IsOpen x normalized date max_age max_rounds w sender cred id d v rounds apart
      filed =
    let codes = violations_of x normalized date max_age w sender cred d v in
    let t = filed_task codes id d sender.agent_id w.now in
    let is = filed-id x normalized date max_age w sender cred d v codes id in
    (
      insert-AreFiled (λ s. s.id) t.id t v.tasks refl filed,
      (
        t,
        subst (λ k. lookup id (insert k t v.tasks) ≡ some t) (sym is)
            (lookup-insert_self id t v.tasks),
        filed-IsFiledFor codes id sender.agent_id d w.now,
        filed-ends max_rounds codes id sender.agent_id d w.now rounds apart,
      ),
      λ other ne.
          subst (λ k. lookup other (insert k t v.tasks) ≡ lookup other v.tasks) (sym is)
            (lookup-insert_ne id other t v.tasks ne),
      refl,
    )
