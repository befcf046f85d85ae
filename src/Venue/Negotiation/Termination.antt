-- ===== src/Venue/Negotiation/Termination.antt =====
-- Why a negotiation ends: every answered message of `advance` of src/venue/service.ts ends it or uses up one of
-- the moves that it has left.
use agentic_freight_venue.Common.{
  ℕ, ◌+◌, ◌*◌, ◌-◌, ◌≤◌, ◌<◌, ◌≡◌, refl, sym, subst, ◌∙◌, ◌≢◌, ◌⊎◌, true, false, Option, none, some,
  String, string_eq, Keyed, lookup, insert, lookup-insert_self, inl, inr, arith,
}
use agentic_freight_venue.Protocol.Reasons.{ReasonCode}
use agentic_freight_venue.Protocol.Canonical.{Json, Primitives}
use agentic_freight_venue.Protocol.Terms.{Terms}
use agentic_freight_venue.Venue.Task.{
  is_terminal, Offer, NegotiationStatus, negotiating, countersign, Acceptance, NegotiationTask,
  RegisteredAgent, CommitJournal,
}
use agentic_freight_venue.Venue.State.{Venue}
use agentic_freight_venue.Venue.Standing.{Credential, Standing}
use agentic_freight_venue.Venue.Ending.{
  Disposition, failing, canceling, ended_state, ended as ended_task, terminate,
}
use agentic_freight_venue.Venue.Ending.Expired.{TasksFiled}
use agentic_freight_venue.Venue.Ending.Sweep.{insert-AreFiled}
use agentic_freight_venue.Venue.Prepare.Prepared.{prepare-journal}
use agentic_freight_venue.Venue.Commit.{
  completed, commit_journaled, commit_entered, apply_commit, commit_finished, is_committed,
}
use agentic_freight_venue.Venue.Commit.Completed.{apply_commit-completed}
use agentic_freight_venue.Venue.Moves.{
  Move, replied, with_task, task_of, other_party, may_move, countered,
}
use agentic_freight_venue.Venue.Acceptance.{awaiting_countersign}
use agentic_freight_venue.Venue.Negotiation.{advance}
use agentic_freight_venue.Venue.Negotiation.Outcomes.{
  with_acceptance, their_acceptance, acceptance_of, Outcome, ended, offered, asked, committed,
  advance-Outcome,
}
use agentic_freight_venue.Venue.Negotiation.Progress.{some-eq, others-other, party_of, theirs-same}

-- An open negotiation between two parties, within the rounds; one that waits for a countersignature has the
-- acceptance of the party that is not awaited.
pub record IsOpen (max_rounds : ℕ) (t : NegotiationTask) : Type 0 where
  pub within : t.round ≤ max_rounds
  pub apart : t.broker_agent_id ≢ t.carrier_agent_id
  pub stage :
      (t.status ≡ negotiating)
      ⊎ ((t.status ≡ countersign)
          × ((first : Acceptance) × (lookup (other_party t t.awaiting) t.acceptances ≡ some first)))

abbrev pub weight : NegotiationStatus → ℕ
weight negotiating = 1
weight _ = 0

-- How many moves a negotiation has left at most.
abbrev pub moves_left : ℕ → NegotiationTask → ℕ
moves_left max_rounds t = 2 * (max_rounds - t.round) + weight t.status

open-uncommitted :
    (max_rounds : ℕ) (t : NegotiationTask) → IsOpen max_rounds t → is_committed t.status ≡ false
open-uncommitted max_rounds t o = elim (o.stage) [ inl e ↦ rw e refl | inr (e, _) ↦ rw e refl ]

module _ (x : Primitives) (normalized : String → String) (date : String → ℕ) (signer : String)
    (iso : ℕ → String) (max_rounds : ℕ) (w : Standing) (sender : RegisteredAgent)
    (cred : Credential) where
  -- The negotiation in the venue that a move leads to: it has ended, or is open with fewer moves left.
  abbrev pub HasAdvanced : NegotiationTask → Venue → Type 0
  HasAdvanced t v' =
      (t' : NegotiationTask) × (lookup t.id v'.tasks ≡ some t')
      × ((is_terminal t'.state ≡ true)
          ⊎ (IsOpen max_rounds t' × (moves_left max_rounds t' < moves_left max_rounds t)))

  offered_step :
      (t : NegotiationTask) (o : Offer) (v v' : Venue)
      → IsOpen max_rounds t
      → TasksFiled v
      → t.round + 1 ≤ max_rounds
      → v' ≡ with_task (countered t sender.agent_id o w.now) v
      → TasksFiled v' × HasAdvanced t v'
  offered_step t o v v' op filed within e =
      let t' = countered t sender.agent_id o w.now in
      rw e (
        insert-AreFiled (λ s. s.id) t.id t' v.tasks refl filed,
        (
          t',
          lookup-insert_self t.id t' v.tasks,
          inr (record { within = within; apart = op.apart; stage = inl refl }, omega arith),
        ),
      )

  asked_step :
      (t : NegotiationTask) (terms : Terms) (hash : String) (v v' : Venue)
      → IsOpen max_rounds t
      → TasksFiled v
      → may_move t sender.agent_id ≡ true
      → their_acceptance x normalized date signer iso max_rounds w sender cred t terms hash ≡ none
      → v'
        ≡ with_task
            (awaiting_countersign
              (with_acceptance x normalized date signer iso max_rounds w sender cred t terms hash)
              (other_party t sender.agent_id)
              w.now)
            v
      → TasksFiled v' × HasAdvanced t v'
  asked_step t terms hash v v' op filed may missing e =
      let a = acceptance_of x normalized date signer iso max_rounds w sender cred terms hash in
      let s = with_acceptance x normalized date signer iso max_rounds w sender cred t terms hash in
      let t' = awaiting_countersign s (other_party t sender.agent_id) w.now in
      let two = others-other t sender.agent_id op.apart (party_of t sender.agent_id may).0 in
      let awaited = (party_of t sender.agent_id may).1 in
      let theirs =
        theirs-same x normalized date signer iso max_rounds w sender cred t terms hash two.1 in
      let first =
        subst (λ k. lookup k (insert sender.agent_id a t.acceptances) ≡ some a) (sym two.0)
          (lookup-insert_self sender.agent_id a t.acceptances) in
      let open_now : IsOpen max_rounds t' = record {
        within = op.within;
        apart = op.apart;
        stage = inr (refl, (a, first));
      } in
      rw e (
        insert-AreFiled (λ s. s.id) t.id t' v.tasks refl filed,
        (
          t',
          lookup-insert_self t.id t' v.tasks,
          inr (
            open_now,
            elim op.stage [
              | inl fresh ↦ rw fresh (omega arith)
              | inr (_, (b, there)) ↦
                  let there' =
                    subst (λ i. lookup (other_party t i) t.acceptances ≡ some b) awaited there in
                  cc (sym missing ∙ theirs ∙ there')
            ],
          ),
        ),
      )

  committed_step :
      (t : NegotiationTask) (terms : Terms) (hash : String) (j : CommitJournal) (v v' : Venue)
      → IsOpen max_rounds t
      → TasksFiled v
      → j.task_id ≡ t.id
      → v'
        ≡ commit_finished x normalized date signer iso j w.now (
            with_task
              (with_acceptance x normalized date signer iso max_rounds w sender cred t terms hash)
              v)
      → TasksFiled v' × HasAdvanced t v'
  unfolding commit_finished commit_entered commit_journaled
  committed_step t terms hash j v v' op filed named e =
      let s = with_acceptance x normalized date signer iso max_rounds w sender cred t terms hash in
      let u =
        commit_entered x normalized date signer iso j w.now
          (commit_journaled x normalized date j (with_task s v)) in
      let here =
        subst (λ k. lookup k (insert t.id s v.tasks) ≡ some s) (sym named)
          (lookup-insert_self t.id s v.tasks) in
      let (done, kept) =
        apply_commit-completed x normalized date j w.now u s
          (insert-AreFiled (λ r. r.id) t.id s v.tasks refl filed) here
          (open-uncommitted max_rounds t op) in
      rw e (
        kept,
        (
          completed j s,
          subst
              (λ k.
                lookup k (apply_commit x normalized date j w.now u).tasks ≡ some (completed j s))
              named done,
          inl refl,
        ),
      )

  filed_before :
      (t s : NegotiationTask) (u v : Venue)
      → TasksFiled v
      → s.id ≡ t.id
      → (u ≡ v) ⊎ (u ≡ with_task s v)
      → TasksFiled u
  filed_before t s u v filed same (inl e) = subst TasksFiled (sym e) filed
  filed_before t s u v filed same (inr e) =
      subst TasksFiled (sym e) (insert-AreFiled (λ r. r.id) s.id s v.tasks refl filed)

  ended_state-terminal : (d : Disposition) → is_terminal (ended_state d) ≡ true
  ended_state-terminal failing = refl
  ended_state-terminal canceling = refl

  ended_step :
      (t s : NegotiationTask) (u v' : Venue) (code : ReasonCode) (by : String)
      (evidence : Keyed Json) (subject : Option String) (d : Disposition)
      → TasksFiled u
      → s.id ≡ t.id
      → v' ≡ terminate s code by evidence subject d u
      → TasksFiled v' × HasAdvanced t v'
  unfolding terminate ended_task
  ended_step t s u v' code by evidence subject d filed same e =
      let s' = ended_task code by evidence d s in
      rw e (
        insert-AreFiled (λ r. r.id) s.id s' u.tasks refl filed,
        (
          s',
          subst (λ k. lookup k (insert s.id s' u.tasks) ≡ some s') same
              (lookup-insert_self s.id s' u.tasks),
          inl (ended_state-terminal d),
        ),
      )

  step :
      (t : NegotiationTask) (m : Move) (v v' : Venue)
      → IsOpen max_rounds t
      → TasksFiled v
      → may_move t sender.agent_id ≡ true
      → Outcome x normalized date signer iso max_rounds w sender cred t m v v'
      → TasksFiled v' × HasAdvanced t v'
  step t m v v' op filed may (ended s u code by evidence subject d same kept e) =
      ended_step t s u v' code by evidence subject d (filed_before t s u v filed same kept) same e
  step t m v v' op filed may (offered round o _ within e) = offered_step t o v v' op filed within e
  step t m v v' op filed may (asked round terms hash _ _ missing e) =
      asked_step t terms hash v v' op filed may missing e
  step t m v v' op filed may (committed round terms hash _ _ _ j _ _ _ _ ready e) =
      committed_step t terms hash j v v' op filed
        (prepare-journal date x w
          (with_acceptance x normalized date signer iso max_rounds w sender cred t terms hash) terms
          (with_task
            (with_acceptance x normalized date signer iso max_rounds w sender cred t terms hash) v)
          j ready).0
        e

  -- Every answered message on an open negotiation, whoever sends it and whatever it says, ends the negotiation
  -- or leaves it open with fewer moves left, of which there are at most twice the rounds plus one; and the
  -- tasks stay filed under their identifiers. So no exchange of messages goes on for ever.
  pub advance-HasAdvanced :
      (max_age : ℕ) (task_id : Option String) (m : Move) (t : NegotiationTask) (v v' : Venue)
      → task_of task_id v ≡ some t
      → IsOpen max_rounds t
      → TasksFiled v
      → advance x normalized date signer iso max_rounds max_age w sender cred task_id m v
        ≡ replied v'
      → TasksFiled v' × HasAdvanced t v'
  advance-HasAdvanced max_age task_id m t v v' found op filed h =
      let (s, found', may, out) =
        advance-Outcome x normalized date signer iso max_rounds w sender cred max_age task_id m v v'
          h in
      let same : s ≡ t = some-eq (sym found' ∙ found) in
      step t m v v' op filed (subst (λ u. may_move u sender.agent_id ≡ true) same may) (
        subst (λ u. Outcome x normalized date signer iso max_rounds w sender cred u m v v') same
          out)
