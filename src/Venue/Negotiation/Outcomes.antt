-- ===== src/Venue/Negotiation/Outcomes.antt =====
-- What a message on an open negotiation can lead to: the ends of `advance` of src/venue/service.ts.
use agentic_freight_venue.Common.{
  ℕ, ◌+◌, ◌≤◌, ◌≡◌, refl, sym, ap, ◌∙◌, true, Option, none, some, String, string_eq, Keyed, lookup,
  ◌⊎◌, inl, inr, Bool-cases, Option-cases, arith, ltb,
}
use agentic_freight_venue.Protocol.Reasons.{ReasonCode}
use agentic_freight_venue.Protocol.Canonical.{Json, Primitives}
use agentic_freight_venue.Protocol.Terms.{Terms, load_fingerprint}
use agentic_freight_venue.Venue.Task.{
  Offer, Acceptance, NegotiationTask, RegisteredAgent, CommitJournal,
}
use agentic_freight_venue.Venue.State.{Venue}
use agentic_freight_venue.Venue.Standing.{Credential, Standing}
use agentic_freight_venue.Venue.Ending.{
  Disposition, disposition_of, terminate, fail, active_commitment_for_load,
}
use agentic_freight_venue.Venue.Step.{Step, go, >>=-go, Step-cases, present}
use agentic_freight_venue.Venue.Prepare.{prepare}
use agentic_freight_venue.Venue.Commit.{commit_finished}
use agentic_freight_venue.Venue.Moves.{
  Move, counter, accept_terms, reject, Reply, replied, with_task, task_of, concluded, other_party,
  may_move, offer_permitted, countered, counter_offered, stands_or_stop, through_delivery,
  move_type,
}
use agentic_freight_venue.Venue.Acceptance.{
  accepted, awaiting_countersign, commit, acceptance_kept, acceptance_checked, terms_accepted,
}
use agentic_freight_venue.Venue.Acceptance.Agreed.{
  AreAgreed, IsCleared, acceptance_checked-AreAgreed,
}
use agentic_freight_venue.Venue.Negotiation.{made, moved, advance, fresh_or_stop}

module _ (x : Primitives) (normalized : String → String) (date : String → ℕ) (signer : String)
    (iso : ℕ → String) (max_rounds : ℕ) (w : Standing) (sender : RegisteredAgent)
    (cred : Credential) where
  abbrev pub acceptance_of : Terms → String → Acceptance
  acceptance_of terms hash = record {
    terms = terms;
    terms_hash = hash;
    credential_id = cred.credential_id;
  }

  -- The negotiation with the sender's acceptance in it.
  abbrev pub with_acceptance : NegotiationTask → Terms → String → NegotiationTask
  with_acceptance t terms hash = accepted t sender.agent_id (acceptance_of terms hash)

  abbrev pub their_acceptance : NegotiationTask → Terms → String → Option Acceptance
  their_acceptance t terms hash =
      lookup (other_party t sender.agent_id) (with_acceptance t terms hash).acceptances

  -- A venue `v'` that a move leads to from `v`: the negotiation is ended, perhaps with the acceptance kept in
  -- it; it carries a new offer within the rounds; it waits for the other party to countersign; or both
  -- parties have accepted the same terms and it is committed.
  pub data Outcome (t : NegotiationTask) (m : Move) (v v' : Venue) : Type 0 where
    ended :
        (s : NegotiationTask) (u : Venue) (code : ReasonCode) (by : String) (evidence : Keyed Json)
        (subject : Option String) (disposition : Disposition)
        → s.id ≡ t.id
        → (u ≡ v) ⊎ (u ≡ with_task s v)
        → v' ≡ terminate s code by evidence subject disposition u
        → Outcome t m v v'
    offered :
        (round : ℕ) (o : Offer)
        → m ≡ counter round o
        → t.round + 1 ≤ max_rounds
        → v' ≡ with_task (countered t sender.agent_id o w.now) v
        → Outcome t m v v'
    asked :
        (round : ℕ) (terms : Terms) (hash : String)
        → m ≡ accept_terms round terms hash
        → AreAgreed x normalized date signer iso w t sender.agent_id terms hash v
        → their_acceptance t terms hash ≡ none
        → v'
          ≡ with_task
              (awaiting_countersign
                (with_acceptance t terms hash)
                (other_party t sender.agent_id)
                w.now)
              v
        → Outcome t m v v'
    committed :
        (round : ℕ) (terms : Terms) (hash : String) (other : RegisteredAgent)
        (other_cred : Credential) (first : Acceptance) (j : CommitJournal)
        → m ≡ accept_terms round terms hash
        → AreAgreed x normalized date signer iso w t sender.agent_id terms hash v
        → IsCleared x normalized date signer iso w sender other other_cred t round terms v
        → their_acceptance t terms hash ≡ some first
        → prepare date x w
            (with_acceptance t terms hash)
            terms
            (with_task (with_acceptance t terms hash) v)
          ≡ go j
        → v'
          ≡ commit_finished x normalized date signer iso j w.now
              (with_task (with_acceptance t terms hash) v)
        → Outcome t m v v'

  go-eq : {u v : Venue} → ◌≡◌ {A = Step Venue} (go u) (go v) → v ≡ u
  go-eq h = cc

  replied-eq : {u v : Venue} → ◌≡◌ {A = Reply} (replied u) (replied v) → v ≡ u
  replied-eq h = cc

  permitted-same :
      (t : NegotiationTask) (o o' : Offer) (round : ℕ)
      → offer_permitted sender t o round ≡ go o'
      → o' ≡ o
  unfolding offer_permitted
  permitted-same t o o' round h = ground arith

  counter-Outcome :
      (t : NegotiationTask) (round : ℕ) (o : Offer) (v v' : Venue)
      → counter_offered max_rounds w.now sender t o v ≡ go v'
      → Outcome t (counter round o) v v'
  unfolding counter_offered
  counter-Outcome t round o v v' h = elim (Bool-cases (ltb max_rounds (t.round + 1))) [
    | inl over ↦ let h' = rw over at h in cc h'
    | inr within ↦
        let (o', permitted, h') =
          >>=-go (offer_permitted sender t o (t.round + 1)) _ (rw within at h) in
        offered round o refl (ground arith) (
          go-eq h'
          ∙ ap (λ p. with_task (countered t sender.agent_id p w.now) v)
              (permitted-same t o o' (t.round + 1) permitted))
  ]

  kept-Outcome :
      (t : NegotiationTask) (round : ℕ) (terms : Terms) (hash : String) (other : RegisteredAgent)
      (other_cred : Credential) (v v' : Venue)
      → AreAgreed x normalized date signer iso w t sender.agent_id terms hash v
      → IsCleared x normalized date signer iso w sender other other_cred t round terms v
      → acceptance_kept x normalized date signer iso w t sender.agent_id
          (acceptance_of terms hash)
          v
        ≡ go v'
      → Outcome t (accept_terms round terms hash) v v'
  unfolding acceptance_kept commit
  kept-Outcome t round terms hash other other_cred v v' agreed cleared h =
      let s = with_acceptance t terms hash in
      let u = with_task s v in
      elim (Option-cases (their_acceptance t terms hash)) [
        | inl missing ↦
            let h' = rw (missing, acceptance_kept) at h in
            asked round terms hash refl agreed missing (go-eq h')
        | inr (first, on_file) ↦ elim (Step-cases (prepare date x w s terms u)) [
          | inl (code, by, evidence, subject, stopped) ↦
              let h' = rw (on_file, acceptance_kept, stopped) at h in
              unfold fail in
              ended s u code by evidence subject (disposition_of code) refl (inr refl) (go-eq h')
          | inr (inl lost) ↦ let h' = rw (on_file, acceptance_kept, lost) at h in cc h'
          | inr (inr (j, ready)) ↦
              let h' = rw (on_file, acceptance_kept, ready) at h in
              committed round terms hash other other_cred first j refl agreed cleared on_file ready
                (go-eq h')
        ]
      ]

  terms-Outcome :
      (t : NegotiationTask) (round : ℕ) (terms : Terms) (hash : String) (other : RegisteredAgent)
      (other_cred : Credential) (v v' : Venue)
      → terms_accepted x normalized date signer iso w sender cred other other_cred t round terms
          hash v
        ≡ go v'
      → Outcome t (accept_terms round terms hash) v v'
  unfolding terms_accepted
  terms-Outcome t round terms hash other other_cred v v' h =
      elim (Option-cases (
        active_commitment_for_load t.broker_agent_id t.load_ref
          (load_fingerprint x normalized t.load) v.commitments)) [
            | inl free ↦
                let (u, checked, h') =
                  >>=-go
                    (acceptance_checked x normalized date signer iso w sender other other_cred t
                      round terms hash v)
                    _ (rw (free, terms_accepted) at h) in
                let (agreed, cleared) =
                  acceptance_checked-AreAgreed x normalized date signer iso w sender other
                    other_cred t round terms u hash v checked in
                kept-Outcome t round terms hash other other_cred v v' agreed cleared h'
            | inr (won, found) ↦
                let h' = rw (found, terms_accepted) at h in
                ended t v _ _ _ _ _ refl (inl refl) (go-eq h')
          ]

  made-Outcome :
      (t : NegotiationTask) (m : Move) (other : RegisteredAgent) (other_cred : Credential)
      (v v' : Venue)
      → made x normalized date signer iso max_rounds w sender cred other other_cred t m v ≡ go v'
      → Outcome t m v v'
  unfolding made
  made-Outcome t (reject round reason) other other_cred v v' h = cc
  made-Outcome t (counter round o) other other_cred v v' h = counter-Outcome t round o v v' h
  made-Outcome t (accept_terms round terms hash) other other_cred v v' h =
      terms-Outcome t round terms hash other other_cred v v' h

  moved-Outcome :
      (max_age : ℕ) (t : NegotiationTask) (m : Move) (v v' : Venue)
      → moved x normalized date signer iso max_rounds max_age w sender cred t m v ≡ go v'
      → Outcome t m v v'
  unfolding moved
  moved-Outcome max_age t m v v' h =
      let (other, _, h1) = >>=-go (present (lookup (other_party t sender.agent_id) v.agents)) _ h in
      let (other_cred, _, h2) = >>=-go (present (w.credential other.credential_id)) _ h1 in
      let (_, _, h3) =
        >>=-go (fresh_or_stop x normalized date signer iso max_age w cred other_cred m) _ h2 in
      let (_, _, h4) =
        >>=-go
          (stands_or_stop (move_type m) sender.agent_id (w.live cred (through_delivery date t))) _
          h3 in
      made-Outcome t m other other_cred v v' h4

  concluded-Outcome :
      (max_age : ℕ) (t : NegotiationTask) (m : Move) (v v' : Venue)
      → concluded t v (moved x normalized date signer iso max_rounds max_age w sender cred t m v)
        ≡ replied v'
      → Outcome t m v v'
  concluded-Outcome max_age t m v v' h =
      elim (Step-cases
        (moved x normalized date signer iso max_rounds max_age w sender cred t m v)) [
          | inl (code, by, evidence, subject, stopped) ↦
              let h' = rw stopped at h in
              unfold fail in
              ended t v code by evidence subject (disposition_of code) refl (inl refl)
                (replied-eq h')
          | inr (inl lost) ↦ let h' = rw lost at h in cc h'
          | inr (inr (u, done)) ↦
              let h' = rw done at h in
              moved-Outcome max_age t m v v' (done ∙ ap go (sym (replied-eq h')))
        ]

  -- Every message that the venue answers came from the party that an open negotiation on file was waiting
  -- for, and has one of the four outcomes: the negotiation is ended, carries a new offer, waits for the
  -- countersignature, or is committed.
  pub advance-Outcome :
      (max_age : ℕ) (task_id : Option String) (m : Move) (v v' : Venue)
      → advance x normalized date signer iso max_rounds max_age w sender cred task_id m v
        ≡ replied v'
      → (t : NegotiationTask) × (task_of task_id v ≡ some t)
        × (may_move t sender.agent_id ≡ true)
        × Outcome t m v v'
  unfolding advance
  advance-Outcome max_age task_id m v v' h = elim (Option-cases (task_of task_id v)) [
    | inl unknown ↦ let h' = rw (unknown, advance) at h in cc h'
    | inr (t, found) ↦ elim (Bool-cases (may_move t sender.agent_id)) [
      | inl may ↦
          let h' = rw (found, advance, may) at h in
          (t, found, may, concluded-Outcome max_age t m v v' h')
      | inr not_now ↦ let h' = rw (found, advance, not_now) at h in cc h'
    ]
  ]
