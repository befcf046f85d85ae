-- ===== src/Venue/Intake/Refused.antt =====
-- Why `startNegotiation` of src/venue/service.ts refuses a tender: the reason it gives is the most specific of
-- the violations.
use agentic_freight_venue.Common.{
  ℕ, ◌≤◌, ◌≡◌, refl, sym, subst, ◌⊎◌, inl, inr, Bool-cases, true, false, ==_refl, some, List, [],
  ◌∷◌, ◌++◌, String, string_eq, ==_iff, lookup, insert, lookup-insert_self, values, Has, or_else,
  arith, leb, not,
}
use agentic_freight_venue.Protocol.Reasons.{
  ReasonCode, reason_name, double_brokering_attempt, registry_unavailable,
}
use agentic_freight_venue.Venue.Ending.{active_commitment_for_load}
use agentic_freight_venue.Protocol.Canonical.{Primitives}
use agentic_freight_venue.Protocol.Terms.{load_fingerprint}
use agentic_freight_venue.Mandate.Engine.{flag}
use agentic_freight_venue.Venue.Task.{TaskState, NegotiationTask, RegisteredAgent, TaskOutcome}
use agentic_freight_venue.Venue.State.{active, CommitmentRecord, Venue}
use agentic_freight_venue.Venue.Moves.{first_violation}
use agentic_freight_venue.Venue.Standing.{Credential, Standing}
use agentic_freight_venue.Venue.Specificity.{specificity, index_of, rank, placed, by_rank, primary}
use agentic_freight_venue.Venue.Intake.{
  Tender, double_brokers, double_brokering, violations_of, filed_task, start_negotiation,
  usdots_asked, counterparty, sender_violations, through_tender, recommitted,
  counterparty_violations, offer_violations, insurer_violations, tender_refusal,
}
use agentic_freight_venue.Venue.Intake.Opened.{filed-id}

abbrev IsFilled : List ReasonCode → Type 0
IsFilled cs = (c : ReasonCode) × (rest : List ReasonCode) × (cs ≡ c ∷ rest)

placed-IsFilled : (code : ReasonCode) (cs : List ReasonCode) → IsFilled (placed code cs)
placed-IsFilled code [] = (code, [], refl)
placed-IsFilled code (c ∷ cs) = elim (Bool-cases (leb (rank code) (rank c))) [
  | inl below ↦ rw below (code, c ∷ cs, refl)
  | inr above ↦ rw above (c, placed code cs, refl)
]

by_rank-IsFilled : (code : ReasonCode) (cs : List ReasonCode) → Has code cs → IsFilled (by_rank cs)
by_rank-IsFilled code [] has = absurd has
by_rank-IsFilled code (c ∷ cs) has = placed-IsFilled c (by_rank cs)

placed-own :
    (code : ReasonCode) (cs : List ReasonCode) → rank (first_violation (placed code cs)) ≤ rank code
placed-own code [] = omega arith
placed-own code (c ∷ cs) = ground arith

placed-below :
    (code : ReasonCode) (cs : List ReasonCode) (n : ℕ)
    → IsFilled cs
    → rank (first_violation cs) ≤ n
    → rank (first_violation (placed code cs)) ≤ n
placed-below code [] n (c, rest, e) h = cc
placed-below code (c ∷ cs) n filled h = ground arith

-- The reason that a tender is refused for is a least one of its violations in the order from the most
-- specific to the least.
primary-least :
    (codes : List ReasonCode) (code : ReasonCode)
    → Has code codes
    → rank (primary codes) ≤ rank code
unfolding primary
primary-least [] code has = absurd has
primary-least (c ∷ cs) code has = elim has [
  | inl e ↦
      subst (λ k. rank (first_violation (placed c (by_rank cs))) ≤ rank k) e
        (placed-own c (by_rank cs))
  | inr later ↦
      placed-below c (by_rank cs) (rank code) (by_rank-IsFilled code cs later)
        (primary-least cs code later)
]

first-index :
    (name n : String) (ns : List String) → or_else (index_of name (n ∷ ns)) 99 ≤ 0 → n ≡ name
first-index name n ns h = ground (arith, ==_iff n name)

-- The codes after the first.
abbrev less_specific : List String
less_specific = elim specificity [ [] ↦ [] | _ ∷ rest ↦ rest ]

rank-zero : (code : ReasonCode) → rank code ≤ 0 → reason_name code ≡ "DOUBLE_BROKERING_ATTEMPT"
unfolding rank
rank-zero code h = sym (first-index (reason_name code) "DOUBLE_BROKERING_ATTEMPT" less_specific h)

Has-append_right : (code : ReasonCode) (xs ys : List ReasonCode) → Has code ys → Has code (xs ++ ys)
Has-append_right code [] ys has = has
Has-append_right code (x ∷ xs) ys has = inr (Has-append_right code xs ys has)

Has-append_left : (code : ReasonCode) (xs ys : List ReasonCode) → Has code xs → Has code (xs ++ ys)
Has-append_left code [] ys has = absurd has
Has-append_left code (x ∷ xs) ys has = elim has [
  | inl e ↦ inl e
  | inr later ↦ inr (Has-append_left code xs ys later)
]

hauling-double_brokers :
    (c : CommitmentRecord) (sender load_ref fingerprint : String)
    → c.status ≡ active
    → c.carrier_agent_id ≡ sender
    → (c.load_ref ≡ load_ref) ⊎ (c.load_fingerprint ≡ fingerprint)
    → c.subcontract_permitted ≡ false
    → double_brokers sender load_ref fingerprint c ≡ true
hauling-double_brokers c sender load_ref fingerprint live hauls (inl by_ref) closed =
    rw (live, hauls, by_ref, closed, ==_refl sender, ==_refl load_ref) refl
hauling-double_brokers c sender load_ref fingerprint live hauls (inr by_print) closed =
    ground (arith, ==_iff c.carrier_agent_id sender, ==_iff c.load_fingerprint fingerprint)

double_brokering-Has :
    (sender load_ref fingerprint : String) (c : CommitmentRecord) (cs : List CommitmentRecord)
    → Has c cs
    → double_brokers sender load_ref fingerprint c ≡ true
    → Has double_brokering_attempt (double_brokering sender load_ref fingerprint cs)
unfolding double_brokering
double_brokering-Has sender r f c [] has bad = absurd has
double_brokering-Has sender r f c (c' ∷ cs) has bad = elim has [
  | inl e ↦ rw (e, bad) (inl refl)
  | inr later ↦
      Has-append_right double_brokering_attempt
        (flag (double_brokers sender r f c') double_brokering_attempt) _
        (double_brokering-Has sender r f c cs later bad)
]

module _ (x : Primitives) (normalized : String → String) (date : String → ℕ) (max_age : ℕ)
    (w : Standing) (sender : RegisteredAgent) (cred : Credential) (d : Tender) (v : Venue) where
  violations-Has :
      (c : CommitmentRecord)
      → Has c (values v.commitments)
      → double_brokers sender.agent_id d.load.load_ref (load_fingerprint x normalized d.load) c
        ≡ true
      → Has double_brokering_attempt (violations_of x normalized date max_age w sender cred d v)
  unfolding violations_of
  violations-Has c has bad =
      let fresh = w.is_fresh (usdots_asked x normalized date w cred d v) max_age in
      let fingerprint = load_fingerprint x normalized d.load in
      let cp = counterparty x normalized date w sender d v in
      let own = sender_violations fresh (w.live cred (through_tender x normalized date d)) in
      let hauled =
        double_brokering sender.agent_id d.load.load_ref fingerprint (values v.commitments) in
      let rest =
        recommitted
          (active_commitment_for_load sender.agent_id d.load.load_ref fingerprint v.commitments)
        ++ (counterparty_violations fresh cp
            ++ (offer_violations sender.envelope d
                ++ insurer_violations x normalized date fresh sender.envelope d cp)) in
      Has-append_right double_brokering_attempt (flag (not fresh) registry_unavailable)
        (own ++ (hauled ++ rest))
        (Has-append_right double_brokering_attempt own (hauled ++ rest) (
          Has-append_left double_brokering_attempt hauled rest (
            double_brokering-Has sender.agent_id d.load.load_ref fingerprint c
              (values v.commitments) has bad)))

  filed-refused :
      (codes : List ReasonCode) (id : String)
      → Has double_brokering_attempt codes
      → let t = filed_task codes id d sender.agent_id w.now in
        (t.state ≡ TaskState.rejected)
        × ((o : TaskOutcome) × (t.outcome ≡ some o)
            × (reason_name o.reason_code ≡ "DOUBLE_BROKERING_ATTEMPT"))
  unfolding filed_task rank
  filed-refused [] id has = absurd has
  filed-refused (code ∷ codes) id has = (
    refl,
    (
      tender_refusal (code ∷ codes),
      refl,
      rank-zero (primary (code ∷ codes))
          (primary-least (code ∷ codes) double_brokering_attempt has),
    ),
  )

  -- A tender is refused for double brokering, whatever else is wrong with it, if its sender is the carrier of
  -- a commitment that is active, for a load with the same reference or the same fingerprint, and that does not
  -- permit subcontracting: it is filed as a rejected negotiation with that reason as its outcome. Of a
  -- commitment past pickup nothing is said.
  pub start_negotiation-double_brokering :
      (id : String) (c : CommitmentRecord)
      → Has c (values v.commitments)
      → c.status ≡ active
      → c.carrier_agent_id ≡ sender.agent_id
      → (c.load_ref ≡ d.load.load_ref) ⊎ (c.load_fingerprint ≡ load_fingerprint x normalized d.load)
      → c.subcontract_permitted ≡ false
      → (t : NegotiationTask) × (o : TaskOutcome) × (lookup id
            (start_negotiation x normalized date max_age w sender cred id d v).tasks
          ≡ some t)
        × (t.state ≡ TaskState.rejected)
        × (t.outcome ≡ some o)
        × (reason_name o.reason_code ≡ "DOUBLE_BROKERING_ATTEMPT")
  unfolding start_negotiation
  start_negotiation-double_brokering id c has live hauls same closed =
      let bad =
        hauling-double_brokers c sender.agent_id d.load.load_ref
          (load_fingerprint x normalized d.load) live hauls same closed in
      let codes = violations_of x normalized date max_age w sender cred d v in
      let t = filed_task codes id d sender.agent_id w.now in
      let (state, (o, outcome, reason)) = filed-refused codes id (violations-Has c has bad) in
      (
        t,
        o,
        subst (λ k. lookup id (insert k t v.tasks) ≡ some t)
            (sym (filed-id x normalized date max_age w sender cred d v codes id))
            (lookup-insert_self id t v.tasks),
        state,
        outcome,
        reason,
      )
