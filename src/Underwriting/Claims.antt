-- ===== src/Underwriting/Claims.antt =====
-- Claims and the reserve: src/underwriting/claims.ts. Points in time are milliseconds; the basis of a
-- decision and the evidence of a claim are text for the record and are left out. Reason codes are the
-- source's own strings.
pub mod Coverage
use Prim.Native.Nat.{Ordering}
use Prim.Native.String
use agentic_freight_venue.Common.{
  ℕ, ◌+◌, ◌*◌, min, Bool, true, false, not, ◌&&◌, Option, none, some, List, [], ◌∷◌, String,
  string_eq, ◌==◌, if◌then◌else◌, ltb, any, includes, ℤ, sub_ℕ,
}
use agentic_freight_venue.Protocol.Freight.{LifecycleEventType, picked_up}
use agentic_freight_venue.Mandate.Engine.{day_ms}

pub data GuaranteeStatus : Type 0 where
  attached released claimable : GuaranteeStatus

pub data ClaimStatus : Type 0 where
  filed covered denied deferred paid : ClaimStatus

pub data DecidedBy : Type 0 where
  rules ops : DecidedBy

pub record Decision : Type 0 where
  pub is_covered : Bool
  pub reason_code : Option String
  pub payout : ℕ
  pub decided_at : ℕ
  pub decided_by : DecidedBy

pub record Claim : Type 0 where
  pub claim_id : String
  pub guarantee_id : String
  pub commitment_id : String
  pub claimant : String
  pub peril : String
  pub amount : ℕ
  pub filed_at : ℕ
  pub status : ClaimStatus
  pub decision : Option Decision
  pub paid_at : Option ℕ

-- What a claim is filed with.
pub record ClaimInput : Type 0 where
  pub guarantee_id : String
  pub commitment_id : String
  pub claimant : String
  pub peril : String
  pub amount : ℕ

pub record Reserve : Type 0 where
  pub initial_capital : ℕ
  pub premiums : ℕ
  pub payouts : ℕ
  pub exposure : ℕ

pub record GuaranteeRecord : Type 0 where
  pub guarantee_id : String
  pub commitment_id : String
  pub counterparty : String
  pub beneficiary : String
  pub covered_amount : ℕ
  pub premium : ℕ
  pub status : GuaranteeStatus
  pub attached_at : ℕ
  pub released_at : Option ℕ
  pub release_reason : Option String
  pub completed_at : Option ℕ
  pub window_ends_at : Option ℕ
  pub day : String

pub record CommitmentEvent : Type 0 where
  pub event : LifecycleEventType
  pub at : String

pub record CommitmentFacts : Type 0 where
  pub delivery_window_end : ℕ
  pub voided_at : Option String
  pub lifecycle : List CommitmentEvent

abbrev pub perils : List String
perils = "IDENTITY_FRAUD" ∷ "DOUBLE_BROKERING_VIA_VENUE" ∷ "CREDENTIAL_MISBINDING" ∷ []

pub record ClaimContext : Type 0 where
  pub guarantee : Option GuaranteeRecord
  pub commitment : Option CommitmentFacts
  pub now : ℕ
  pub window_days : ℕ

abbrev pub is_released : GuaranteeStatus → Bool
is_released released = true
is_released attached = false
is_released claimable = false

abbrev pub is_picked_up : LifecycleEventType → Bool
is_picked_up picked_up = true
is_picked_up _ = false

abbrev pub deny : ClaimContext → String → Decision
deny ctx code = record {
  is_covered = false;
  reason_code = some code;
  payout = 0;
  decided_at = ctx.now;
  decided_by = rules;
}

pub window_closed : ClaimContext → CommitmentFacts → Bool
window_closed ctx cm = ltb (cm.delivery_window_end + ctx.window_days * day_ms) ctx.now

-- `a > b` on texts.
abbrev pub is_after : String → String → Bool
is_after a b = elim (String.compare a b) [ Ordering.gt ↦ true | _ ↦ false ]

-- A pickup after the commitment was voided, by the texts of the two times.
pub overrode : Option String → List CommitmentEvent → Bool
overrode none es = false
overrode (some voided) es = any (λ e. is_picked_up e.event && is_after e.at voided) es

abbrev pub cover : ClaimContext → Claim → GuaranteeRecord → Decision
cover ctx c g = record {
  is_covered = true;
  reason_code = none;
  payout = min c.amount g.covered_amount;
  decided_at = ctx.now;
  decided_by = rules;
}

-- The last rules, which ask about the commitment where it is known.
pub adjudicate_commitment :
    ClaimContext → Option CommitmentFacts → Claim → GuaranteeRecord → Decision
adjudicate_commitment ctx none c g = cover ctx c g
adjudicate_commitment ctx (some cm) c g =
    if window_closed ctx cm
    then deny ctx "CLAIM_WINDOW_CLOSED"
    else if overrode cm.voided_at cm.lifecycle
    then deny ctx "PRINCIPAL_OVERRODE_REFUSAL"
    else cover ctx c g

pub adjudicate_guarantee : ClaimContext → Option GuaranteeRecord → Claim → Decision
adjudicate_guarantee ctx none c = deny ctx "CLAIM_NO_GUARANTEE"
adjudicate_guarantee ctx (some g) c =
    if not (g.beneficiary == c.claimant)
    then deny ctx "CLAIM_NOT_BENEFICIARY"
    else if is_released g.status
    then deny ctx "CLAIM_GUARANTEE_RELEASED"
    else if not (includes perils c.peril)
    then deny ctx "CLAIM_PERIL_NOT_IN_SCOPE"
    else adjudicate_commitment ctx ctx.commitment c g

unfoldable pub adjudicate : Claim → ClaimContext → Decision
unfolding adjudicate_guarantee adjudicate_commitment window_closed overrode
adjudicate c ctx = adjudicate_guarantee ctx ctx.guarantee c

-- `claim_id` is the identifier that the source draws at random.
unfoldable pub new_claim : String → ClaimInput → ℕ → Claim
new_claim claim_id input now = record {
  claim_id = claim_id;
  guarantee_id = input.guarantee_id;
  commitment_id = input.commitment_id;
  claimant = input.claimant;
  peril = input.peril;
  amount = input.amount;
  filed_at = now;
  status = filed;
  decision = none;
  paid_at = none;
}

unfoldable pub reserve_available : Reserve → ℤ
reserve_available r = sub_ℕ (r.initial_capital + r.premiums) r.payouts
