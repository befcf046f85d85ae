-- ===== src/Underwriting/Claims/Coverage.antt =====
-- When a claim is covered, and for how much.
use Prim.Native.Nat.{Ordering}
use Prim.Native.String
use agentic_freight_venue.Common.{
  ℕ, ◌+◌, ◌*◌, ◌≤◌, ◌≡◌, refl, ◌↔◌, ◌≢◌, ◌⊎◌, true, false, Option, none, some, List, [], ◌∷◌,
  Option-cases, inl, inr, String, string_eq, ==_iff, Has, includes_iff, All, any, arith, ◌&&◌,
}
use agentic_freight_venue.Protocol.Freight.{picked_up}
use agentic_freight_venue.Mandate.Engine.{day_ms}
use agentic_freight_venue.Underwriting.Claims.{
  Decision, GuaranteeStatus, released, CommitmentEvent, CommitmentFacts, GuaranteeRecord, Claim,
  ClaimContext, perils, overrode, adjudicate_commitment, adjudicate_guarantee, adjudicate,
  window_closed, is_released, is_picked_up, is_after,
}

-- No pickup has a time that comes after the voiding's in the order of texts.
abbrev pub NoPickupAfter : Option String → List CommitmentEvent → Type 0
NoPickupAfter none es = Unit
NoPickupAfter (some voided) es =
    All (λ e. (e.event ≢ picked_up) ⊎ (String.compare e.at voided ≢ Ordering.gt)) es

abbrev pub CommitmentCovers : ClaimContext → Option CommitmentFacts → Type 0
CommitmentCovers ctx none = Unit
CommitmentCovers ctx (some cm) =
    (ctx.now ≤ cm.delivery_window_end + ctx.window_days * day_ms)
    × NoPickupAfter cm.voided_at cm.lifecycle

-- The claimant is the beneficiary of a guarantee not released, the peril is in scope, and the claim
-- is within its window with no pickup after a void.
abbrev pub Covers : Claim → ClaimContext → Option GuaranteeRecord → Type 0
Covers c ctx none = ⊥
Covers c ctx (some g) =
    (g.beneficiary ≡ c.claimant)
    × (g.status ≢ released)
    × Has c.peril perils
    × CommitmentCovers ctx ctx.commitment

greater_iff :
    (o : Ordering) → (elim o [ Ordering.gt ↦ true | _ ↦ false ] ≡ false) ↔ (o ≢ Ordering.gt)
greater_iff Ordering.lt = ((λ h e. cc e), λ h. refl)
greater_iff Ordering.eq = ((λ h e. cc e), λ h. refl)
greater_iff Ordering.gt = ((λ h. cc h), λ h. absurd (h refl))

is_after_iff : (a b : String) → (is_after a b ≡ false) ↔ (String.compare a b ≢ Ordering.gt)
is_after_iff a b = greater_iff (String.compare a b)

no_late_pickup_iff :
    (voided : String) (es : List CommitmentEvent)
    → (any (λ e. is_picked_up e.event && is_after e.at voided) es ≡ false)
      ↔ All (λ e. (e.event ≢ picked_up) ⊎ (String.compare e.at voided ≢ Ordering.gt)) es
no_late_pickup_iff voided [] = ((λ _. tt), λ _. refl)
no_late_pickup_iff voided (e ∷ es) =
    grind (arith, no_late_pickup_iff voided es, is_after_iff e.at voided)

overrode_iff :
    (v : Option String) (es : List CommitmentEvent) → (overrode v es ≡ false) ↔ NoPickupAfter v es
unfolding overrode
overrode_iff none es = ((λ _. tt), λ _. refl)
overrode_iff (some voided) es = no_late_pickup_iff voided es

released_iff : (s : GuaranteeStatus) → (is_released s ≡ false) ↔ (s ≢ released)
released_iff s = grind arith

commitment_iff :
    (c : Claim) (ctx : ClaimContext) (g : GuaranteeRecord) (cm : Option CommitmentFacts)
    → ((adjudicate_commitment ctx cm c g).is_covered ≡ true) ↔ CommitmentCovers ctx cm
unfolding adjudicate_commitment window_closed
commitment_iff c ctx g none = ((λ _. tt), λ _. refl)
commitment_iff c ctx g (some cm) = ground (arith, overrode_iff cm.voided_at cm.lifecycle)

guarantee_iff :
    (c : Claim) (ctx : ClaimContext) (g : Option GuaranteeRecord)
    → ((adjudicate_guarantee ctx g c).is_covered ≡ true) ↔ Covers c ctx g
unfolding adjudicate_guarantee
guarantee_iff c ctx none = ((λ h. cc), λ h. absurd h)
guarantee_iff c ctx (some g) = ground (
  arith,
  commitment_iff c ctx g ctx.commitment,
  released_iff g.status,
  ==_iff g.beneficiary c.claimant,
  includes_iff perils c.peril,
)

-- The rules cover a claim exactly when the claimant is the beneficiary of a guarantee that is not
-- released, the peril is one of the three in scope, and, where the commitment is known, the claim
-- window has not closed and no pickup has a time whose text comes after that of the voiding.
pub adjudicate-Covers_iff :
    (c : Claim) (ctx : ClaimContext)
    → ((adjudicate c ctx).is_covered ≡ true) ↔ Covers c ctx ctx.guarantee
unfolding adjudicate
adjudicate-Covers_iff c ctx = guarantee_iff c ctx ctx.guarantee

abbrev pub covered_by : Option GuaranteeRecord → ℕ
covered_by none = 0
covered_by (some g) = g.covered_amount

-- What a decision may pay: at most the claim and the cover, and nothing where it denies.
pub record IsCapped (c : Claim) (g : Option GuaranteeRecord) (d : Decision) : Type 0 where
  pub by_claim : d.payout ≤ c.amount
  pub by_cover : d.payout ≤ covered_by g
  pub none_denied : (d.is_covered ≡ true) ⊎ (d.payout ≡ 0)

capped :
    (c : Claim) (ctx : ClaimContext) (g : Option GuaranteeRecord)
    → IsCapped c g (adjudicate_guarantee ctx g c)
unfolding adjudicate
capped c ctx none = ground arith
capped c ctx (some g) = elim (Option-cases ctx.commitment) [
  | inl unknown ↦ rw (unknown, adjudicate_commitment) (ground arith)
  | inr (cm, known) ↦ ground arith
]

-- What the rules pay on a claim is at most the amount claimed and at most the amount that its
-- guarantee covers, and nothing where they deny the claim.
pub adjudicate-IsCapped :
    (c : Claim) (ctx : ClaimContext) → IsCapped c ctx.guarantee (adjudicate c ctx)
unfolding adjudicate
adjudicate-IsCapped c ctx = capped c ctx ctx.guarantee
