-- ===== src/Mandate/Engine/Permits.antt =====
-- What a mandate permits, stated without the engine, and the engine's verdict against it.
use agentic_freight_venue.Common.{
  ℕ, ◌≤◌, ◌≡◌, refl, ◌↔◌, Bool, true, false, not, ◌&&◌, Option, List, [], ◌∷◌, Has, arith, ltb,
}
use agentic_freight_venue.Protocol.Reasons.{ReasonCode}
use agentic_freight_venue.Mandate.Limits.{
  MandateLimits, Proposal, AcceptFacts, MandateAction, offer, accept,
}
use agentic_freight_venue.Mandate.Exposure.{ExposureBook}
use agentic_freight_venue.Mandate.Engine.{
  is_tender, proposal, common_violations, accept_violations, evaluate_mandate, is_empty,
}
use agentic_freight_venue.Mandate.Engine.Checks.{
  flag_iff, both_iff, RateWithin, LaneListed, lane_approved_iff, InsurerSatisfied, WithinCaps,
  insurer-eq-nil_iff, exposure-eq-nil_iff, rate-eq-nil_iff, equipment_refused_iff,
  terms_refused_iff,
}

-- What every action must meet.
pub record Proposable (l : MandateLimits) (a : MandateAction) : Type 0 where
  pub rate : RateWithin l (proposal a)
  pub lane :
      LaneListed l.allowed_lane_regions (proposal a).origin_state (proposal a).destination_state
  pub equipment : Has (proposal a).equipment l.allowed_equipment
  pub hazmat : (proposal a).hazmat ≡ true → l.hazmat_permitted ≡ true
  pub tender : is_tender a ≡ true → l.may_tender ≡ true
  pub rounds : (proposal a).round ≤ l.max_negotiation_rounds
  pub shortest : l.payment_terms_days.least ≤ (proposal a).payment_terms_days
  pub longest : (proposal a).payment_terms_days ≤ l.payment_terms_days.most

-- What an acceptance must meet besides.
pub record Acceptable (l : MandateLimits) (f : AcceptFacts) (p : Proposal) (b : Option ExposureBook)
    : Type 0 where
  pub insured : l.required_counterparty_insurance ≤ f.counterparty_insurance
  pub guaranteed : l.require_guarantee ≡ true → f.guarantee_available ≡ true
  pub insurer : InsurerSatisfied l f
  pub exposed : WithinCaps l f p b

abbrev pub AcceptableIfAccept : MandateLimits → MandateAction → Option ExposureBook → Type 0
AcceptableIfAccept l (offer _ _) b = Unit
AcceptableIfAccept l (accept f p) b = Acceptable l f p b

abbrev pub Permits : MandateLimits → MandateAction → Option ExposureBook → Type 0
Permits l a b = Proposable l a × AcceptableIfAccept l a b

at_most_test : (n m : ℕ) → (ltb m n ≡ false) ↔ (n ≤ m)
at_most_test n m = ground arith

implies_test : (a b : Bool) → ((a && not b) ≡ false) ↔ (a ≡ true → b ≡ true)
implies_test true true = ((λ _ _. refl), λ _. refl)
implies_test true false = ((λ h. cc), λ h. cc (h refl))
implies_test false b = ((λ _ h. cc), λ _. refl)

not_test : (b : Bool) → (not b ≡ false) ↔ (b ≡ true)
not_test true = ground arith
not_test false = ground arith

trans_iff {ℓ κ μ} : {P : Type ℓ} {Q : Type κ} {R : Type μ} → P ↔ Q → Q ↔ R → P ↔ R
trans_iff e f = ((λ p. f.0 (e.0 p)), λ r. e.1 (f.1 r))

common-eq-nil_iff :
    (l : MandateLimits) (a : MandateAction) → (common_violations l a ≡ []) ↔ Proposable l a
unfolding common_violations
common-eq-nil_iff l a =
    let p = proposal a in
    let e =
      both_iff _ _
        (both_iff _ _
          (both_iff _ _
            (both_iff _ _
              (both_iff _ _ (rate-eq-nil_iff l p)
                (flag_iff _ _ (trans_iff (not_test _) (lane_approved_iff _ _ _))))
              (flag_iff _ _ (equipment_refused_iff l p)))
            (flag_iff _ _ (implies_test (is_tender a) l.may_tender)))
          (flag_iff _ _ (at_most_test p.round l.max_negotiation_rounds)))
        (flag_iff _ _ (terms_refused_iff l p)) in
    (
      λ h.
          let (((((r, n), q), t), k), m) = e.0 h in
          record {
            rate = r;
            lane = n;
            equipment = q.0;
            hazmat = q.1;
            tender = t;
            rounds = k;
            shortest = m.0;
            longest = m.1;
          },
      λ r. e.1 (
        ((((r.rate, r.lane), (r.equipment, r.hazmat)), r.tender), r.rounds),
        (r.shortest, r.longest),
      ),
    )

accept-eq-nil_iff :
    (l : MandateLimits) (a : MandateAction) (b : Option ExposureBook)
    → (accept_violations l a b ≡ []) ↔ AcceptableIfAccept l a b
unfolding accept_violations
accept-eq-nil_iff l (offer _ _) b = ((λ _. tt), λ _. refl)
accept-eq-nil_iff l (accept f p) b =
    let e =
      both_iff _ _
        (both_iff _ _
          (both_iff _ _
            (flag_iff _ _ (at_most_test l.required_counterparty_insurance f.counterparty_insurance))
            (flag_iff _ _ (implies_test l.require_guarantee f.guarantee_available)))
          (insurer-eq-nil_iff l f))
        (exposure-eq-nil_iff l f p b) in
    (
      λ h.
          let (((i, g), s), x) = e.0 h in
          record { insured = i; guaranteed = g; insurer = s; exposed = x },
      λ r. e.1 (((r.insured, r.guaranteed), r.insurer), r.exposed),
    )

is_empty_iff : (xs : List ReasonCode) → (is_empty xs ≡ true) ↔ (xs ≡ [])
is_empty_iff [] = ((λ _. refl), λ _. refl)
is_empty_iff (x ∷ xs) = ((λ h. cc), λ h. cc)

-- The engine allows an action exactly when the mandate permits it: the rate lies within every bound
-- given, per load and per mile; both ends of the lane are listed; the equipment is approved, and
-- hazardous goods only where permitted; a tender, the round and the payment terms are within the
-- limits; and an acceptance also meets the insurance, guarantee, insurer and exposure conditions.
pub allowed_iff :
    (l : MandateLimits) (a : MandateAction) (b : Option ExposureBook)
    → ((evaluate_mandate l a b).allowed ≡ true) ↔ Permits l a b
unfolding evaluate_mandate
allowed_iff l a b =
    trans_iff (is_empty_iff _) (both_iff _ _ (common-eq-nil_iff l a) (accept-eq-nil_iff l a b))
