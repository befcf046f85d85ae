-- ===== src/Mandate/Engine/Checks.antt =====
-- Each check of the policy engine against the condition it stands for: it adds no violation exactly
-- where the condition holds.
use agentic_freight_venue.Common.{
  ℕ, ◌+◌, ◌*◌, ◌≤◌, ◌<◌, ◌≡◌, refl, ◌↔◌, ◌⊎◌, Bool, true, false, Option, none, some, List, [], ◌∷◌,
  ◌++◌, String, Has, includes_iff, append-eq-nil_iff, arith, or_else, ==_iff, string_eq, not, ltb,
  ap, if◌then◌else◌, ◌&&◌, ◌||◌,
}
use agentic_freight_venue.Protocol.Reasons.{ReasonCode}
use agentic_freight_venue.Mandate.Limits.{equipment_eq, MandateLimits, Proposal, AcceptFacts}
use agentic_freight_venue.Mandate.Exposure.{ExposureBook, outstanding, daily}
use agentic_freight_venue.Mandate.Engine.{
  flag, beyond, per_mile_above, per_mile_below, lane_approved, rate_violations, equipment_refused,
  terms_refused, truthy, day_ms, undertaking, pickup_or_delivery, renewable, attestation_short,
  undertakes, insurer_required, insurer_violations, exposure_violations, lacks_attestation,
}

pub flag-eq-nil_iff : (b : Bool) (c : ReasonCode) → (flag b c ≡ []) ↔ (b ≡ false)
flag-eq-nil_iff true c = ground arith
flag-eq-nil_iff false c = ground arith

pub flag_iff {ℓ} : {P : Type ℓ} (b : Bool) (c : ReasonCode) → (b ≡ false) ↔ P → (flag b c ≡ []) ↔ P
flag_iff b c e = ((λ h. e.0 ((flag-eq-nil_iff b c).0 h)), λ h. (flag-eq-nil_iff b c).1 (e.1 h))

-- Two groups of checks add nothing exactly where both conditions hold.
pub both_iff {ℓ κ} :
    {P : Type ℓ} {Q : Type κ} (xs ys : List ReasonCode)
    → (xs ≡ []) ↔ P
    → (ys ≡ []) ↔ Q
    → (xs ++ ys ≡ []) ↔ (P × Q)
both_iff xs ys p q =
    let e = append-eq-nil_iff xs ys in
    ((λ h. (p.0 (e.0 h).0, q.0 (e.0 h).1)), λ h. e.1 (p.1 h.0, q.1 h.1))

-- A number within an optional bound.
abbrev pub AtMost : Option ℕ → ℕ → Type 0
AtMost none n = Unit
AtMost (some limit) n = n ≤ limit

abbrev pub AtLeast : Option ℕ → ℕ → Type 0
AtLeast none n = Unit
AtLeast (some limit) n = limit ≤ n

-- A load of no miles has no rate per mile that a ceiling could admit.
abbrev pub AtMostPerMile : Option ℕ → Proposal → Type 0
AtMostPerMile none p = Unit
AtMostPerMile (some limit) p = (0 < p.miles) × (p.rate ≤ limit * p.miles)

abbrev pub AtLeastPerMile : Option ℕ → Proposal → Type 0
AtLeastPerMile none p = Unit
AtLeastPerMile (some limit) p = limit * p.miles ≤ p.rate

at_most : (l : Option ℕ) (n : ℕ) → (beyond l (λ limit. ltb limit n) ≡ false) ↔ AtMost l n
at_most none n = ground arith
at_most (some limit) n = ground arith

at_least : (l : Option ℕ) (n : ℕ) → (beyond l (λ limit. ltb n limit) ≡ false) ↔ AtLeast l n
at_least none n = ground arith
at_least (some limit) n = ground arith

at_most_per_mile :
    (l : Option ℕ) (p : Proposal) → (beyond l (per_mile_above p) ≡ false) ↔ AtMostPerMile l p
unfolding per_mile_above
at_most_per_mile none p = ground arith
at_most_per_mile (some limit) p = ground arith

at_least_per_mile :
    (l : Option ℕ) (p : Proposal) → (beyond l (per_mile_below p) ≡ false) ↔ AtLeastPerMile l p
unfolding per_mile_below
at_least_per_mile none p = ground arith
at_least_per_mile (some limit) p = grind arith

pub record RateWithin (l : MandateLimits) (p : Proposal) : Type 0 where
  pub load_ceiling : AtMost l.max_rate_per_load p.rate
  pub mile_ceiling : AtMostPerMile l.max_rate_per_mile p
  pub load_floor : AtLeast l.min_rate_per_load p.rate
  pub mile_floor : AtLeastPerMile l.min_rate_per_mile p

-- Both ends of the lane are listed, where a list is given and not empty.
abbrev pub LaneListed : Option (List String) → String → String → Type 0
LaneListed none o d = Unit
LaneListed (some []) o d = Unit
LaneListed (some (r ∷ rs)) o d = Has o (r ∷ rs) × Has d (r ∷ rs)

pub lane_approved_iff :
    (l : Option (List String)) (o d : String) → (lane_approved l o d ≡ true) ↔ LaneListed l o d
unfolding lane_approved
lane_approved_iff none o d = ground arith
lane_approved_iff (some []) o d = ground arith
lane_approved_iff (some (r ∷ rs)) o d =
    ground (arith, includes_iff (r ∷ rs) o, includes_iff (r ∷ rs) d)

-- The insurer's word reaches delivery, or a renewal signed within its notice still can.
abbrev pub Assured : AcceptFacts → Option ℕ → Option ℕ → Type 0
Assured f none _ = ⊥
Assured f (some assured) none = ⊥
Assured f (some assured) (some delivery) =
    (delivery ≤ assured)
    ⊎ (delivery
        ≤ pickup_or_delivery f.pickup_window_start delivery
          + or_else f.insurance_notice_days 30 * day_ms)

attestation_short_iff :
    (f : AcceptFacts) (a d : Option ℕ) → (attestation_short f a d ≡ false) ↔ Assured f a d
unfolding attestation_short renewable
attestation_short_iff f none d = ground arith
attestation_short_iff f (some a) none = ground arith
attestation_short_iff f (some a) (some d) = ground arith

undertakes_iff : (u : Option String) → (undertakes u ≡ true) ↔ (u ≡ some undertaking)
undertakes_iff none = ((λ h. cc), λ h. cc)
undertakes_iff (some u) =
    ((λ h. ap some ((==_iff u undertaking).0 h)), λ h. (==_iff u undertaking).1 (cc))

pub record InsurerSatisfied (l : MandateLimits) (f : AcceptFacts) : Type 0 where
  pub attested :
      insurer_required l ≡ true → Assured f f.insurance_assured_through f.delivery_window_end
  pub undertaken :
      truthy l.require_insurer_undertaking ≡ true → f.insurer_undertaking ≡ some undertaking

insurer_tests :
    (r s u t : Bool) (x y : ReasonCode)
    → (r ≡ true → s ≡ false)
    → (u ≡ true → t ≡ true)
    → (if r then if s then x ∷ [] else flag (u && not t) y else []) ≡ []
insurer_tests true true u t x y h k = cc (h refl)
insurer_tests true false true t x y h k = rw (k refl)
insurer_tests true false false t x y h k = refl
insurer_tests false s u t x y h k = refl

pub insurer-eq-nil_iff :
    (l : MandateLimits) (f : AcceptFacts) → (insurer_violations l f ≡ []) ↔ InsurerSatisfied l f
unfolding insurer_violations
insurer-eq-nil_iff l f = (
  λ h. record {
    attested = λ r.
        (attestation_short_iff f f.insurance_assured_through f.delivery_window_end).0
          (ground arith);
    undertaken = λ u. (undertakes_iff f.insurer_undertaking).0 (ground arith);
  },
  λ s.
      insurer_tests (insurer_required l) (lacks_attestation f)
        (truthy l.require_insurer_undertaking) (undertakes f.insurer_undertaking) _ _
        (λ r.
          (attestation_short_iff f f.insurance_assured_through f.delivery_window_end).1
            (s.attested r))
        (λ u. (undertakes_iff f.insurer_undertaking).1 (s.undertaken u)),
)

-- Committing the load keeps both exposures of the book within the caps.
abbrev pub WithinCaps : MandateLimits → AcceptFacts → Proposal → Option ExposureBook → Type 0
WithinCaps l f p none = Unit
WithinCaps l f p (some book) =
    (outstanding f.counterparty_usdot book + p.rate ≤ l.max_per_counterparty_exposure)
    × (daily f.day book + p.rate ≤ l.max_daily_exposure)

pub exposure-eq-nil_iff :
    (l : MandateLimits) (f : AcceptFacts) (p : Proposal) (b : Option ExposureBook)
    → (exposure_violations l f p b ≡ []) ↔ WithinCaps l f p b
unfolding exposure_violations
exposure-eq-nil_iff l f p none = ground arith
exposure-eq-nil_iff l f p (some book) = ground arith

pub rate-eq-nil_iff :
    (l : MandateLimits) (p : Proposal) → (rate_violations l p ≡ []) ↔ RateWithin l p
unfolding rate_violations
rate-eq-nil_iff l p =
    let e =
      both_iff _ _
        (both_iff _ _
          (both_iff _ _ (flag_iff _ _ (at_most l.max_rate_per_load p.rate))
            (flag_iff _ _ (at_most_per_mile l.max_rate_per_mile p)))
          (flag_iff _ _ (at_least l.min_rate_per_load p.rate)))
        (flag_iff _ _ (at_least_per_mile l.min_rate_per_mile p)) in
    (
      λ h.
          let (((a, b), c), d) = e.0 h in
          record { load_ceiling = a; mile_ceiling = b; load_floor = c; mile_floor = d },
      λ r. e.1 (((r.load_ceiling, r.mile_ceiling), r.load_floor), r.mile_floor),
    )

equipment_tests :
    (i z m : Bool) → i ≡ true → (z ≡ true → m ≡ true) → (not i || (z && not m)) ≡ false
equipment_tests true true m h k = rw (k refl)
equipment_tests true false m h k = refl
equipment_tests false z m h k = cc

pub equipment_refused_iff :
    (l : MandateLimits) (p : Proposal)
    → (equipment_refused l p ≡ false)
      ↔ (Has p.equipment l.allowed_equipment × (p.hazmat ≡ true → l.hazmat_permitted ≡ true))
unfolding equipment_refused
equipment_refused_iff l p = (
  λ h. ((includes_iff l.allowed_equipment p.equipment).0 (ground arith), λ z. ground arith),
  λ h. equipment_tests _ _ _ ((includes_iff l.allowed_equipment p.equipment).1 h.0) h.1,
)

pub terms_refused_iff :
    (l : MandateLimits) (p : Proposal)
    → (terms_refused l p ≡ false) ↔ (
        (l.payment_terms_days.least ≤ p.payment_terms_days)
        × (p.payment_terms_days ≤ l.payment_terms_days.most))
unfolding terms_refused
terms_refused_iff l p = ground arith
