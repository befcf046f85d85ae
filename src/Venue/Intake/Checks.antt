-- ===== src/Venue/Intake/Checks.antt =====
-- Each check of `startNegotiation` of src/venue/service.ts that found no violation was passed.
use agentic_freight_venue.Common.{
  ℕ, ◌≡◌, refl, subst, inl, inr, Bool, true, false, not, Option, none, some, List, [], ◌∷◌, ◌++◌,
  String, string_eq, lookup, Has, append-eq-nil_iff, arith,
}
use agentic_freight_venue.Protocol.Reasons.{ReasonCode}
use agentic_freight_venue.Protocol.Canonical.{Primitives}
use agentic_freight_venue.Mandate.Limits.{EnvelopeLimits}
use agentic_freight_venue.Mandate.Engine.{flag, evaluate_mandate}
use agentic_freight_venue.Venue.Task.{RegisteredAgent}
use agentic_freight_venue.Venue.State.{CommitmentRecord, Venue}
use agentic_freight_venue.Venue.Standing.{Credential, LiveCheck, Standing}
use agentic_freight_venue.Venue.Prepare.{requires_insurer}
use agentic_freight_venue.Venue.Intake.{
  Tender, Counterparty, unregistered, unverified, verified, tender_verdict, offer_violations,
  double_brokers, double_brokering, recommitted, sender_violations, failed_check,
  counterparty_violations, falls_short, tender_window, insurer_violations, of_counterparty,
  counterparty,
}

pub flag-unset : (bad : Bool) (code : ReasonCode) → flag bad code ≡ [] → bad ≡ false
flag-unset true code h = cc
flag-unset false code h = refl

split : (xs ys : List ReasonCode) → xs ++ ys ≡ [] → (xs ≡ []) × (ys ≡ [])
split xs ys h = (append-eq-nil_iff xs ys).0 h

pub not-false : (b : Bool) → not b ≡ false → b ≡ true
not-false true h = refl
not-false false h = cc

pub all_empty :
    (a b c d e f g : List ReasonCode)
    → a ++ (b ++ (c ++ (d ++ (e ++ (f ++ g))))) ≡ []
    → (a ≡ []) × (b ≡ []) × (c ≡ []) × (d ≡ []) × (e ≡ []) × (f ≡ []) × (g ≡ [])
all_empty [] [] [] [] [] [] g h = (refl, refl, refl, refl, refl, refl, h)
all_empty (_ ∷ _) b c d e f g h = cc
all_empty [] (_ ∷ _) c d e f g h = cc
all_empty [] [] (_ ∷ _) d e f g h = cc
all_empty [] [] [] (_ ∷ _) e f g h = cc
all_empty [] [] [] [] (_ ∷ _) f g h = cc
all_empty [] [] [] [] [] (_ ∷ _) g h = cc

pub none-double_brokers :
    (sender load_ref fingerprint : String) (c : CommitmentRecord) (cs : List CommitmentRecord)
    → double_brokering sender load_ref fingerprint cs ≡ []
    → Has c cs
    → double_brokers sender load_ref fingerprint c ≡ false
unfolding double_brokering
none-double_brokers sender r f c [] h has = absurd has
none-double_brokers sender r f c (c' ∷ cs) h has =
    let two = split (flag (double_brokers sender r f c') _) (double_brokering sender r f cs) h in
    elim has [
      | inl e ↦ subst (λ k. double_brokers sender r f k ≡ false) e (flag-unset _ _ two.0)
      | inr later ↦ none-double_brokers sender r f c cs two.1 later
    ]

pub not_recommitted : (o : Option CommitmentRecord) → recommitted o ≡ [] → o ≡ none
unfolding recommitted
not_recommitted none h = refl
not_recommitted (some c) h = cc

pub sender-stands :
    (live : LiveCheck)
    → sender_violations true live ≡ []
    → (live.reason_code ≡ none) × (live.broker_authority ≡ true)
unfolding sender_violations
sender-stands live h = grind arith

none-failed : (o : Option ReasonCode) → failed_check o ≡ [] → o ≡ none
none-failed none h = refl
none-failed (some code) h = cc

pub counterparty-verified :
    (p : Counterparty)
    → counterparty_violations true p ≡ []
    → (cp : RegisteredAgent) × (c : Credential) × (live : LiveCheck) × (p ≡ verified cp c live)
      × (live.reason_code ≡ none)
      × (c.is_broker ≡ false)
unfolding counterparty_violations
counterparty-verified unregistered h = cc
counterparty-verified (unverified code) h = cc
counterparty-verified (verified cp c live) h =
    let two = split (failed_check live.reason_code) (flag c.is_broker _) h in
    (cp, c, live, refl, none-failed _ two.0, flag-unset _ _ two.1)

pub offer-allowed :
    (e : EnvelopeLimits) (d : Tender)
    → offer_violations (some e) d ≡ []
    → (tender_verdict e d).allowed ≡ true
unfolding offer_violations evaluate_mandate
offer-allowed e d h = rw h refl

module _ (x : Primitives) (normalized : String → String) (date : String → ℕ) where
  pub insurer-lasts :
      (e : EnvelopeLimits) (d : Tender) (cp : RegisteredAgent) (c : Credential) (live : LiveCheck)
      → insurer_violations x normalized date true (some e) d (verified cp c live) ≡ []
      → requires_insurer (some e) ≡ true
      → (live.insurer_false ≡ false)
        × (falls_short (tender_window x normalized date d cp live) ≡ false)
  unfolding insurer_violations
  insurer-lasts e d cp c live h needs = grind arith

  pub counterparty-found :
      (w : Standing) (sender : RegisteredAgent) (d : Tender) (v : Venue) (cp : RegisteredAgent)
      (c : Credential) (live : LiveCheck)
      → counterparty x normalized date w sender d v ≡ verified cp c live
      → (lookup d.to v.agents ≡ some cp)
        × (w.credential cp.credential_id ≡ some c)
        × (w.verdict c ≡ none)
        × (live ≡ w.live c (of_counterparty x normalized date sender.envelope d))
  unfolding counterparty
  counterparty-found w sender d v cp c live h = ground arith
