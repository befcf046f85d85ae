-- ===== src/Venue/Step.antt =====
-- The chains of checks in src/venue/service.ts that end a negotiation by `fail`, and their laws.
use agentic_freight_venue.Common.{
  ◌≡◌, refl, subst, ◌⊎◌, inl, inr, Option, none, some, String, Keyed,
}
use agentic_freight_venue.Protocol.Reasons.{ReasonCode}
use agentic_freight_venue.Protocol.Canonical.{Json}

-- What a step comes to: a refusal that ends the negotiation, with the subject it names; a missing record,
-- on which the source throws; or a value.
pub data Step {ℓ} (A : Type ℓ) : Type ℓ where
  stop : ReasonCode → String → Keyed Json → Option String → Step A
  broken : Step A
  go : A → Step A

infixl 5 ◌>>=◌
abbrev pub ◌>>=◌ {ℓ κ} : {A : Type ℓ} {B : Type κ} → Step A → (A → Step B) → Step B
stop code by evidence subject >>= f = stop code by evidence subject
broken >>= f = broken
go a >>= f = f a

-- `x!`
abbrev pub present {ℓ} : {A : Type ℓ} → Option A → Step A
present none = broken
present (some a) = go a

-- A chain that went through: each step did.
pub >>=-go {ℓ κ} :
    {A : Type ℓ} {B : Type κ} (m : Step A) (f : A → Step B) {b : B}
    → (m >>= f) ≡ go b
    → (a : A) × (m ≡ go a) × (f a ≡ go b)
>>=-go (stop _ _ _ _) f h = cc
>>=-go broken f h = cc
>>=-go (go a) f h = (a, refl, h)

-- The three ends of a step.
pub Step-cases {ℓ} :
    {A : Type ℓ} (m : Step A)
    → ((code : ReasonCode) × (by : String) × (evidence : Keyed Json) × (subject : Option String)
        × (m ≡ stop code by evidence subject))
      ⊎ ((m ≡ broken) ⊎ ((a : A) × (m ≡ go a)))
Step-cases (stop code by evidence subject) = inl (code, by, evidence, subject, refl)
Step-cases broken = inr (inl refl)
Step-cases (go a) = inr (inr (a, refl))

-- What holds of the value of a step, if it has one.
pub data Returns {ℓ κ} {A : Type ℓ} (P : A → Type κ) : Step A → Type (ℓ ⊔ κ) where
  stopped :
      (code : ReasonCode) (by : String) (evidence : Keyed Json) (subject : Option String)
      → Returns P (stop code by evidence subject)
  lost : Returns P broken
  value : (a : A) → P a → Returns P (go a)

pub >>=-Returns {ℓ κ ι} :
    {A : Type ℓ} {B : Type κ} (P : B → Type ι) (m : Step A) (f : A → Step B)
    → ((a : A) → Returns P (f a))
    → Returns P (m >>= f)
>>=-Returns P (stop code by evidence subject) f h = stopped code by evidence subject
>>=-Returns P broken f h = lost
>>=-Returns P (go a) f h = h a

pub Returns-go {ℓ κ} :
    {A : Type ℓ} (P : A → Type κ) (m : Step A) (a : A) → Returns P m → m ≡ go a → P a
Returns-go P _ a (stopped _ _ _ _) e = cc e
Returns-go P _ a lost e = cc e
Returns-go P _ a (value b h) e = subst P (cc e) h
