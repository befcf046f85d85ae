-- ===== src/Protocol/Insurance.antt =====
-- An insurer's own word and the renewal it may need: `coverageAssuredThrough`, `renewalWindow` and
-- `satisfiesRenewal` of src/protocol/registry.ts. A point in time is its number of milliseconds, later than
-- any notice period after 1970, so that nothing is cut off at 0.
use agentic_freight_venue.Common.{
  ℕ, ◌+◌, ◌-◌, ◌*◌, ◌≤◌, ◌≡◌, ◌↔◌, Bool, true, false, ◌&&◌, Option, none, some, String, leb, refl,
  inl, inr, Option-cases, if◌then◌else◌, ltb, arith,
}
use mathlib.Core.Option.{some-injective}

abbrev pub day_ms : ℕ
day_ms = 86400000

-- The insurer, the key it signed under, when, its notice period, and a cancellation it disclosed.
pub record InsurerAttestation : Type 0 where
  pub insurer_id : String
  pub kid : String
  pub as_of : ℕ
  pub notice_days : ℕ
  pub cancellation : Option ℕ

unfoldable pub coverage_assured_through : InsurerAttestation → ℕ
coverage_assured_through a =
    let statutory = a.as_of + a.notice_days * day_ms in
    elim a.cancellation [
      | none ↦ statutory
      | some effective ↦ if ltb effective statutory then effective else statutory
    ]

pub record RenewalWindow : Type 0 where
  pub assured_through : Option ℕ
  pub reaches_delivery : Bool
  pub earliest_signed_at : ℕ
  pub due_by : ℕ
  pub possible : Bool

-- `onFile?.noticeDays ?? 30`
abbrev pub notice_of : Option InsurerAttestation → ℕ
notice_of none = 30
notice_of (some a) = a.notice_days

abbrev pub assured : Option InsurerAttestation → Option ℕ
assured none = none
assured (some a) = some (coverage_assured_through a)

abbrev reaches : Option ℕ → ℕ → Bool
reaches none delivery = false
reaches (some until) delivery = leb delivery until

unfoldable pub renewal_window : Option InsurerAttestation → ℕ → ℕ → RenewalWindow
renewal_window on_file pickup delivery = record {
  assured_through = assured on_file;
  reaches_delivery = reaches (assured on_file) delivery;
  earliest_signed_at = delivery - notice_of on_file * day_ms;
  due_by = pickup;
  possible = leb (delivery - notice_of on_file * day_ms) pickup;
}

unfoldable pub satisfies_renewal : InsurerAttestation → RenewalWindow → ℕ → Bool
satisfies_renewal a w delivery =
    leb w.earliest_signed_at a.as_of && leb delivery (coverage_assured_through a)

assured-reaches :
    (word : InsurerAttestation) (delivery : ℕ)
    → (delivery ≤ coverage_assured_through word) ↔ (
        (delivery ≤ word.as_of + word.notice_days * day_ms)
        × ((effective : ℕ) → word.cancellation ≡ some effective → delivery ≤ effective))
unfolding coverage_assured_through
assured-reaches word delivery = elim (Option-cases (word.cancellation)) [
  | inl whole ↦ rw (whole, coverage_assured_through) ((λ h. (h, λ effective e. cc)), λ h. h.0)
  | inr (at, is) ↦
      rw (is, coverage_assured_through)
        (
          (λ h. (ground arith, λ effective e. let same = some-injective _ _ e in ground arith)),
          λ (long, early). (let near = early at refl in ground arith),
        )
]

-- What a renewal must be. An insurer's word satisfies the condition exactly if the delivery is within the
-- notice period on file of its signing, within its own notice period, and no later than a cancellation that
-- it discloses. And the window says that a renewal is possible exactly if some word with the notice period on
-- file, signed no later than pickup and without a cancellation, would satisfy the condition.
pub satisfies_renewal_iff :
    (on_file : Option InsurerAttestation) (word : InsurerAttestation) (pickup delivery : ℕ)
    → let w = renewal_window on_file pickup delivery in
      ((satisfies_renewal word w delivery ≡ true) ↔ (
        (delivery ≤ word.as_of + notice_of on_file * day_ms)
        × (delivery ≤ word.as_of + word.notice_days * day_ms)
        × ((effective : ℕ) → word.cancellation ≡ some effective → delivery ≤ effective)))
      × ((w.possible ≡ true) ↔ (
          (a : InsurerAttestation) × (a.cancellation ≡ none)
          × (a.notice_days ≡ notice_of on_file)
          × (a.as_of ≤ pickup)
          × (satisfies_renewal a w delivery ≡ true)))
unfolding satisfies_renewal renewal_window
satisfies_renewal_iff on_file word pickup delivery =
    let reach = assured-reaches word delivery in
    (
      (
        λ h. let (long, early) = reach.0 (ground arith) in (ground arith, long, early),
        λ (filed, long, early). (let far = reach.1 (long, early) in ground arith),
      ),
      (
        λ h.
            let a : InsurerAttestation = record {
              insurer_id = "";
              kid = "";
              as_of = pickup;
              notice_days = notice_of on_file;
              cancellation = none;
            } in
            let far = (assured-reaches a delivery).1 (ground arith, λ effective e. cc) in
            (a, refl, refl, omega arith, ground arith),
        λ (a, whole, same, early, h). ground arith,
      ),
    )
