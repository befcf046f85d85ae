-- ===== src/Mandate/Exposure/Accounts.antt =====
-- What a charge and a release do to the amounts that the exposure book reports.
use Prim.Native.String
use text.Mathlib.TextEquality.{eq_iff}
use agentic_freight_venue.Common.{
  ℕ, ◌+◌, ◌-◌, ◌≡◌, refl, ◌≢◌, ◌∙◌, false, Option, none, some, String, string_eq, ◌==◌,
  if◌then◌else◌, includes, lookup, arith, lookup-insert, Option-cases, inl, inr,
}
use agentic_freight_venue.Mandate.Exposure.{
  ExposureBook, once, if_new, outstanding, daily, charge, discharge, add, release,
}
use agentic_freight_venue.Mandate.Exposure.Once.{
  tagged-some, includes-concat, add-ne-release, charge-applied, discharge-applied,
}

-- The amount that a key gains: all of it under its own key, nothing under another.
abbrev pub at : String → String → ℕ → ℕ
at key k amount = if key == k then amount else 0

outstanding-charge :
    (k cp day : String) (a : ℕ) (b : ExposureBook)
    → outstanding k (charge cp a day b) ≡ outstanding k b + at cp k a
unfolding outstanding charge
outstanding-charge k cp day a b = rw (lookup-insert, outstanding) (ground (arith, eq_iff cp k))

daily-charge :
    (k cp day : String) (a : ℕ) (b : ExposureBook)
    → daily k (charge cp a day b) ≡ daily k b + at day k a
unfolding daily charge
daily-charge k cp day a b = rw lookup-insert (ground (arith, eq_iff day k))

outstanding-discharge :
    (k cp day : String) (a : ℕ) (b : ExposureBook)
    → outstanding k (discharge cp a day b) ≡ outstanding k b - at cp k a
unfolding outstanding discharge
outstanding-discharge k cp day a b = elim (Option-cases (lookup cp b.by_counterparty)) [
  | inl absent ↦ rw (absent, discharge) (ground (arith, eq_iff cp k))
  | inr (c, found) ↦
      rw (found, discharge) (rw (lookup-insert, outstanding) (ground (arith, eq_iff cp k)))
]

daily-discharge :
    (k cp day : String) (a : ℕ) (b : ExposureBook)
    → daily k (discharge cp a day b) ≡ daily k b - at day k a
unfolding daily discharge
daily-discharge k cp day a b = rw lookup-insert (ground (arith, eq_iff day k))

-- A fresh reference lets the body of `add` or `release` run.
if_new_fresh :
    (key : String) (f : ExposureBook → ExposureBook) (b : ExposureBook)
    → includes b.applied key ≡ false
    → if_new (some key) f b ≡ f (once (some key) b).1
unfolding once
if_new_fresh key f b h = ground arith

once_same :
    (key : Option String) (k : String) (b : ExposureBook)
    → (outstanding k (once key b).1 ≡ outstanding k b) × (daily k (once key b).1 ≡ daily k b)
unfolding once outstanding daily
once_same none k b = (refl, refl)
once_same (some key) k b = ground arith

-- A charge under a fresh reference raises what is outstanding with its counterparty, and what was
-- committed on its day, by its amount, and no other account or day changes.
pub add_fresh :
    (k ref cp day : String) (a : ℕ) (b : ExposureBook)
    → ref ≢ ""
    → includes b.applied (String.◌++◌ "add:" ref) ≡ false
    → (outstanding k (add cp a day (some ref) b) ≡ outstanding k b + at cp k a)
      × (daily k (add cp a day (some ref) b) ≡ daily k b + at day k a)
unfolding add
add_fresh k ref cp day a b named fresh =
    let key = String.◌++◌ "add:" ref in
    rw (tagged-some "add:" ref named, if_new_fresh key (charge cp a day) b fresh)
      (ground (
        arith,
        outstanding-charge k cp day a (once (some key) b).1,
        daily-charge k cp day a (once (some key) b).1,
        once_same (some key) k b,
      ))

pub release_fresh :
    (k ref cp day : String) (a : ℕ) (b : ExposureBook)
    → ref ≢ ""
    → includes b.applied (String.◌++◌ "release:" ref) ≡ false
    → (outstanding k (release cp a day (some ref) b) ≡ outstanding k b - at cp k a)
      × (daily k (release cp a day (some ref) b) ≡ daily k b - at day k a)
unfolding release
release_fresh k ref cp day a b named fresh =
    let key = String.◌++◌ "release:" ref in
    rw (tagged-some "release:" ref named, if_new_fresh key (discharge cp a day) b fresh)
      (ground (
        arith,
        outstanding-discharge k cp day a (once (some key) b).1,
        daily-discharge k cp day a (once (some key) b).1,
        once_same (some key) k b,
      ))

-- Noting one key leaves the others as they were.
once-includes :
    (key j : String) (b : ExposureBook)
    → key ≢ j
    → includes (once (some key) b).1.applied j ≡ includes b.applied j
unfolding once
once-includes key j b h = ground (arith, includes-concat b.applied key j, eq_iff key j)

pub add-includes_ne :
    (ref cp day : String) (a : ℕ) (b : ExposureBook) (j : String)
    → ref ≢ ""
    → String.◌++◌ "add:" ref ≢ j
    → includes (add cp a day (some ref) b).applied j ≡ includes b.applied j
unfolding add
add-includes_ne ref cp day a b j named other = rw (tagged-some "add:" ref named) (
    ground (
      arith,
      once-includes (String.◌++◌ "add:" ref) j b other,
      charge-applied cp day a (once (some (String.◌++◌ "add:" ref)) b).1,
    ))

pub release-includes_ne :
    (ref cp day : String) (a : ℕ) (b : ExposureBook) (j : String)
    → ref ≢ ""
    → String.◌++◌ "release:" ref ≢ j
    → includes (release cp a day (some ref) b).applied j ≡ includes b.applied j
unfolding release
release-includes_ne ref cp day a b j named other = rw (tagged-some "release:" ref named) (
    ground (
      arith,
      once-includes (String.◌++◌ "release:" ref) j b other,
      discharge-applied cp day a (once (some (String.◌++◌ "release:" ref)) b).1,
    ))

-- Under a reference that was never applied, a charge and then its release leave every amount that
-- the book reports as it was.
pub release-add :
    (k ref cp day : String) (a : ℕ) (b : ExposureBook)
    → ref ≢ ""
    → includes b.applied (String.◌++◌ "add:" ref) ≡ false
    → includes b.applied (String.◌++◌ "release:" ref) ≡ false
    → let b' = release cp a day (some ref) (add cp a day (some ref) b) in
      (outstanding k b' ≡ outstanding k b) × (daily k b' ≡ daily k b)
release-add k ref cp day a b named fresh_add fresh_release =
    let c = add cp a day (some ref) b in
    let fresh : includes c.applied (String.◌++◌ "release:" ref) ≡ false =
      add-includes_ne ref cp day a b _ named (add-ne-release ref ref) ∙ fresh_release in
    omega (
      arith,
      add_fresh k ref cp day a b named fresh_add,
      release_fresh k ref cp day a c named fresh,
    )
