-- ===== src/Mandate/Exposure.antt =====
-- The exposure book of src/mandate/exposure.ts: committed money by counterparty and by day, with
-- the references already applied. The file behind it is a copy of this state and is left out.
-- Amounts are in cents and never negative, so `Math.max(0, a - b)` is subtraction on ℕ.
pub mod Once
pub mod Accounts
use Prim.Native.String
use agentic_freight_venue.Common.{
  ℕ, ◌+◌, ◌-◌, Bool, true, false, Option, none, some, List, [], ◌∷◌, ◌++◌, String, string_eq, ◌==◌,
  if◌then◌else◌, includes, Keyed, lookup, insert, or_else,
}

pub record Account : Type 0 where
  pub outstanding : ℕ
  pub count : ℕ

pub record ExposureBook : Type 0 where
  pub by_counterparty : Keyed Account
  pub by_day : Keyed ℕ
  pub applied : List String

abbrev pub empty_book : ExposureBook
empty_book = record { by_counterparty = []; by_day = []; applied = [] }

-- `add:${ref}` and `release:${ref}`; an absent or empty `ref` gives no key.
abbrev pub tagged : String → Option String → Option String
tagged tag none = none
tagged tag (some ref) = if ref == "" then none else some (String.◌++◌ tag ref)

-- `once`: whether to go on, and the book with the key noted.
pub once : Option String → ExposureBook → Bool × ExposureBook
once none b = (true, b)
once (some key) b =
    if includes b.applied key
    then (false, b)
    else (true, record b { applied = b.applied ++ key ∷ [] })

-- `if (!this.once(key)) return;` before a body.
abbrev pub if_new : Option String → (ExposureBook → ExposureBook) → ExposureBook → ExposureBook
if_new key body b = let (go, b') = once key b in if go then body b' else b'

pub has_applied : String → ExposureBook → Bool
has_applied key b = includes b.applied key

abbrev no_account : Account
no_account = record { outstanding = 0; count = 0 }

unfoldable pub outstanding : String → ExposureBook → ℕ
outstanding cp b = (or_else (lookup cp b.by_counterparty) no_account).outstanding

unfoldable pub daily : String → ExposureBook → ℕ
daily day b = or_else (lookup day b.by_day) 0

-- The body of `add` behind its `once` guard.
pub charge : String → ℕ → String → ExposureBook → ExposureBook
charge cp amount day b =
    let c = or_else (lookup cp b.by_counterparty) no_account in
    record b {
      by_counterparty =
          insert cp (record { outstanding = c.outstanding + amount; count = c.count + 1 })
            b.by_counterparty;
      by_day = insert day (or_else (lookup day b.by_day) 0 + amount) b.by_day;
    }

unfoldable pub add : String → ℕ → String → Option String → ExposureBook → ExposureBook
unfolding once charge
add cp amount day ref b = if_new (tagged "add:" ref) (charge cp amount day) b

abbrev lowered : ℕ → Option Account → String → Keyed Account → Keyed Account
lowered amount none cp m = m
lowered amount (some c) cp m =
    insert cp (record { outstanding = c.outstanding - amount; count = c.count - 1 }) m

-- The body of `release` behind its `once` guard.
pub discharge : String → ℕ → String → ExposureBook → ExposureBook
discharge cp amount day b = record b {
  by_counterparty = lowered amount (lookup cp b.by_counterparty) cp b.by_counterparty;
  by_day = insert day (or_else (lookup day b.by_day) 0 - amount) b.by_day;
}

unfoldable pub release : String → ℕ → String → Option String → ExposureBook → ExposureBook
unfolding once discharge
release cp amount day ref b = if_new (tagged "release:" ref) (discharge cp amount day) b
