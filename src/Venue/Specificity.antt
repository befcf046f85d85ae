-- ===== src/Venue/Specificity.antt =====
-- Which of the violations of a tender is its reason, and which component refuses it: the order at the end of
-- `startNegotiation` of src/venue/service.ts.
use agentic_freight_venue.Common.{
  ℕ, ◌+◌, ◌∷◌, [], List, Option, none, some, String, string_eq, ◌==◌, if◌then◌else◌, leb, or_else,
  includes,
}
use agentic_freight_venue.Protocol.Reasons.{ReasonCode, reason_name}
use agentic_freight_venue.Protocol.Terms.{prefix}
use agentic_freight_venue.Venue.Moves.{first_violation}

-- The codes from the most specific to the least.
abbrev pub specificity : List String
specificity =
    "DOUBLE_BROKERING_ATTEMPT" ∷ "LOAD_ALREADY_COMMITTED" ∷ "REGISTRY_UNAVAILABLE"
    ∷ "NO_BROKERAGE_AUTHORITY" ∷ "INSURANCE_LAPSED" ∷ "INSURANCE_CANCELLATION_PENDING"
    ∷ "INSURANCE_BELOW_MINIMUM" ∷ "AUTHORITY_NOT_ACTIVE" ∷ "CREDENTIAL_REVOKED"
    ∷ "CREDENTIAL_EXPIRED" ∷ "COUNTERPARTY_UNVERIFIED" ∷ "INSURER_FALSE_ATTESTATION"
    ∷ "MANDATE_INSURER_UNDERTAKING_REQUIRED" ∷ "MANDATE_INSURER_ATTESTATION_REQUIRED"
    ∷ "MANDATE_RATE_ABOVE_CEILING" ∷ "MANDATE_RATE_BELOW_FLOOR" ∷ "MANDATE_LANE_NOT_APPROVED"
    ∷ "MANDATE_EQUIPMENT_NOT_APPROVED" ∷ []

-- `names.indexOf(name)`
abbrev pub index_of : String → List String → Option ℕ
index_of name [] = none
index_of name (n ∷ ns) =
    if n == name then some 0 else elim (index_of name ns) [ none ↦ none | some i ↦ some (i + 1) ]

unfoldable pub rank : ReasonCode → ℕ
rank code = or_else (index_of (reason_name code) specificity) 99

-- A stable sort by rank.
abbrev pub placed : ReasonCode → List ReasonCode → List ReasonCode
placed code [] = code ∷ []
placed code (c ∷ cs) = if leb (rank code) (rank c) then code ∷ c ∷ cs else c ∷ placed code cs

abbrev pub by_rank : List ReasonCode → List ReasonCode
by_rank [] = []
by_rank (c ∷ cs) = placed c (by_rank cs)

unfoldable pub primary : List ReasonCode → ReasonCode
primary codes = first_violation (by_rank codes)

abbrev pub refusing_component : ReasonCode → String
refusing_component code =
    if prefix 8 (reason_name code) == "MANDATE_"
    then "venue.mandate"
    else if includes
        ("DOUBLE_BROKERING_ATTEMPT" ∷ "COUNTERPARTY_UNVERIFIED" ∷ "NO_BROKERAGE_AUTHORITY"
          ∷ "LOAD_ALREADY_COMMITTED" ∷ [])
        (reason_name code)
    then "venue.routing"
    else "venue.identity"
