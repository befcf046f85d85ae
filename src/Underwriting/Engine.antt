-- ===== src/Underwriting/Engine.antt =====
-- The underwriting engine of src/underwriting/engine.ts as a state and its methods. The files behind
-- it are copies of this state. A random identifier and the current time are arguments. A method that
-- the source runs for its effect returns the new state.
pub mod Totals
pub mod Keys
pub mod Applied
pub mod Agreement
pub mod Preserved
use Prim.Native.String
use agentic_freight_venue.Common.{
  ℕ, ◌+◌, ◌*◌, min, Bool, true, false, not, ◌&&◌, ◌||◌, Option, none, some, List, [], ◌∷◌, ◌++◌,
  String, string_eq, ◌==◌, if◌then◌else◌, ltb, leb, Keyed, lookup, insert, values, find, any, sum,
  or_else, ℤ, pos, ◌+ℤ◌, ◌-ℤ◌, ltb_ℤ, clip,
}
use agentic_freight_venue.Protocol.Reasons.{
  ReasonCode, guarantee_not_offered, underwriting_declined_risk, venue_exposure_limit_exceeded,
  venue_portfolio_limit_exceeded,
}
use agentic_freight_venue.Mandate.Exposure.{
  ExposureBook, empty_book, outstanding, add, release as release_book,
}
use agentic_freight_venue.Mandate.Engine.{day_ms}
use agentic_freight_venue.Underwriting.Types.{
  CounterpartyHistory, RiskInputs, RiskAssessment, UnderwritingParams,
}
use agentic_freight_venue.Underwriting.Model.{assess_risk, price_premium}
use agentic_freight_venue.Underwriting.Claims.{
  GuaranteeStatus, attached, released, claimable, ClaimStatus, filed, covered, denied, deferred,
  paid, ops, Decision, Claim, ClaimInput, Reserve, GuaranteeRecord, CommitmentFacts, is_released,
  adjudicate, new_claim, reserve_available,
}

pub record Underwriting : Type 0 where
  pub params : UnderwritingParams
  pub counterparty : ExposureBook
  pub pair : ExposureBook
  pub claims : Keyed Claim
  pub reserve : Reserve
  pub portfolio : ℤ
  pub guarantees : Keyed GuaranteeRecord
  pub history : Keyed CounterpartyHistory

abbrev pub is_attached : GuaranteeStatus → Bool
is_attached attached = true
is_attached _ = false

abbrev pub is_claimable : GuaranteeStatus → Bool
is_claimable claimable = true
is_claimable _ = false

-- What a guarantee still exposes the venue to.
abbrev pub open_amount : GuaranteeRecord → ℕ
open_amount g = if is_released g.status then 0 else g.covered_amount

-- `persist`: the reserve's exposure is recomputed from the guarantees.
abbrev pub persist : Underwriting → Underwriting
persist s = record s {
  reserve = record s.reserve { exposure = sum open_amount (values s.guarantees) };
}

abbrev pub attached_amount : GuaranteeRecord → ℕ
attached_amount g = if is_attached g.status then g.covered_amount else 0

-- The constructor over files that are there: the portfolio is summed anew.
unfoldable pub restart : Underwriting → Underwriting
restart s = record s { portfolio = pos (sum attached_amount (values s.guarantees)) }

-- The constructor over an empty directory.
unfoldable pub fresh : UnderwritingParams → Underwriting
fresh params = record {
  params = params;
  counterparty = empty_book;
  pair = empty_book;
  claims = [];
  reserve = record {
    initial_capital = params.initial_capital;
    premiums = 0;
    payouts = 0;
    exposure = 0;
  };
  portfolio = pos 0;
  guarantees = [];
  history = [];
}

abbrev pub no_history : CounterpartyHistory
no_history = record {
  loads_committed = 0;
  loads_completed = 0;
  claims_paid = 0;
  disputes_open = 0;
  first_load_at = none;
  last_load_at = none;
}

unfoldable pub history_for : String → Underwriting → CounterpartyHistory
history_for usdot s = or_else (lookup usdot s.history) no_history

abbrev pub pair_key : String → String → String
pair_key beneficiary counterparty = String.◌++◌ beneficiary (String.◌++◌ "|" counterparty)

-- What a commitment hands to `attach`.
pub record QuotedGuarantee : Type 0 where
  pub guarantee_id : String
  pub counterparty : String
  pub beneficiary : String
  pub covered_amount : ℕ
  pub premium : ℕ
  pub day : String

unfoldable pub guarantee_for_commitment : String → Underwriting → Option GuaranteeRecord
guarantee_for_commitment commitment_id s =
    find (λ g. g.commitment_id == commitment_id) (values s.guarantees)

abbrev pub attached_record : QuotedGuarantee → String → ℕ → GuaranteeRecord
attached_record q commitment_id now = record {
  guarantee_id = q.guarantee_id;
  commitment_id = commitment_id;
  counterparty = q.counterparty;
  beneficiary = q.beneficiary;
  covered_amount = q.covered_amount;
  premium = q.premium;
  status = attached;
  attached_at = now;
  released_at = none;
  release_reason = none;
  completed_at = none;
  window_ends_at = none;
  day = q.day;
}

abbrev pub noted_load : ℕ → CounterpartyHistory → CounterpartyHistory
noted_load now h = record h {
  loads_committed = h.loads_committed + 1;
  last_load_at = some now;
  first_load_at = some (or_else h.first_load_at now);
}

-- The part of `attach` behind its test for an existing guarantee.
unfoldable pub attach_new : GuaranteeRecord → ℕ → Underwriting → Underwriting
attach_new g now s =
    let ref = some g.commitment_id in
    persist (record s {
      guarantees = insert g.guarantee_id g s.guarantees;
      counterparty = add g.counterparty g.covered_amount g.day ref s.counterparty;
      pair = add (pair_key g.beneficiary g.counterparty) g.covered_amount g.day ref s.pair;
      portfolio = s.portfolio +ℤ pos g.covered_amount;
      history = insert g.counterparty (noted_load now (history_for g.counterparty s)) s.history;
      reserve = record s.reserve { premiums = s.reserve.premiums + g.premium };
    })

unfoldable pub attach : QuotedGuarantee → String → ℕ → Underwriting → GuaranteeRecord × Underwriting
unfolding attach_new
attach q commitment_id now s = elim (guarantee_for_commitment commitment_id s) [
  | some existing ↦ (existing, s)
  | none ↦ let g = attached_record q commitment_id now in (g, attach_new g now s)
]

-- The part of `release` behind its tests.
unfoldable pub release_open : GuaranteeRecord → String → ℕ → Underwriting → Underwriting
release_open g reason now s =
    let ref = some g.commitment_id in
    persist (record s {
      guarantees =
          insert g.guarantee_id
            (record g { status = released; released_at = some now; release_reason = some reason })
            s.guarantees;
      counterparty = release_book g.counterparty g.covered_amount g.day ref s.counterparty;
      pair = release_book (pair_key g.beneficiary g.counterparty) g.covered_amount g.day ref s.pair;
      portfolio = s.portfolio -ℤ pos g.covered_amount;
    })

unfoldable pub release : String → String → ℕ → Underwriting → Underwriting
unfolding release_open
release guarantee_id reason now s = elim (lookup guarantee_id s.guarantees) [
  | none ↦ s
  | some g ↦ if is_released g.status then s else release_open g reason now s
]

abbrev pub noted_completion : CounterpartyHistory → CounterpartyHistory
noted_completion h = record h { loads_completed = h.loads_completed + 1 }

pub complete_attached : GuaranteeRecord → ℕ → ℕ → Underwriting → Underwriting
complete_attached g delivery_window_end now s = persist (record s {
  guarantees =
      insert g.guarantee_id
        (record g {
          status = claimable;
          completed_at = some now;
          window_ends_at = some (delivery_window_end + s.params.claim_window_days * day_ms);
        })
        s.guarantees;
  history = insert g.counterparty (noted_completion (history_for g.counterparty s)) s.history;
})

unfoldable pub complete : String → ℕ → ℕ → Underwriting → Underwriting
unfolding complete_attached
complete guarantee_id delivery_window_end now s = elim (lookup guarantee_id s.guarantees) [
  | none ↦ s
  | some g ↦ if is_attached g.status then complete_attached g delivery_window_end now s else s
]

-- The simulator's two methods: a history that is set, and an exposure under an identifier and a note.
unfoldable pub seed_history : String → CounterpartyHistory → Underwriting → Underwriting
seed_history usdot h s = persist (record s { history = insert usdot h s.history })

unfoldable pub seed_exposure :
    String
    → String
    → String
    → ℕ
    → String
    → String
    → ℕ
    → Underwriting
    → GuaranteeRecord × Underwriting
seed_exposure guarantee_id counterparty beneficiary amount day note now s =
    let q : QuotedGuarantee = record {
      guarantee_id = guarantee_id;
      counterparty = counterparty;
      beneficiary = beneficiary;
      covered_amount = amount;
      premium = 0;
      day = day;
    } in
    let g = attached_record q (String.◌++◌ "seed:" note) now in
    let ref = some guarantee_id in
    (
      g,
      persist (record s {
        guarantees = insert guarantee_id g s.guarantees;
        counterparty = add counterparty amount day ref s.counterparty;
        pair = add (pair_key beneficiary counterparty) amount day ref s.pair;
        portfolio = s.portfolio +ℤ pos amount;
      }),
    )
