-- ===== src/Underwriting/Settlement.antt =====
-- Claims against the guarantee, from src/underwriting/engine.ts: filing, deciding and paying them.
-- A claim that the source changes in place inside its map is written back under its identifier.
pub mod Solvency
pub mod Twice
use Prim.Native.String
use agentic_freight_venue.Common.{
  ℕ, ◌+◌, min, Bool, true, false, not, ◌&&◌, ◌||◌, Option, none, some, List, [], ◌∷◌, String,
  string_eq, ◌==◌, if◌then◌else◌, leb, Keyed, lookup, insert, values, any, or_else, ℤ, pos, ◌+ℤ◌,
  ltb_ℤ, clip,
}
use agentic_freight_venue.Underwriting.Types.{CounterpartyHistory}
use agentic_freight_venue.Underwriting.Claims.{
  ClaimStatus, filed, covered, denied, deferred, paid, ops, Decision, Claim, ClaimInput, Reserve,
  GuaranteeRecord, CommitmentFacts, adjudicate, new_claim, reserve_available,
}
use agentic_freight_venue.Underwriting.Engine.{
  Underwriting, is_claimable, persist, history_for, release,
}

abbrev pub is_paid : ClaimStatus → Bool
is_paid paid = true
is_paid _ = false

abbrev pub is_deferred : ClaimStatus → Bool
is_deferred deferred = true
is_deferred _ = false

-- `FILED` or `DEFERRED`: a claim that keeps its guarantee's window open.
abbrev pub is_pending : ClaimStatus → Bool
is_pending filed = true
is_pending deferred = true
is_pending _ = false

abbrev pub noted_claim : CounterpartyHistory → CounterpartyHistory
noted_claim h = record h { claims_paid = h.claims_paid + 1 }

-- What follows a payment: the counterparty's history, and the guarantee's release.
unfoldable pub after_payment : Claim → ℕ → Underwriting → Underwriting
after_payment c now s = elim (lookup c.guarantee_id s.guarantees) [
  | none ↦ s
  | some g ↦
      release g.guarantee_id (String.◌++◌ "claim " (String.◌++◌ c.claim_id " paid")) now (record s {
        history = insert g.counterparty (noted_claim (history_for g.counterparty s)) s.history;
      })
]

-- The reserve after a payout.
abbrev pub paid_out : ℕ → Underwriting → Underwriting
paid_out payout s = record s { reserve = record s.reserve { payouts = s.reserve.payouts + payout } }

-- `settle` on a decision that covers.
unfoldable pub settle_covered : Claim → ℕ → ℕ → Underwriting → Claim × Underwriting
settle_covered c payout now s =
    if ltb_ℤ (reserve_available s.reserve) (pos payout)
    then (record c { status = deferred }, s)
    else (record c { status = paid; paid_at = some now }, after_payment c now (paid_out payout s))

unfoldable pub settle : Claim → ℕ → Underwriting → Claim × Underwriting
settle c now s = elim c.decision [
  | none ↦ (c, s)
  | some d ↦
      if is_paid c.status || not d.is_covered then (c, s) else settle_covered c d.payout now s
]

abbrev pub store : Claim × Underwriting → Underwriting
store (c, s) = record s { claims = insert c.claim_id c s.claims }

-- A decided claim is settled where it is covered, and stored either way.
unfoldable pub conclude : Claim → Decision → ℕ → Underwriting → Claim × Underwriting
conclude c d now s =
    let decided = record c {
      decision = some d;
      status = if d.is_covered then covered else denied;
    } in
    let result = if d.is_covered then settle decided now s else (decided, s) in
    (result.0, persist (store result))

unfoldable pub file_claim :
    String → ClaimInput → Option CommitmentFacts → ℕ → Underwriting → Claim × Underwriting
file_claim claim_id input commitment now s =
    let c = new_claim claim_id input now in
    let d = adjudicate c (record {
      guarantee = lookup input.guarantee_id s.guarantees;
      commitment = commitment;
      now = now;
      window_days = s.params.claim_window_days;
    }) in
    conclude c d now s

-- What an adjudicator decides by hand.
pub record OpsDecision : Type 0 where
  pub is_covered : Bool
  pub reason_code : Option String
  pub payout : Option ℕ

abbrev pub cover_of : Option GuaranteeRecord → ℕ
cover_of none = 0
cover_of (some g) = g.covered_amount

abbrev pub ops_decision : Claim → OpsDecision → ℕ → Underwriting → Decision
ops_decision c d now s = record {
  is_covered = d.is_covered;
  reason_code = d.reason_code;
  payout =
      if d.is_covered
      then min (or_else d.payout c.amount) (cover_of (lookup c.guarantee_id s.guarantees))
      else 0;
  decided_at = now;
  decided_by = ops;
}

unfoldable pub decide_claim : String → OpsDecision → ℕ → Underwriting → Underwriting
decide_claim claim_id d now s = elim (lookup claim_id s.claims) [
  | none ↦ s
  | some c ↦ if is_paid c.status then s else (conclude c (ops_decision c d now s) now s).1
]

-- The loop of `settleDeferred` over the claims that there were at its start.
unfoldable pub settle_each : List Claim → ℕ → Underwriting → List Claim × Underwriting
settle_each [] now s = ([], s)
settle_each (c ∷ cs) now s =
    let (c', s') = if is_deferred c.status then settle c now s else (c, s) in
    let (settled, s'') = settle_each cs now (store (c', s')) in
    (if is_deferred c.status && is_paid c'.status then c' ∷ settled else settled, s'')

-- `if (paid.length) this.persist()`
abbrev pub persist_any : List Claim → Underwriting → Underwriting
persist_any [] s = s
persist_any (_ ∷ _) s = persist s

unfoldable pub settle_deferred : ℕ → Underwriting → List Claim × Underwriting
settle_deferred now s =
    let (settled, s') = settle_each (values s.claims) now s in (settled, persist_any settled s')

unfoldable pub adjust_disputes : String → ℤ → Underwriting → Underwriting
adjust_disputes usdot delta s =
    let h = history_for usdot s in
    persist (record s {
      history =
          insert usdot (record h { disputes_open = clip (pos h.disputes_open +ℤ delta) }) s.history;
    })

-- Capital is added: the amount is a number of cents, so a call by which the operator takes capital out, which
-- the source does not refuse, is left out.
unfoldable pub add_capital : ℕ → Underwriting → Underwriting
add_capital amount s = persist (record s {
  reserve = record s.reserve { initial_capital = s.reserve.initial_capital + amount };
})

abbrev pub window_over : Option ℕ → ℕ → Bool
window_over none now = false
window_over (some ends) now = leb ends now

abbrev pub may_expire : GuaranteeRecord → ℕ → Underwriting → Bool
may_expire g now s =
    is_claimable g.status
    && window_over g.window_ends_at now
    && not (any (λ c. c.guarantee_id == g.guarantee_id && is_pending c.status) (values s.claims))

-- The loop of `expireClaimWindows` over the guarantees that there were at its start; it lists the
-- released ones by identifier.
unfoldable pub expire_each : List GuaranteeRecord → ℕ → Underwriting → List String × Underwriting
expire_each [] now s = ([], s)
expire_each (g ∷ gs) now s =
    let over = may_expire g now s in
    let s' = if over then release g.guarantee_id "claim window closed" now s else s in
    let (out, s'') = expire_each gs now s' in (if over then g.guarantee_id ∷ out else out, s'')

unfoldable pub expire_claim_windows : ℕ → Underwriting → List String × Underwriting
expire_claim_windows now s = expire_each (values s.guarantees) now s
