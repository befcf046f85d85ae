-- ===== src/Underwriting/Run/Agreement.antt =====
-- The books agree with the guarantees after any orderly sequence of calls, and what a restart does.
use agentic_freight_venue.Common.{
  ℕ, ◌+◌, ◌≡◌, refl, sym, ap, ◌≢◌, false, none, List, [], ◌∷◌, String, lookup, values, sum, arith,
  inl, inr, pos, pos_part, Option-cases, Bool-cases, if◌then◌else◌, All, ltb_ℤ, ◌||◌, not,
}
use agentic_freight_venue.Underwriting.Types.{UnderwritingParams}
use agentic_freight_venue.Underwriting.Claims.{Claim, Decision, GuaranteeRecord, reserve_available}
use agentic_freight_venue.Underwriting.Engine.{
  Underwriting, restart, fresh, open_amount, attached_amount, is_claimable,
}
use agentic_freight_venue.Underwriting.Engine.Preserved.{
  IsAgreed, attach-IsAgreed, release-IsAgreed, complete-IsAgreed, fresh-IsAgreed,
}
use agentic_freight_venue.Underwriting.Settlement.{
  after_payment, paid_out, settle_covered, settle, conclude, settle_each, file_claim, decide_claim,
  settle_deferred, adjust_disputes, add_capital, expire_each, expire_claim_windows, persist_any,
  OpsDecision, ops_decision, store, is_deferred, may_expire, is_paid,
}
use agentic_freight_venue.Underwriting.Run.{
  Call, attaches, releases, completes, files, decides, retries, disputes, funds, expires, restarts,
  perform, run,
}

after_payment-IsAgreed :
    (c : Claim) (now : ℕ) (s : Underwriting) → IsAgreed s → IsAgreed (after_payment c now s)
unfolding after_payment
after_payment-IsAgreed c now s h = elim (Option-cases (lookup c.guarantee_id s.guarantees)) [
  | inl unknown ↦ rw (unknown, after_payment) h
  | inr (g, found) ↦ rw (found, after_payment) (release-IsAgreed g.guarantee_id _ now _ h)
]

settle_covered-IsAgreed :
    (c : Claim) (payout now : ℕ) (s : Underwriting)
    → IsAgreed s
    → IsAgreed (settle_covered c payout now s).1
unfolding settle_covered
settle_covered-IsAgreed c payout now s h =
    elim (Bool-cases (ltb_ℤ (reserve_available s.reserve) (pos payout))) [
      | inl short ↦ rw short h
      | inr enough ↦ rw enough (after_payment-IsAgreed c now (paid_out payout s) h)
    ]

settle-IsAgreed :
    (c : Claim) (now : ℕ) (s : Underwriting) → IsAgreed s → IsAgreed (settle c now s).1
unfolding settle
settle-IsAgreed c now s h = elim (Option-cases c.decision) [
  | inl undecided ↦ rw (undecided, settle) h
  | inr (d, decided) ↦ elim (Bool-cases (is_paid c.status || not d.is_covered)) [
    | inl done ↦ rw (decided, settle, done) h
    | inr due ↦ rw (decided, settle, due) (settle_covered-IsAgreed c d.payout now s h)
  ]
]

conclude-IsAgreed :
    (c : Claim) (d : Decision) (now : ℕ) (s : Underwriting)
    → IsAgreed s
    → IsAgreed (conclude c d now s).1
unfolding conclude
conclude-IsAgreed c d now s h = elim (Bool-cases d.is_covered) [
  | inl covers ↦ rw covers (settle-IsAgreed _ now s h)
  | inr denies ↦ rw denies h
]

decide_claim-IsAgreed :
    (id : String) (d : OpsDecision) (now : ℕ) (s : Underwriting)
    → IsAgreed s
    → IsAgreed (decide_claim id d now s)
unfolding decide_claim
decide_claim-IsAgreed id d now s h = elim (Option-cases (lookup id s.claims)) [
  | inl unknown ↦ rw (unknown, decide_claim) h
  | inr (c, found) ↦ elim (Bool-cases (is_paid c.status)) [
    | inl done ↦ rw (found, decide_claim, done) h
    | inr due ↦ rw (found, decide_claim, due) (conclude-IsAgreed c (ops_decision c d now s) now s h)
  ]
]

settle_each-IsAgreed :
    (cs : List Claim) (now : ℕ) (s : Underwriting) → IsAgreed s → IsAgreed (settle_each cs now s).1
unfolding settle_each
settle_each-IsAgreed [] now s h = h
settle_each-IsAgreed (c ∷ cs) now s h = elim (Bool-cases (is_deferred c.status)) [
  | inl waits ↦
      rw waits (settle_each-IsAgreed cs now (store (settle c now s)) (settle-IsAgreed c now s h))
  | inr settled ↦ rw settled (settle_each-IsAgreed cs now (store (c, s)) h)
]

persist_any-IsAgreed :
    (cs : List Claim) (s : Underwriting) → IsAgreed s → IsAgreed (persist_any cs s)
persist_any-IsAgreed [] s h = h
persist_any-IsAgreed (_ ∷ _) s h = h

expire_each-IsAgreed :
    (gs : List GuaranteeRecord) (now : ℕ) (s : Underwriting)
    → IsAgreed s
    → IsAgreed (expire_each gs now s).1
unfolding expire_each
expire_each-IsAgreed [] now s h = h
expire_each-IsAgreed (g ∷ gs) now s h = elim (Bool-cases (may_expire g now s)) [
  | inl over ↦ rw over (expire_each-IsAgreed gs now _ (release-IsAgreed g.guarantee_id _ now s h))
  | inr live ↦ rw live (expire_each-IsAgreed gs now s h)
]

-- No guarantee waits for its claim window.
abbrev pub NoneClaimable : Underwriting → Type 0
NoneClaimable s = All (λ g. is_claimable g.status ≡ false) (values s.guarantees)

-- What the venue sees to: a quoted identifier is new, a commitment has a name; and, for a restart,
-- that no guarantee waits for its claim window.
abbrev pub IsOrderly : Call → Underwriting → Type 0
IsOrderly (attaches q commitment_id now) s =
    (lookup q.guarantee_id s.guarantees ≡ none) × (commitment_id ≢ "")
IsOrderly restarts s = NoneClaimable s
IsOrderly _ s = Unit

abbrev pub AreOrderly : List Call → Underwriting → Type 0
AreOrderly [] s = Unit
AreOrderly (c ∷ cs) s = IsOrderly c s × AreOrderly cs (perform c s)

sum-attached :
    (gs : List GuaranteeRecord)
    → All (λ g. is_claimable g.status ≡ false) gs
    → sum open_amount gs ≡ sum attached_amount gs
sum-attached [] h = refl
sum-attached (g ∷ gs) (here, later) = ground (arith, sum-attached gs later)

restart-IsAgreed : (s : Underwriting) → NoneClaimable s → IsAgreed s → IsAgreed (restart s)
unfolding restart
restart-IsAgreed s none_waits h = record {
  ids = h.ids;
  by_counterparty = h.by_counterparty;
  by_pair = h.by_pair;
  in_total = ap pos (sym (sum-attached (values s.guarantees) none_waits));
}

perform-IsAgreed :
    (c : Call) (s : Underwriting) → IsOrderly c s → IsAgreed s → IsAgreed (perform c s)
unfolding perform file_claim adjust_disputes add_capital settle_deferred expire_claim_windows
perform-IsAgreed (attaches q cid now) s o h = attach-IsAgreed q cid now s o.0 o.1 h
perform-IsAgreed (releases gid reason now) s o h = release-IsAgreed gid reason now s h
perform-IsAgreed (completes gid ends now) s o h = complete-IsAgreed gid ends now s h
perform-IsAgreed (files id input cm now) s o h = conclude-IsAgreed _ _ now s h
perform-IsAgreed (decides id d now) s o h = decide_claim-IsAgreed id d now s h
perform-IsAgreed (retries now) s o h =
    persist_any-IsAgreed _ _ (settle_each-IsAgreed (values s.claims) now s h)
perform-IsAgreed (disputes usdot delta) s o h = h
perform-IsAgreed (funds amount) s o h = h
perform-IsAgreed (expires now) s o h = expire_each-IsAgreed (values s.guarantees) now s h
perform-IsAgreed restarts s o h = restart-IsAgreed s o h

run-IsAgreed :
    (cs : List Call) (s : Underwriting) → AreOrderly cs s → IsAgreed s → IsAgreed (run cs s)
unfolding run
run-IsAgreed [] s o h = h
run-IsAgreed (c ∷ cs) s o h = run-IsAgreed cs (perform c s) o.1 (perform-IsAgreed c s o.0 h)

-- After any sequence of calls from a fresh engine in which attached identifiers are new, commitments
-- have names and a restart finds no guarantee in its claim window, the books agree with the
-- guarantees: per counterparty, per pair and in total, what is outstanding is the sum of what the
-- guarantees not released cover.
pub run-fresh-IsAgreed :
    (params : UnderwritingParams) (cs : List Call)
    → AreOrderly cs (fresh params)
    → IsAgreed (run cs (fresh params))
run-fresh-IsAgreed params cs o = run-IsAgreed cs (fresh params) o (fresh-IsAgreed params)

waiting_amount : GuaranteeRecord → ℕ
waiting_amount g = if is_claimable g.status then g.covered_amount else 0

sum-waiting :
    (gs : List GuaranteeRecord)
    → sum open_amount gs ≡ sum attached_amount gs + sum waiting_amount gs
unfolding waiting_amount
sum-waiting [] = omega arith
sum-waiting (g ∷ gs) = ground (arith, sum-waiting gs)

-- A restart drops from the portfolio total what the guarantees in their claim window cover: on books
-- that agree, the total before is the total after plus that amount.
pub restart-loses_waiting :
    (s : Underwriting)
    → IsAgreed s
    → pos_part s.portfolio
      ≡ pos_part (restart s).portfolio
        + sum (λ g. if is_claimable g.status then g.covered_amount else 0) (values s.guarantees)
unfolding restart
restart-loses_waiting s h =
    rw h.in_total (unfold waiting_amount in sum-waiting (values s.guarantees))
