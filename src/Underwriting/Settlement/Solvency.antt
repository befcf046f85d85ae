-- ===== src/Underwriting/Settlement/Solvency.antt =====
-- The reserve never pays what it does not hold.
use agentic_freight_venue.Common.{
  ℕ, ◌+◌, ◌≤◌, ◌≡◌, List, [], ◌∷◌, String, lookup, Option-cases, Bool-cases, inl, inr, arith,
  Option, values, if◌then◌else◌,
}
use agentic_freight_venue.Underwriting.Claims.{
  Claim, ClaimInput, CommitmentFacts, Decision, GuaranteeRecord, reserve_available,
}
use agentic_freight_venue.Underwriting.Engine.{
  Underwriting, attach, release, complete, restart, QuotedGuarantee, fresh,
}
use agentic_freight_venue.Underwriting.Settlement.{
  after_payment, paid_out, settle_covered, settle, conclude, settle_each, file_claim, decide_claim,
  settle_deferred, adjust_disputes, add_capital, expire_each, expire_claim_windows, persist_any,
  OpsDecision, ops_decision, store, is_deferred, may_expire,
}
use agentic_freight_venue.Underwriting.Types.{UnderwritingParams}
use agentic_freight_venue.Underwriting.Run.{
  Call, attaches, releases, completes, files, decides, retries, disputes, funds, expires, restarts,
  perform, run,
}

-- All that was paid out came from the capital and the premiums.
abbrev pub IsSolvent : Underwriting → Type 0
IsSolvent s = s.reserve.payouts ≤ s.reserve.initial_capital + s.reserve.premiums

-- Two states hold the same money.
pub record SameFunds (s t : Underwriting) : Type 0 where
  pub capital : t.reserve.initial_capital ≡ s.reserve.initial_capital
  pub premiums : t.reserve.premiums ≡ s.reserve.premiums
  pub payouts : t.reserve.payouts ≡ s.reserve.payouts

pub release-SameFunds :
    (gid reason : String) (now : ℕ) (s : Underwriting) → SameFunds s (release gid reason now s)
unfolding release
release-SameFunds gid reason now s = ground arith

pub complete-SameFunds :
    (gid : String) (ends now : ℕ) (s : Underwriting) → SameFunds s (complete gid ends now s)
unfolding complete
complete-SameFunds gid ends now s = ground arith

pub after_payment-SameFunds :
    (c : Claim) (now : ℕ) (s : Underwriting) → SameFunds s (after_payment c now s)
unfolding after_payment
after_payment-SameFunds c now s = grind (arith, release-SameFunds)

settle_covered-IsSolvent :
    (c : Claim) (payout now : ℕ) (s : Underwriting)
    → IsSolvent s
    → IsSolvent (settle_covered c payout now s).1
unfolding settle_covered reserve_available
settle_covered-IsSolvent c payout now s h =
    ground (arith, after_payment-SameFunds c now (paid_out payout s))

settle-IsSolvent :
    (c : Claim) (now : ℕ) (s : Underwriting) → IsSolvent s → IsSolvent (settle c now s).1
unfolding settle
settle-IsSolvent c now s h = elim (Option-cases c.decision) [
  | inl undecided ↦ rw (undecided, settle) h
  | inr (d, decided) ↦ ground (arith, settle_covered-IsSolvent c d.payout now s h)
]

conclude-IsSolvent :
    (c : Claim) (d : Decision) (now : ℕ) (s : Underwriting)
    → IsSolvent s
    → IsSolvent (conclude c d now s).1
unfolding conclude
conclude-IsSolvent c d now s h = grind (arith, settle-IsSolvent)

file_claim-IsSolvent :
    (id : String) (input : ClaimInput) (cm : Option CommitmentFacts) (now : ℕ) (s : Underwriting)
    → IsSolvent s
    → IsSolvent (file_claim id input cm now s).1
unfolding file_claim
file_claim-IsSolvent id input cm now s h = conclude-IsSolvent _ _ now s h

decide_claim-IsSolvent :
    (id : String) (d : OpsDecision) (now : ℕ) (s : Underwriting)
    → IsSolvent s
    → IsSolvent (decide_claim id d now s)
unfolding decide_claim
decide_claim-IsSolvent id d now s h = elim (Option-cases (lookup id s.claims)) [
  | inl unknown ↦ rw (unknown, decide_claim) h
  | inr (c, found) ↦ ground (arith, conclude-IsSolvent c (ops_decision c d now s) now s h)
]

settle_each-IsSolvent :
    (cs : List Claim) (now : ℕ) (s : Underwriting)
    → IsSolvent s
    → IsSolvent (settle_each cs now s).1
unfolding settle_each
settle_each-IsSolvent [] now s h = h
settle_each-IsSolvent (c ∷ cs) now s h = elim (Bool-cases (is_deferred c.status)) [
  | inl yes_deferred ↦
      rw yes_deferred
        (settle_each-IsSolvent cs now (store (settle c now s)) (settle-IsSolvent c now s h))
  | inr not_deferred ↦ rw not_deferred (settle_each-IsSolvent cs now (store (c, s)) h)
]

persist_any-IsSolvent :
    (cs : List Claim) (s : Underwriting) → IsSolvent s → IsSolvent (persist_any cs s)
persist_any-IsSolvent [] s h = h
persist_any-IsSolvent (_ ∷ _) s h = h

expire_each-IsSolvent :
    (gs : List GuaranteeRecord) (now : ℕ) (s : Underwriting)
    → IsSolvent s
    → IsSolvent (expire_each gs now s).1
unfolding expire_each
expire_each-IsSolvent [] now s h = h
expire_each-IsSolvent (g ∷ gs) now s h =
    expire_each-IsSolvent gs now
      (if may_expire g now s then release g.guarantee_id "claim window closed" now s else s)
      (ground (arith, release-SameFunds g.guarantee_id "claim window closed" now s))

attach-IsSolvent :
    (q : QuotedGuarantee) (cid : String) (now : ℕ) (s : Underwriting)
    → IsSolvent s
    → IsSolvent (attach q cid now s).1
unfolding attach
attach-IsSolvent q cid now s h = ground arith

perform-IsSolvent : (c : Call) (s : Underwriting) → IsSolvent s → IsSolvent (perform c s)
unfolding perform adjust_disputes add_capital restart settle_deferred expire_claim_windows
perform-IsSolvent (attaches q cid now) s h = attach-IsSolvent q cid now s h
perform-IsSolvent (releases gid reason now) s h = omega (arith, release-SameFunds gid reason now s)
perform-IsSolvent (completes gid ends now) s h = omega (arith, complete-SameFunds gid ends now s)
perform-IsSolvent (files id input cm now) s h = file_claim-IsSolvent id input cm now s h
perform-IsSolvent (decides id d now) s h = decide_claim-IsSolvent id d now s h
perform-IsSolvent (retries now) s h =
    persist_any-IsSolvent _ _ (settle_each-IsSolvent (values s.claims) now s h)
perform-IsSolvent (disputes usdot delta) s h = h
perform-IsSolvent (funds amount) s h = omega arith
perform-IsSolvent (expires now) s h = expire_each-IsSolvent (values s.guarantees) now s h
perform-IsSolvent restarts s h = h

run-IsSolvent : (cs : List Call) (s : Underwriting) → IsSolvent s → IsSolvent (run cs s)
unfolding run
run-IsSolvent [] s h = h
run-IsSolvent (c ∷ cs) s h = run-IsSolvent cs (perform c s) (perform-IsSolvent c s h)

-- After any sequence of calls from a fresh engine (attaching, completing, releasing, filing, deciding
-- and retrying claims, adding capital, expiring windows, restarting), what was paid out is at most
-- the capital put in plus the premiums earned: a claim is never paid from nothing.
pub run-fresh-IsSolvent :
    (params : UnderwritingParams) (cs : List Call) → IsSolvent (run cs (fresh params))
unfolding fresh
run-fresh-IsSolvent params cs = run-IsSolvent cs _ (omega arith)
