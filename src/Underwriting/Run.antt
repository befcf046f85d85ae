-- ===== src/Underwriting/Run.antt =====
-- Every call of the protocol that changes the underwriting state, without the two of the simulator, and
-- sequences of such calls.
pub mod Agreement
use agentic_freight_venue.Common.{ℕ, Option, List, [], ◌∷◌, String, ℤ}
use agentic_freight_venue.Underwriting.Claims.{ClaimInput, CommitmentFacts}
use agentic_freight_venue.Underwriting.Engine.{
  Underwriting, QuotedGuarantee, attach, release, complete, restart,
}
use agentic_freight_venue.Underwriting.Settlement.{
  OpsDecision, file_claim, decide_claim, settle_deferred, adjust_disputes, add_capital,
  expire_claim_windows,
}

pub data Call : Type 0 where
  attaches : QuotedGuarantee → String → ℕ → Call
  releases : String → String → ℕ → Call
  completes : String → ℕ → ℕ → Call
  files : String → ClaimInput → Option CommitmentFacts → ℕ → Call
  decides : String → OpsDecision → ℕ → Call
  retries : ℕ → Call
  disputes : String → ℤ → Call
  funds : ℕ → Call
  expires : ℕ → Call
  restarts : Call

unfoldable pub perform : Call → Underwriting → Underwriting
perform (attaches q commitment_id now) s = (attach q commitment_id now s).1
perform (releases guarantee_id reason now) s = release guarantee_id reason now s
perform (completes guarantee_id ends now) s = complete guarantee_id ends now s
perform (files claim_id input commitment now) s = (file_claim claim_id input commitment now s).1
perform (decides claim_id d now) s = decide_claim claim_id d now s
perform (retries now) s = (settle_deferred now s).1
perform (disputes usdot delta) s = adjust_disputes usdot delta s
perform (funds amount) s = add_capital amount s
perform (expires now) s = (expire_claim_windows now s).1
perform restarts s = restart s

unfoldable pub run : List Call → Underwriting → Underwriting
run [] s = s
run (c ∷ cs) s = run cs (perform c s)
