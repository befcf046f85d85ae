-- ===== src/Underwriting/Engine/Agreement.antt =====
-- The exposure books and the portfolio total are views of the guarantees: each is the sum of what
-- the guarantees not released still cover.
use agentic_freight_venue.Common.{
  ℕ, ◌≡◌, sym, ap, ◌≢◌, ◌∙◌, true, false, none, some, String, string_eq, Keyed, lookup, insert,
  values, find, sum, includes, arith,
}
use agentic_freight_venue.Mandate.Exposure.{ExposureBook, outstanding, add, release as release_book}
use agentic_freight_venue.Mandate.Exposure.Accounts.{at, add_fresh, release_fresh}
use agentic_freight_venue.Underwriting.Claims.{GuaranteeRecord, is_released}
use agentic_freight_venue.Underwriting.Engine.{open_amount, pair_key}
use agentic_freight_venue.Underwriting.Engine.Totals.{sum-insert_old, sum-insert_new}
use agentic_freight_venue.Underwriting.Engine.Keys.{release_key, backs, GuaranteeKeys, BookKeys}
use agentic_freight_venue.Underwriting.Engine.Applied.{
  add-BookKeys, release-BookKeys, keep-BookKeys,
}

-- What a book kept by a key of each guarantee should report.
abbrev pub owed : (GuaranteeRecord → String) → String → Keyed GuaranteeRecord → ℕ
owed key k gs = sum (λ g. at (key g) k (open_amount g)) (values gs)

abbrev pub counterparty_of : GuaranteeRecord → String
counterparty_of g = g.counterparty

abbrev pub pair_of : GuaranteeRecord → String
pair_of g = pair_key g.beneficiary g.counterparty

-- One book against the guarantees.
pub record BookAgrees (key : GuaranteeRecord → String) (gs : Keyed GuaranteeRecord)
    (b : ExposureBook) : Type 0 where
  pub keys : BookKeys gs b
  pub total : (k : String) → outstanding k b ≡ owed key k gs

module _ (key : GuaranteeRecord → String) (gs : Keyed GuaranteeRecord) (b : ExposureBook)
    (agrees : BookAgrees key gs b) (g : GuaranteeRecord) where
  pub charge-BookAgrees :
      lookup g.guarantee_id gs ≡ none
      → g.commitment_id ≢ ""
      → find (backs g.commitment_id) (values gs) ≡ none
      → is_released g.status ≡ false
      → BookAgrees key
          (insert g.guarantee_id g gs)
          (add (key g) g.covered_amount g.day (some g.commitment_id) b)
  charge-BookAgrees new named unbacked live = record {
    keys = add-BookKeys gs b agrees.keys g (key g) g.day g.covered_amount new named unbacked;
    total = λ k. ground (
      arith,
      agrees.total k,
      (add_fresh k g.commitment_id (key g) g.day g.covered_amount b named
          (agrees.keys.unadded g.commitment_id unbacked)).0,
      sum-insert_new (λ x. at (key x) k (open_amount x)) g.guarantee_id g gs new,
    );
  }

  pub discharge-BookAgrees :
      (old : GuaranteeRecord)
      → GuaranteeKeys gs
      → lookup g.guarantee_id gs ≡ some old
      → g.commitment_id ≡ old.commitment_id
      → key g ≡ key old
      → g.covered_amount ≡ old.covered_amount
      → is_released old.status ≡ false
      → is_released g.status ≡ true
      → BookAgrees key
          (insert g.guarantee_id g gs)
          (release_book (key g) g.covered_amount g.day (some g.commitment_id) b)
  discharge-BookAgrees old ids found kept same_key same_cover live shut = record {
    keys =
        release-BookKeys gs b agrees.keys g (key g) g.day g.covered_amount old ids found kept shut;
    total = λ k. ground (
      arith,
      agrees.total k,
      (release_fresh k g.commitment_id (key g) g.day g.covered_amount b
          (λ p. ids.named g.guarantee_id old found (sym kept ∙ p))
          (ap (λ x. includes b.applied (release_key x)) kept
            ∙ agrees.keys.unreleased g.guarantee_id old found live)).0,
      sum-insert_old (λ x. at (key x) k (open_amount x)) g.guarantee_id g old gs found,
      ap (λ x. at x k g.covered_amount) same_key,
    );
  }

  pub keep-BookAgrees :
      (old : GuaranteeRecord)
      → lookup g.guarantee_id gs ≡ some old
      → g.commitment_id ≡ old.commitment_id
      → key g ≡ key old
      → g.covered_amount ≡ old.covered_amount
      → is_released old.status ≡ false
      → is_released g.status ≡ false
      → BookAgrees key (insert g.guarantee_id g gs) b
  keep-BookAgrees old found kept same_key same_cover live still = record {
    keys = keep-BookKeys gs b agrees.keys g (key g) g.day g.covered_amount old found kept live;
    total = λ k. ground (
      arith,
      agrees.total k,
      sum-insert_old (λ x. at (key x) k (open_amount x)) g.guarantee_id g old gs found,
      ap (λ x. at x k g.covered_amount) same_key,
    );
  }
