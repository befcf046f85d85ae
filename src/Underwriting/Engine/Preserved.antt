-- ===== src/Underwriting/Engine/Preserved.antt =====
-- The engine's methods keep its books in agreement with its guarantees.
use agentic_freight_venue.Common.{
  ℕ, ◌+◌, ◌≡◌, refl, ap, ◌≢◌, ◌∙◌, true, false, none, some, [], String, ◌*◌, Keyed, lookup, insert,
  values, find, sum, arith, inl, inr, ℤ, pos, ◌+ℤ◌, ◌-ℤ◌, pos-+, pos--, Option-cases, Bool-cases,
  string_eq,
}
use agentic_freight_venue.Mandate.Exposure.{ExposureBook, empty_book, outstanding}
use agentic_freight_venue.Mandate.Engine.{day_ms}
use agentic_freight_venue.Underwriting.Types.{UnderwritingParams}
use agentic_freight_venue.Underwriting.Claims.{
  GuaranteeRecord, GuaranteeStatus, is_released, released, claimable,
}
use agentic_freight_venue.Underwriting.Engine.{
  Underwriting, QuotedGuarantee, open_amount, attach, attach_new, attached_record, release,
  release_open, complete, complete_attached, is_attached, guarantee_for_commitment, fresh,
}
use agentic_freight_venue.Underwriting.Engine.Totals.{sum-insert_old, sum-insert_new}
use agentic_freight_venue.Underwriting.Engine.Keys.{
  GuaranteeKeys, BookKeys, insert_new-GuaranteeKeys, insert_old-GuaranteeKeys, backs,
}
use agentic_freight_venue.Underwriting.Engine.Agreement.{
  BookAgrees, counterparty_of, pair_of, charge-BookAgrees, discharge-BookAgrees, keep-BookAgrees,
}

pub record Agreed (gs : Keyed GuaranteeRecord) (counterparty pair : ExposureBook) (portfolio : ℤ)
    : Type 0 where
  pub ids : GuaranteeKeys gs
  pub by_counterparty : BookAgrees counterparty_of gs counterparty
  pub by_pair : BookAgrees pair_of gs pair
  pub in_total : portfolio ≡ pos (sum open_amount (values gs))

-- Identifiers and references are in order, and what is outstanding with each counterparty, with each
-- pair and in the whole portfolio is the sum of what the guarantees not released cover.
abbrev pub IsAgreed : Underwriting → Type 0
IsAgreed s = Agreed s.guarantees s.counterparty s.pair s.portfolio

raise_total :
    (g : GuaranteeRecord) (gs : Keyed GuaranteeRecord) (portfolio : ℤ)
    → lookup g.guarantee_id gs ≡ none
    → is_released g.status ≡ false
    → portfolio ≡ pos (sum open_amount (values gs))
    → portfolio +ℤ pos g.covered_amount
      ≡ pos (sum open_amount (values (insert g.guarantee_id g gs)))
raise_total g gs portfolio new live h =
    rw (h, pos-+, sum-insert_new open_amount g.guarantee_id g gs new, live)

lower_total :
    (g old : GuaranteeRecord) (gs : Keyed GuaranteeRecord) (portfolio : ℤ)
    → lookup g.guarantee_id gs ≡ some old
    → g.covered_amount ≡ old.covered_amount
    → is_released old.status ≡ false
    → is_released g.status ≡ true
    → portfolio ≡ pos (sum open_amount (values gs))
    → portfolio -ℤ pos g.covered_amount
      ≡ pos (sum open_amount (values (insert g.guarantee_id g gs)))
lower_total g old gs portfolio found same live shut h =
    let e = sum-insert_old open_amount g.guarantee_id g old gs found in
    let total : sum open_amount (values (insert g.guarantee_id g gs)) + g.covered_amount
        ≡ sum open_amount (values gs) =
      ground arith in
    rw (h, pos-- (sum open_amount (values gs)) g.covered_amount (omega arith))
      (ap pos (omega arith))

keep_total :
    (g old : GuaranteeRecord) (gs : Keyed GuaranteeRecord) (portfolio : ℤ)
    → lookup g.guarantee_id gs ≡ some old
    → g.covered_amount ≡ old.covered_amount
    → is_released old.status ≡ false
    → is_released g.status ≡ false
    → portfolio ≡ pos (sum open_amount (values gs))
    → portfolio ≡ pos (sum open_amount (values (insert g.guarantee_id g gs)))
keep_total g old gs portfolio found same live still h =
    let e = sum-insert_old open_amount g.guarantee_id g old gs found in h ∙ ap pos (ground arith)

attached_live : (st : GuaranteeStatus) → is_attached st ≡ true → is_released st ≡ false
attached_live st h = ground arith

empty_keys : BookKeys [] empty_book
unfolding lookup
empty_keys = record {
  unreleased = λ k g e live. refl;
  unadded = λ c e. refl;
  untouched = λ c e. refl;
}

attach_new-IsAgreed :
    (g : GuaranteeRecord) (now : ℕ) (s : Underwriting)
    → lookup g.guarantee_id s.guarantees ≡ none
    → g.commitment_id ≢ ""
    → find (backs g.commitment_id) (values s.guarantees) ≡ none
    → is_released g.status ≡ false
    → IsAgreed s
    → IsAgreed (attach_new g now s)
unfolding attach_new
attach_new-IsAgreed g now s new named unbacked live h = record {
  ids = insert_new-GuaranteeKeys g.guarantee_id g s.guarantees refl named unbacked h.ids;
  by_counterparty =
      charge-BookAgrees counterparty_of s.guarantees s.counterparty h.by_counterparty g new named
        unbacked live;
  by_pair = charge-BookAgrees pair_of s.guarantees s.pair h.by_pair g new named unbacked live;
  in_total = raise_total g s.guarantees s.portfolio new live h.in_total;
}

-- Attaching a guarantee under an identifier not yet in use, for a commitment with a name, keeps the
-- books in agreement, whether the commitment had a guarantee or not.
pub attach-IsAgreed :
    (q : QuotedGuarantee) (commitment_id : String) (now : ℕ) (s : Underwriting)
    → lookup q.guarantee_id s.guarantees ≡ none
    → commitment_id ≢ ""
    → IsAgreed s
    → IsAgreed (attach q commitment_id now s).1
unfolding attach guarantee_for_commitment
attach-IsAgreed q commitment_id now s new named h =
    elim (Option-cases (guarantee_for_commitment commitment_id s)) [
      | inl unbacked ↦
          rw (unbacked, attach)
            (attach_new-IsAgreed (attached_record q commitment_id now) now s new named unbacked refl
              h)
      | inr (g, backed) ↦ rw (backed, attach) h
    ]

release_open-IsAgreed :
    (k : String) (g : GuaranteeRecord) (reason : String) (now : ℕ) (s : Underwriting)
    → lookup k s.guarantees ≡ some g
    → is_released g.status ≡ false
    → IsAgreed s
    → IsAgreed (release_open g reason now s)
unfolding release_open
release_open-IsAgreed k g reason now s at_k live h =
    let found : lookup g.guarantee_id s.guarantees ≡ some g =
      ap (λ x. lookup x s.guarantees) (h.ids.identified k g at_k) ∙ at_k in
    let g' : GuaranteeRecord = record g {
      status = released;
      released_at = some now;
      release_reason = some reason;
    } in
    record {
      ids = insert_old-GuaranteeKeys g.guarantee_id g' s.guarantees g refl found refl h.ids;
      by_counterparty =
          discharge-BookAgrees counterparty_of s.guarantees s.counterparty h.by_counterparty g' g
            h.ids found refl refl refl live refl;
      by_pair =
          discharge-BookAgrees pair_of s.guarantees s.pair h.by_pair g' g h.ids found refl refl refl
            live refl;
      in_total = lower_total g' g s.guarantees s.portfolio found refl live refl h.in_total;
    }

-- Releasing a guarantee, known or not, open or not, keeps the books in agreement.
pub release-IsAgreed :
    (guarantee_id reason : String) (now : ℕ) (s : Underwriting)
    → IsAgreed s
    → IsAgreed (release guarantee_id reason now s)
unfolding release
release-IsAgreed guarantee_id reason now s h =
    elim (Option-cases (lookup guarantee_id s.guarantees)) [
      | inl unknown ↦ rw (unknown, release) h
      | inr (g, found) ↦ elim (Bool-cases (is_released g.status)) [
        | inl shut ↦ rw (found, release, shut) h
        | inr live ↦
            rw (found, release, live)
              (release_open-IsAgreed guarantee_id g reason now s found live h)
      ]
    ]

complete_attached-IsAgreed :
    (k : String) (g : GuaranteeRecord) (ends now : ℕ) (s : Underwriting)
    → lookup k s.guarantees ≡ some g
    → is_released g.status ≡ false
    → IsAgreed s
    → IsAgreed (complete_attached g ends now s)
unfolding complete_attached
complete_attached-IsAgreed k g ends now s at_k live h =
    let found : lookup g.guarantee_id s.guarantees ≡ some g =
      ap (λ x. lookup x s.guarantees) (h.ids.identified k g at_k) ∙ at_k in
    let g' : GuaranteeRecord = record g {
      status = claimable;
      completed_at = some now;
      window_ends_at = some (ends + s.params.claim_window_days * day_ms);
    } in
    record {
      ids = insert_old-GuaranteeKeys g.guarantee_id g' s.guarantees g refl found refl h.ids;
      by_counterparty =
          keep-BookAgrees counterparty_of s.guarantees s.counterparty h.by_counterparty g' g found
            refl refl refl live refl;
      by_pair =
          keep-BookAgrees pair_of s.guarantees s.pair h.by_pair g' g found refl refl refl live refl;
      in_total = keep_total g' g s.guarantees s.portfolio found refl live refl h.in_total;
    }

-- Completing a load keeps its guarantee's cover in the books: they stay in agreement.
pub complete-IsAgreed :
    (guarantee_id : String) (ends now : ℕ) (s : Underwriting)
    → IsAgreed s
    → IsAgreed (complete guarantee_id ends now s)
unfolding complete
complete-IsAgreed guarantee_id ends now s h =
    elim (Option-cases (lookup guarantee_id s.guarantees)) [
      | inl unknown ↦ rw (unknown, complete) h
      | inr (g, found) ↦ elim (Bool-cases (is_attached g.status)) [
        | inl live ↦
            rw (found, complete, live)
              (complete_attached-IsAgreed guarantee_id g ends now s found
                (attached_live g.status live) h)
        | inr other ↦ rw (found, complete, other) h
      ]
    ]

pub fresh-IsAgreed : (params : UnderwritingParams) → IsAgreed (fresh params)
unfolding fresh lookup outstanding
fresh-IsAgreed params = record {
  ids = record { identified = λ k g e. cc; named = λ k g e. cc; distinct = λ k j g h e f c. cc };
  by_counterparty = record { keys = empty_keys; total = λ k. refl };
  by_pair = record { keys = empty_keys; total = λ k. refl };
  in_total = refl;
}
