-- ===== src/Underwriting/Engine/Applied.antt =====
-- The keys applied in the engine's books, under the writes that the engine makes to them.
use text.Mathlib.TextLemmas.{append_cancel_left}
use agentic_freight_venue.Common.{
  ℕ, ◌≡◌, sym, ap, ◌≢◌, ◌∙◌, true, false, none, some, String, string_eq, ◌==◌, ==_iff, Keyed,
  lookup, insert, values, find, includes, arith, inl, inr, lookup-insert_self,
}
use agentic_freight_venue.Mandate.Exposure.{ExposureBook, add, release}
use agentic_freight_venue.Mandate.Exposure.Once.{add-ne-release}
use agentic_freight_venue.Mandate.Exposure.Accounts.{add-includes_ne, release-includes_ne}
use agentic_freight_venue.Underwriting.Claims.{GuaranteeRecord, is_released}
use agentic_freight_venue.Underwriting.Engine.Totals.{find-none, find-insert_old, find-insert_new}
use agentic_freight_venue.Underwriting.Engine.Keys.{
  add_key, release_key, backs, GuaranteeKeys, BookKeys, lookup-insert_cases,
}

add_key-ne : (r s : String) → r ≢ s → add_key r ≢ add_key s
add_key-ne r s h e = h (append_cancel_left "add:" r s e)

release_key-ne : (r s : String) → r ≢ s → release_key r ≢ release_key s
release_key-ne r s h e = h (append_cancel_left "release:" r s e)

-- A commitment of which nothing is found is not that of a guarantee which would be found.
ne_of_backs : (c : String) (g : GuaranteeRecord) → backs c g ≡ false → g.commitment_id ≢ c
ne_of_backs c g h e = ground (arith, ==_iff g.commitment_id c)

module _ (gs : Keyed GuaranteeRecord) (b : ExposureBook) (keys : BookKeys gs b)
    (g : GuaranteeRecord) (cp day : String) (a : ℕ) where
  -- Charging a new guarantee's commitment.
  pub add-BookKeys :
      lookup g.guarantee_id gs ≡ none
      → g.commitment_id ≢ ""
      → find (backs g.commitment_id) (values gs) ≡ none
      → BookKeys (insert g.guarantee_id g gs) (add cp a day (some g.commitment_id) b)
  add-BookKeys new named unbacked =
      let ref = g.commitment_id in
      let to_release = λ (c : String).
        add-includes_ne ref cp day a b (release_key c) named (add-ne-release ref c) in
      record {
        unreleased = λ k h e live. elim (lookup-insert_cases g.guarantee_id g gs k h e) [
          | inl (here, this) ↦
              to_release h.commitment_id
              ∙ ap (λ x. includes b.applied (release_key x.commitment_id)) (sym this)
              ∙ keys.untouched ref unbacked
          | inr (other, there) ↦ to_release h.commitment_id ∙ keys.unreleased k h there live
        ];
        unadded = λ c e.
            let (before, apart) = find-insert_new (backs c) g.guarantee_id g gs new e in
            add-includes_ne ref cp day a b (add_key c) named
              (add_key-ne ref c (ne_of_backs c g apart))
            ∙ keys.unadded c before;
        untouched = λ c e.
            to_release c ∙ keys.untouched c (find-insert_new (backs c) g.guarantee_id g gs new e).0;
      }

  -- Releasing an open guarantee's commitment.
  pub release-BookKeys :
      (old : GuaranteeRecord)
      → GuaranteeKeys gs
      → lookup g.guarantee_id gs ≡ some old
      → g.commitment_id ≡ old.commitment_id
      → is_released g.status ≡ true
      → BookKeys (insert g.guarantee_id g gs) (release cp a day (some g.commitment_id) b)
  release-BookKeys old ids found kept shut =
      let ref = g.commitment_id in
      let named : ref ≢ "" = λ p. ids.named g.guarantee_id old found (sym kept ∙ p) in
      let before = λ (c : String) (e : find (backs c) (values (insert g.guarantee_id g gs)) ≡ none).
        find-insert_old (backs c) g.guarantee_id g old gs found (ap (λ x. x == c) kept) e in
      record {
        unreleased = λ k h e live. elim (lookup-insert_cases g.guarantee_id g gs k h e) [
          | inl (here, this) ↦ ground (arith, ap (λ x. is_released x.status) this)
          | inr (other, there) ↦
              release-includes_ne ref cp day a b (release_key h.commitment_id) named (
                release_key-ne ref h.commitment_id
                  (λ p. other (ids.distinct g.guarantee_id k old h found there (sym kept ∙ p))))
              ∙ keys.unreleased k h there live
        ];
        unadded = λ c e.
            release-includes_ne ref cp day a b (add_key c) named (λ p. add-ne-release c ref (sym p))
            ∙ keys.unadded c (before c e);
        untouched = λ c e.
            release-includes_ne ref cp day a b (release_key c) named (
              release_key-ne ref c (
                ne_of_backs c g (
                  find-none (backs c) g.guarantee_id g (insert g.guarantee_id g gs) e
                    (lookup-insert_self g.guarantee_id g gs))))
            ∙ keys.untouched c (before c e);
      }

  -- Writing a guarantee anew with its commitment, still open as before.
  pub keep-BookKeys :
      (old : GuaranteeRecord)
      → lookup g.guarantee_id gs ≡ some old
      → g.commitment_id ≡ old.commitment_id
      → is_released old.status ≡ false
      → BookKeys (insert g.guarantee_id g gs) b
  keep-BookKeys old found kept live =
      let before = λ (c : String) (e : find (backs c) (values (insert g.guarantee_id g gs)) ≡ none).
        find-insert_old (backs c) g.guarantee_id g old gs found (ap (λ x. x == c) kept) e in
      record {
        unreleased = λ k h e still. elim (lookup-insert_cases g.guarantee_id g gs k h e) [
          | inl (here, this) ↦
              ap (λ x. includes b.applied (release_key x.commitment_id)) (sym this)
              ∙ ap (λ x. includes b.applied (release_key x)) kept
              ∙ keys.unreleased g.guarantee_id old found live
          | inr (other, there) ↦ keys.unreleased k h there still
        ];
        unadded = λ c e. keys.unadded c (before c e);
        untouched = λ c e. keys.untouched c (before c e);
      }
