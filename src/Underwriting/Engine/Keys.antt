-- ===== src/Underwriting/Engine/Keys.antt =====
-- The identifiers and references of the engine's guarantees, and the keys applied in its books.
use Prim.Native.String
use mathlib.Core.Option.{some-injective}
use agentic_freight_venue.Common.{
  ◌≡◌, ◌⊎◌, sym, ap, ◌≢◌, ◌∙◌, Bool, false, none, some, String, string_eq, ◌==◌, ==_iff, Keyed,
  lookup, insert, values, find, includes, arith, inl, inr, lookup-insert, Bool-cases,
}
use agentic_freight_venue.Mandate.Exposure.{ExposureBook}
use agentic_freight_venue.Underwriting.Claims.{GuaranteeRecord, is_released}
use agentic_freight_venue.Underwriting.Engine.Totals.{find-none}

abbrev pub add_key : String → String
add_key ref = String.◌++◌ "add:" ref

abbrev pub release_key : String → String
release_key ref = String.◌++◌ "release:" ref

-- A guarantee of this commitment.
abbrev pub backs : String → GuaranteeRecord → Bool
backs commitment_id g = g.commitment_id == commitment_id

-- Each guarantee stands under its identifier, has a commitment, and shares it with no other.
pub record GuaranteeKeys (gs : Keyed GuaranteeRecord) : Type 0 where
  pub identified : (k : String) (g : GuaranteeRecord) → lookup k gs ≡ some g → g.guarantee_id ≡ k
  pub named : (k : String) (g : GuaranteeRecord) → lookup k gs ≡ some g → g.commitment_id ≢ ""
  pub distinct :
      (k j : String) (g h : GuaranteeRecord)
      → lookup k gs ≡ some g
      → lookup j gs ≡ some h
      → g.commitment_id ≡ h.commitment_id
      → k ≡ j

-- An open guarantee's release is still to come, and a commitment without a guarantee left no trace.
pub record BookKeys (gs : Keyed GuaranteeRecord) (b : ExposureBook) : Type 0 where
  pub unreleased :
      (k : String) (g : GuaranteeRecord)
      → lookup k gs ≡ some g
      → is_released g.status ≡ false
      → includes b.applied (release_key g.commitment_id) ≡ false
  pub unadded :
      (c : String) → find (backs c) (values gs) ≡ none → includes b.applied (add_key c) ≡ false
  pub untouched :
      (c : String) → find (backs c) (values gs) ≡ none → includes b.applied (release_key c) ≡ false

module _ (id : String) (g : GuaranteeRecord) (gs : Keyed GuaranteeRecord) where
  -- What stands in the store after a write is what was written, or what stood there before.
  pub lookup-insert_cases :
      (k : String) (h : GuaranteeRecord)
      → lookup k (insert id g gs) ≡ some h
      → ((id ≡ k) × (g ≡ h)) ⊎ ((id ≢ k) × (lookup k gs ≡ some h))
  lookup-insert_cases k h e = elim (Bool-cases (id == k)) [
    | inl same ↦
        inl ((==_iff id k).0 same, some-injective _ _ (rw (lookup-insert id k g gs, same) at e))
    | inr other ↦ inr ((λ p. cc ((==_iff id k).1 p)), rw (lookup-insert id k g gs, other) at e)
  ]

  pub unbacked_ne :
      (k : String) (h : GuaranteeRecord)
      → find (backs g.commitment_id) (values gs) ≡ none
      → lookup k gs ≡ some h
      → g.commitment_id ≢ h.commitment_id
  unbacked_ne k h unbacked there c = ground (
    arith,
    find-none (backs g.commitment_id) k h gs unbacked there,
    ==_iff h.commitment_id g.commitment_id,
  )

  -- A new guarantee, of a commitment that has none yet.
  pub insert_new-GuaranteeKeys :
      g.guarantee_id ≡ id
      → g.commitment_id ≢ ""
      → find (backs g.commitment_id) (values gs) ≡ none
      → GuaranteeKeys gs
      → GuaranteeKeys (insert id g gs)
  insert_new-GuaranteeKeys same named unbacked h = record {
    identified = λ k x e. elim (lookup-insert_cases k x e) [
      | inl (here, this) ↦ sym (ap (λ y. y.guarantee_id) this) ∙ same ∙ here
      | inr (other, there) ↦ h.identified k x there
    ];
    named = λ k x e. elim (lookup-insert_cases k x e) [
      | inl (here, this) ↦ λ p. named (ap (λ y. y.commitment_id) this ∙ p)
      | inr (other, there) ↦ h.named k x there
    ];
    distinct = λ k j x y e f c. elim (lookup-insert_cases k x e) [
      | inl (here, this) ↦ elim (lookup-insert_cases j y f) [
        | inl (here', this') ↦ sym here ∙ here'
        | inr (other, there) ↦
            absurd (unbacked_ne j y unbacked there (ap (λ z. z.commitment_id) this ∙ c))
      ]
      | inr (other, there) ↦ elim (lookup-insert_cases j y f) [
        | inl (here', this') ↦
            absurd (unbacked_ne k x unbacked there (ap (λ z. z.commitment_id) this' ∙ sym c))
        | inr (other', there') ↦ h.distinct k j x y there there' c
      ]
    ];
  }

  -- A guarantee written anew with its commitment kept.
  pub insert_old-GuaranteeKeys :
      (old : GuaranteeRecord)
      → g.guarantee_id ≡ id
      → lookup id gs ≡ some old
      → g.commitment_id ≡ old.commitment_id
      → GuaranteeKeys gs
      → GuaranteeKeys (insert id g gs)
  insert_old-GuaranteeKeys old same found kept h = record {
    identified = λ k x e. elim (lookup-insert_cases k x e) [
      | inl (here, this) ↦ sym (ap (λ y. y.guarantee_id) this) ∙ same ∙ here
      | inr (other, there) ↦ h.identified k x there
    ];
    named = λ k x e. elim (lookup-insert_cases k x e) [
      | inl (here, this) ↦ λ p. h.named id old found (sym kept ∙ ap (λ y. y.commitment_id) this ∙ p)
      | inr (other, there) ↦ h.named k x there
    ];
    distinct = λ k j x y e f c. elim (lookup-insert_cases k x e) [
      | inl (here, this) ↦ elim (lookup-insert_cases j y f) [
        | inl (here', this') ↦ sym here ∙ here'
        | inr (other, there) ↦
            sym here
            ∙ h.distinct id j old y found there (sym kept ∙ ap (λ z. z.commitment_id) this ∙ c)
      ]
      | inr (other, there) ↦ elim (lookup-insert_cases j y f) [
        | inl (here', this') ↦
            h.distinct k id x old there found (c ∙ sym (ap (λ z. z.commitment_id) this') ∙ kept)
            ∙ here'
        | inr (other', there') ↦ h.distinct k j x y there there' c
      ]
    ];
  }
