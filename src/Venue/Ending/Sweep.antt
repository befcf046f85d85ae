-- ===== src/Venue/Ending/Sweep.antt =====
-- A loop over a map's values that writes some of them back, as `expireStaleTasks` and `cancelSiblings` of
-- src/venue/service.ts do: on a map whose values are filed under their own identifiers it is a change in
-- place.
use mathlib.Core.Option
use agentic_freight_venue.Common.{
  ◌≡◌, refl, sym, ap, ◌∙◌, Bool, true, false, none, some, List, [], ◌∷◌, String, string_eq, ◌==◌,
  ==_refl, ==_iff, if◌then◌else◌, Keyed, lookup, insert, lookup-insert, values, All, inl, inr,
  Bool-cases, arith,
}

module _ {V : Type 0} (id : V → String) where
  -- Each value is filed under its identifier, and under no other key.
  abbrev pub AreFiled : Keyed V → Type 0
  AreFiled [] = Unit {0}
  AreFiled ((key, value) ∷ rows) = (id value ≡ key) × (lookup key rows ≡ none) × AreFiled rows

  abbrev pub sweep : (V → Bool) → (V → V) → List V → Keyed V → Keyed V
  sweep p g [] m = m
  sweep p g (t ∷ ts) m = sweep p g ts (if p t then insert (id t) (g t) m else m)

module _ {V : Type 0} (id : V → String) where
  pub filed-id :
      (key : String) (t : V) (rows : Keyed V)
      → AreFiled id rows
      → lookup key rows ≡ some t
      → id t ≡ key
  unfolding lookup
  filed-id key t [] filed found = cc found
  filed-id key t ((at, u) ∷ rows) filed found =
      ground (arith, filed-id key t rows filed.2, ==_iff at key, filed.0)

  pub insert-AreFiled :
      (key : String) (new : V) (rows : Keyed V)
      → id new ≡ key
      → AreFiled id rows
      → AreFiled id (insert key new rows)
  unfolding insert lookup
  insert-AreFiled key new [] e filed = (e, refl, tt)
  insert-AreFiled key new ((at, u) ∷ rows) e filed = elim (Bool-cases (at == key)) [
    | inl here ↦ rw here (e ∙ sym ((==_iff at key).0 here), filed.1, filed.2)
    | inr past ↦ rw past (
      filed.0,
      lookup-insert key at new rows ∙ ground (arith, ==_iff at key, ==_iff key at, filed.1),
      insert-AreFiled key new rows e filed.2,
    )
  ]

abbrev pub changed : {V : Type 0} → (V → Bool) → (V → V) → V → V
changed p g t = if p t then g t else t

abbrev pub mapped : {V : Type 0} → (V → Bool) → (V → V) → Keyed V → Keyed V
mapped p g [] = []
mapped p g ((key, t) ∷ rows) = (key, changed p g t) ∷ mapped p g rows

module _ {V : Type 0} (id : V → String) (p : V → Bool) (g : V → V) where
  -- Rows before those that are swept stay where they are.
  sweep_past :
      (key : String) (v : V) (ts : List V) (rows : Keyed V)
      → All (λ t. (key == id t) ≡ false) ts
      → sweep id p g ts ((key, v) ∷ rows) ≡ (key, v) ∷ sweep id p g ts rows
  unfolding insert
  sweep_past key v [] rows h = refl
  sweep_past key v (t ∷ ts) rows h = elim (Bool-cases (p t)) [
    | inl here ↦ rw (here, h.0) (sweep_past key v ts (insert (id t) (g t) rows) h.1)
    | inr other ↦ rw other (sweep_past key v ts rows h.1)
  ]

  others :
      (key : String) (rows : Keyed V)
      → lookup key rows ≡ none
      → AreFiled id rows
      → All (λ t. (key == id t) ≡ false) (values rows)
  unfolding lookup
  others key [] absent filed = tt
  others key ((at, t) ∷ rows) absent filed = (
    ground (arith, ==_iff key (id t), ==_iff at key, filed.0),
    others key rows (ground arith) filed.2,
  )

  insert_here :
      (at : String) (t new : V) (rows : Keyed V)
      → id t ≡ at
      → insert (id t) new ((at, t) ∷ rows) ≡ (at, new) ∷ rows
  unfolding insert
  insert_here at t new rows e = rw (e, ==_refl at) refl

  one_step :
      (b : Bool) (t : V) (ts : List V) (m : Keyed V)
      → p t ≡ b
      → sweep id p g (t ∷ ts) m ≡ sweep id p g ts (if b then insert (id t) (g t) m else m)
  one_step b t ts m e = ap (λ c. sweep id p g ts (if c then insert (id t) (g t) m else m)) e

  -- On such a map the loop changes each value in place.
  pub sweep-mapped :
      (rows : Keyed V) → AreFiled id rows → sweep id p g (values rows) rows ≡ mapped p g rows
  sweep-mapped [] filed = refl
  sweep-mapped ((at, t) ∷ rows) filed =
      let rest = sweep-mapped rows filed.2 in
      let apart = others at rows filed.1 filed.2 in
      elim (Bool-cases (p t)) [
        | inl here ↦
            one_step true t (values rows) ((at, t) ∷ rows) here
            ∙ ap (sweep id p g (values rows)) (insert_here at t (g t) rows filed.0)
            ∙ sweep_past at (g t) (values rows) rows apart
            ∙ rw here (ap (λ m. (at, g t) ∷ m) rest)
        | inr other ↦
            one_step false t (values rows) ((at, t) ∷ rows) other
            ∙ sweep_past at t (values rows) rows apart
            ∙ rw other (ap (λ m. (at, t) ∷ m) rest)
      ]

  pub lookup-mapped :
      (key : String) (rows : Keyed V)
      → lookup key (mapped p g rows) ≡ Option.map (changed p g) (lookup key rows)
  unfolding lookup
  lookup-mapped key [] = refl
  lookup-mapped key ((at, t) ∷ rows) = ground (arith, lookup-mapped key rows)

  -- A change that keeps the identifiers keeps the filing.
  pub mapped-AreFiled :
      ((t : V) → id (g t) ≡ id t)
      → (rows : Keyed V) → AreFiled id rows
      → AreFiled id (mapped p g rows)
  mapped-AreFiled same [] filed = tt
  mapped-AreFiled same ((at, t) ∷ rows) filed = (
    ground (arith, same t, filed.0),
    ground (arith, lookup-mapped at rows, filed.1),
    mapped-AreFiled same rows filed.2,
  )

  -- Afterwards there is nothing left to change.
  pub mapped-settled :
      ((t : V) → p (g t) ≡ false)
      → (rows : Keyed V) → All (λ t. p t ≡ false) (values (mapped p g rows))
  mapped-settled settled [] = tt
  mapped-settled settled ((at, t) ∷ rows) = elim (Bool-cases (p t)) [
    | inl here ↦ (rw here (settled t), mapped-settled settled rows)
    | inr other ↦ (rw other other, mapped-settled settled rows)
  ]

-- What became of one value.
pub changed-at :
    {V : Type 0} (p : V → Bool) (g : V → V) (key : String) (rows : Keyed V) (t : V)
    → lookup key rows ≡ some t
    → p t ≡ true
    → Option.map (changed p g) (lookup key rows) ≡ some (g t)
changed-at p g key rows t found holds = rw (found, holds) refl

pub unchanged-at :
    {V : Type 0} (p : V → Bool) (g : V → V) (key : String) (rows : Keyed V) (t : V)
    → lookup key rows ≡ some t
    → p t ≡ false
    → Option.map (changed p g) (lookup key rows) ≡ some t
unchanged-at p g key rows t found fails = rw (found, fails) refl

pub refuted : (b : Bool) → (b ≡ true → ⊥) → b ≡ false
refuted true h = absurd (h refl)
refuted false h = refl

pub All-map :
    {V : Type 0} (P Q : V → Type 0) → ((t : V) → P t → Q t) → (ts : List V) → All P ts → All Q ts
All-map P Q f [] h = tt
All-map P Q f (t ∷ ts) h = (f t h.0, All-map P Q f ts h.1)
