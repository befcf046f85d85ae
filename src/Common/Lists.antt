-- ===== src/Common/Lists.antt =====
-- Lists measured by native numbers, and JavaScript's array methods over Boolean tests.
use Prim.Native.Nat.{ℕ, suc, ◌+◌}
use mathlib.Core.Path.{◌≡◌, refl}
use mathlib.Core.Logic.{◌↔◌, ◌⊎◌}
use mathlib.Core.Bool.{Bool, true, false, ◌&&◌, ◌||◌}
use mathlib.Core.Option.{Option, none, some}
use mathlib.Core.List.{List, [], ◌∷◌, ◌++◌}
use native.Mathlib.Omega.{arith}
use agentic_freight_venue.Common.Tests.{Comparable, ◌==◌, ==_iff, if◌then◌else◌}

module _ {ℓ} {A : Type ℓ} where
  abbrev pub length : List A → ℕ
  length [] = 0
  length (x ∷ xs) = suc (length xs)

  -- `xs.filter(p)`
  abbrev pub keep : (A → Bool) → List A → List A
  keep p [] = []
  keep p (x ∷ xs) = if p x then x ∷ keep p xs else keep p xs

  -- `xs.find(p)`
  abbrev pub find : (A → Bool) → List A → Option A
  find p [] = none
  find p (x ∷ xs) = if p x then some x else find p xs

  -- `xs.some(p)`
  abbrev pub any : (A → Bool) → List A → Bool
  any p [] = false
  any p (x ∷ xs) = p x || any p xs

  -- `xs.every(p)`
  abbrev pub all : (A → Bool) → List A → Bool
  all p [] = true
  all p (x ∷ xs) = p x && all p xs

  pub length-append : (xs ys : List A) → length (xs ++ ys) ≡ length xs + length ys
  length-append [] ys = omega arith
  length-append (x ∷ xs) ys = omega (arith, length-append xs ys)

-- `xs.includes(a)`
abbrev pub includes {ℓ} : {A : Type ℓ} ⦃e : Comparable A⦄ → List A → A → Bool
includes [] a = false
includes (x ∷ xs) a = x == a || includes xs a

-- Membership as a statement, and the test that decides it.
abbrev pub Has : {A : Type 0} → A → List A → Type 0
Has a [] = ⊥
Has a (x ∷ xs) = (x ≡ a) ⊎ Has a xs

pub includes_iff :
    {A : Type 0} ⦃e : Comparable A⦄ (xs : List A) (a : A) → (includes xs a ≡ true) ↔ Has a xs
includes_iff [] a = ((λ h. cc), λ h. absurd h)
includes_iff (x ∷ xs) a = grind (arith, includes_iff xs a, ==_iff x a)

pub append-eq-nil_iff {ℓ} :
    {A : Type ℓ} (xs ys : List A) → (xs ++ ys ≡ []) ↔ ((xs ≡ []) × (ys ≡ []))
append-eq-nil_iff [] ys = ((λ h. (refl, h)), λ h. h.1)
append-eq-nil_iff (x ∷ xs) ys = ((λ h. cc), λ h. cc (h.0))

-- A list of numbers under `reduce((a, x) => a + x, 0)`.
abbrev pub sum {ℓ} : {A : Type ℓ} → (A → ℕ) → List A → ℕ
sum f [] = 0
sum f (x ∷ xs) = f x + sum f xs

-- A property of every element.
abbrev pub All {ℓ κ} : {A : Type ℓ} → (A → Type κ) → List A → Type κ
All P [] = Unit
All P (x ∷ xs) = P x × All P xs
