-- ===== src/Common/Records.antt =====
-- A JavaScript `Record<string, V>` or `Map<string, V>`, in insertion order.
use Prim.Native.String.{String}
use mathlib.Core.Path.{◌≡◌, refl}
use mathlib.Core.Logic.{◌≢◌}
use mathlib.Core.Option.{Option, none, some}
use mathlib.Core.List.{List, [], ◌∷◌}
use native.Mathlib.Omega.{arith}
use text.Mathlib.TextEquality.{eq_iff}
use agentic_freight_venue.Common.Tests.{◌==◌, string_eq, if◌then◌else◌, ==_refl}

abbrev pub Keyed {ℓ} : Type ℓ → Type ℓ
Keyed V = List (String × V)

module _ {ℓ} {V : Type ℓ} where
  -- `[...m.values()]`
  abbrev pub values : Keyed V → List V
  values [] = []
  values ((_, value) ∷ rows) = value ∷ values rows

  -- `m[key]`, `m.get(key)`
  unfoldable pub lookup : String → Keyed V → Option V
  lookup key [] = none
  lookup key ((at, value) ∷ rows) = if at == key then some value else lookup key rows

  -- `m[key] = v`, `m.set(key, v)`: in place where the key is present, at the end where it is not.
  unfoldable pub insert : String → V → Keyed V → Keyed V
  insert key new [] = (key, new) ∷ []
  insert key new ((at, value) ∷ rows) =
      if at == key then (at, new) ∷ rows else (at, value) ∷ insert key new rows

  pub lookup-insert :
      (key other : String) (new : V) (rows : Keyed V)
      → lookup other (insert key new rows) ≡ (if key == other then some new else lookup other rows)
  unfolding lookup insert
  lookup-insert key other new [] = refl
  lookup-insert key other new ((at, _) ∷ rows) =
      ground
        (arith, lookup-insert key other new rows, eq_iff at other, eq_iff at key, eq_iff key other)

  pub lookup-insert_self :
      (key : String) (new : V) (rows : Keyed V) → lookup key (insert key new rows) ≡ some new
  lookup-insert_self key new rows = ground (arith, lookup-insert key key new rows, ==_refl key)

  pub lookup-insert_ne :
      (key other : String) (new : V) (rows : Keyed V)
      → key ≢ other
      → lookup other (insert key new rows) ≡ lookup other rows
  lookup-insert_ne key other new rows ne =
      ground (arith, eq_iff key other, lookup-insert key other new rows)

  -- Writing back what is there changes nothing.
  pub insert_same :
      (key : String) (value : V) (rows : Keyed V)
      → lookup key rows ≡ some value
      → insert key value rows ≡ rows
  unfolding lookup insert
  insert_same key value [] found = cc found
  insert_same key value ((at, old) ∷ rows) found = ground (arith, insert_same key value rows)
