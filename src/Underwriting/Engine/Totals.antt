-- ===== src/Underwriting/Engine/Totals.antt =====
-- Sums and searches over a keyed store, under the writes that the engine makes.
use agentic_freight_venue.Common.{
  ℕ, ◌+◌, ◌≡◌, refl, Bool, false, none, some, List, [], ◌∷◌, ◌++◌, String, string_eq, Keyed, lookup,
  insert, values, find, sum, arith,
}

module _ {ℓ} {V : Type ℓ} where
  pub sum-insert_old :
      (f : V → ℕ) (k : String) (v old : V) (m : Keyed V)
      → lookup k m ≡ some old
      → sum f (values (insert k v m)) + f old ≡ sum f (values m) + f v
  unfolding lookup insert
  sum-insert_old f k v old [] h = cc
  sum-insert_old f k v old ((j, w) ∷ m) h = grind (arith, sum-insert_old f k v old m)

  pub values-insert_new :
      (k : String) (v : V) (m : Keyed V)
      → lookup k m ≡ none
      → values (insert k v m) ≡ values m ++ v ∷ []
  unfolding lookup insert
  values-insert_new k v [] h = refl
  values-insert_new k v ((j, w) ∷ m) h = ground (arith, values-insert_new k v m)

  sum-append : (f : V → ℕ) (xs ys : List V) → sum f (xs ++ ys) ≡ sum f xs + sum f ys
  sum-append f [] ys = omega arith
  sum-append f (x ∷ xs) ys = omega (arith, sum-append f xs ys)

  pub sum-insert_new :
      (f : V → ℕ) (k : String) (v : V) (m : Keyed V)
      → lookup k m ≡ none
      → sum f (values (insert k v m)) ≡ sum f (values m) + f v
  sum-insert_new f k v m h =
      rw (values-insert_new k v m h) (omega (arith, sum-append f (values m) (v ∷ [])))

  -- What is not found in a store is not under any key of it.
  pub find-none :
      (p : V → Bool) (k : String) (v : V) (m : Keyed V)
      → find p (values m) ≡ none
      → lookup k m ≡ some v
      → p v ≡ false
  unfolding lookup
  find-none p k v [] h e = cc
  find-none p k v ((j, w) ∷ m) h e = ground (arith, find-none p k v m)

  -- What is not found after a write was not there before, if the write changed nothing that the
  -- search looks at.
  pub find-insert_old :
      (p : V → Bool) (k : String) (v old : V) (m : Keyed V)
      → lookup k m ≡ some old
      → p v ≡ p old
      → find p (values (insert k v m)) ≡ none
      → find p (values m) ≡ none
  unfolding lookup insert
  find-insert_old p k v old [] h e g = refl
  find-insert_old p k v old ((j, w) ∷ m) h e g = ground (arith, find-insert_old p k v old m)

  find-append :
      (p : V → Bool) (xs ys : List V)
      → find p (xs ++ ys) ≡ none
      → (find p xs ≡ none) × (find p ys ≡ none)
  find-append p [] ys h = (refl, h)
  find-append p (x ∷ xs) ys h = ground (arith, find-append p xs ys)

  pub find-insert_new :
      (p : V → Bool) (k : String) (v : V) (m : Keyed V)
      → lookup k m ≡ none
      → find p (values (insert k v m)) ≡ none
      → (find p (values m) ≡ none) × (p v ≡ false)
  find-insert_new p k v m h e =
      ground (arith, find-append p (values m) (v ∷ []), values-insert_new k v m h)
