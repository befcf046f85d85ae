-- ===== src/Protocol/Canonical.antt =====
-- Canonical text and hashes: src/protocol/canonical.ts and src/protocol/ledger-hash.ts. What Node's
-- JSON and crypto do is a parameter. A value that is not defined stands only where the source lets one
-- stand, in an array or under a key; a number is natural or an amount of money, in cents. Keys are ordered by their characters,
-- which for ASCII keys is the source's order.
use Prim.Native.Nat.{Ordering}
use Prim.Native.String
use agentic_freight_venue.Common.{
  ℕ, ◌≡◌, ◌≢◌, Bool, true, false, List, [], ◌∷◌, String, if◌then◌else◌,
}

mutual
  pub data Json : Type 0 where
    null : Json
    string : String → Json
    number : ℕ → Json
    amount : ℕ → Json
    boolean : Bool → Json
    array : Items → Json
    object : Fields → Json

  pub data Items : Type 0 where
    no_items : Items
    item : Json → Items → Items
    undefined_item : Items → Items

  pub data Fields : Type 0 where
    no_fields : Fields
    field : String → Json → Fields → Fields
    undefined_field : String → Fields → Fields

-- Node's part: `JSON.stringify` of a text and of a number, SHA-256, and the signing of a text with a
-- private key, which the public key verifies. A hash is never empty.
pub record Primitives : Type 0 where
  pub stringify : String → String
  pub numeral : ℕ → String
  pub dollars : ℕ → String
  pub sha256_hex : String → String
  pub sign : String → String → String
  pub verify : String → String → String → Bool
  pub public_key : String → String
  pub sha256_some : (s : String) → sha256_hex s ≢ ""
  pub verify-sign : (key hash : String) → verify (public_key key) (sign key hash) hash ≡ true

abbrev pub joined : List String → String
joined [] = ""
joined (s ∷ []) = s
joined (s ∷ ss) = String.◌++◌ s (String.◌++◌ "," (joined ss))

abbrev sorts_before : String → String → Bool
sorts_before a b = elim (String.compare a b) [ Ordering.gt ↦ false | _ ↦ true ]

abbrev pub insert_sorted : String × String → List (String × String) → List (String × String)
insert_sorted f [] = f ∷ []
insert_sorted f (g ∷ gs) =
    let rest = insert_sorted f gs in if sorts_before f.0 g.0 then f ∷ g ∷ gs else g ∷ rest

abbrev pub sort_fields : List (String × String) → List (String × String)
sort_fields [] = []
sort_fields (f ∷ fs) = insert_sorted f (sort_fields fs)

module _ (x : Primitives) where
  abbrev pub members : List (String × String) → List String
  members [] = []
  members ((k, v) ∷ fs) = String.◌++◌ (x.stringify k) (String.◌++◌ ":" v) ∷ members fs

  unfoldable mutual
    pub canonicalize : Json → String
    canonicalize null = "null"
    canonicalize (string s) = x.stringify s
    canonicalize (number n) = x.numeral n
    canonicalize (amount cents) = x.dollars cents
    canonicalize (boolean b) = if b then "true" else "false"
    canonicalize (array is) = String.◌++◌ "[" (String.◌++◌ (joined (canonical_items is)) "]")
    canonicalize (object fs) =
        String.◌++◌ "{" (String.◌++◌ (joined (members (sort_fields (canonical_fields fs)))) "}")

    pub canonical_items : Items → List String
    canonical_items no_items = []
    canonical_items (item v is) = canonicalize v ∷ canonical_items is
    canonical_items (undefined_item is) = "null" ∷ canonical_items is

    pub canonical_fields : Fields → List (String × String)
    canonical_fields no_fields = []
    canonical_fields (field k v fs) = (k, canonicalize v) ∷ canonical_fields fs
    canonical_fields (undefined_field k fs) = canonical_fields fs

  unfoldable pub hash_object : Json → String
  hash_object v = x.sha256_hex (canonicalize v)
