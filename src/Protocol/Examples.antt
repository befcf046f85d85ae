-- ===== src/Protocol/Examples.antt =====
-- Primitives that can be computed: a hash is the text behind a letter, a signature is the key before
-- the text.
use Prim.Native.String
use agentic_freight_venue.Common.{◌≡◌, ◌≢◌, ap, Bool, true, false, String, string_eq, ◌==◌, ==_refl}
use agentic_freight_venue.Protocol.Canonical.{Primitives}

abbrev is_full : String → Bool
is_full String.[] = false
is_full (String.◌∷◌ _ _) = true

pub lettered_some : (s : String) → String.◌∷◌ "h" s ≢ ""
lettered_some s e = let full : true ≡ false = ap is_full e in cc full

abbrev pub toy : Primitives
toy = record {
  stringify = λ s. s;
  numeral = λ n. "7";
  dollars = λ n. "9";
  sha256_hex = λ s. String.◌∷◌ "h" s;
  sign = λ key hash. String.◌++◌ key hash;
  verify = λ key jws hash. jws == String.◌++◌ key hash;
  public_key = λ key. key;
  sha256_some = lettered_some;
  verify-sign = λ key hash. ==_refl (String.◌++◌ key hash);
}
