-- ===== src/Mandate/Exposure/Once.antt =====
-- A reference is applied once: what the `once` guard of the exposure book promises.
use Prim.Native.Char.{code}
use Prim.Native.String
use Prim.Native.String.append
use text.Mathlib.TextEquality.{eq_iff}
use agentic_freight_venue.Common.{
  ℕ, ◌≡◌, refl, ◌≢◌, ap, true, false, ◌||◌, some, List, [], ◌∷◌, ◌++◌, String, string_eq,
  Comparable, ◌==◌, ==_refl, includes, arith,
}
use agentic_freight_venue.Mandate.Exposure.{
  ExposureBook, tagged, once, if_new, charge, discharge, add, release,
}

pub includes-append {ℓ} :
    {A : Type ℓ} ⦃e : Comparable A⦄ (xs ys : List A) (a : A)
    → includes (xs ++ ys) a ≡ (includes xs a || includes ys a)
includes-append [] ys a = refl
includes-append (x ∷ xs) ys a = ground (arith, includes-append xs ys a)

pub includes-concat :
    (xs : List String) (k j : String) → includes (xs ++ k ∷ []) j ≡ (includes xs j || k == j)
includes-concat xs k j = ground (arith, includes-append xs (k ∷ []) j)

first_code : String → ℕ
first_code String.[] = 0
first_code (String.◌∷◌ c s) = code c

head-add : (r : String) → first_code (String.◌++◌ "add:" r) ≡ b'a'
unfolding first_code
head-add r = ap first_code (append.cons "a" "dd:" r)

head-release : (r : String) → first_code (String.◌++◌ "release:" r) ≡ b'r'
unfolding first_code
head-release r = ap first_code (append.cons "r" "elease:" r)

-- The keys of a charge and of a release never meet.
pub add-ne-release : (r s : String) → String.◌++◌ "add:" r ≢ String.◌++◌ "release:" s
add-ne-release r s e = omega (arith, ap first_code e, head-add r, head-release s)

pub tagged-some : (tag ref : String) → ref ≢ "" → tagged tag (some ref) ≡ some (String.◌++◌ tag ref)
tagged-some tag ref h = ground (arith, eq_iff ref "")

pub once_noted :
    (key : String) (b : ExposureBook) → includes (once (some key) b).1.applied key ≡ true
unfolding once
once_noted key b = ground (arith, includes-concat b.applied key key, ==_refl key)

once_seen :
    (key : String) (b : ExposureBook)
    → includes b.applied key ≡ true
    → once (some key) b ≡ (false, b)
unfolding once
once_seen key b h = ground arith

pub charge-applied :
    (cp day : String) (a : ℕ) (b : ExposureBook) → (charge cp a day b).applied ≡ b.applied
unfolding charge
charge-applied cp day a b = refl

pub discharge-applied :
    (cp day : String) (a : ℕ) (b : ExposureBook) → (discharge cp a day b).applied ≡ b.applied
unfolding discharge
discharge-applied cp day a b = refl

-- A body that leaves the applied keys alone runs once under a key.
if_new_twice :
    (key : String) (f g : ExposureBook → ExposureBook) (b : ExposureBook)
    → ((c : ExposureBook) → (f c).applied ≡ c.applied)
    → if_new (some key) g (if_new (some key) f b) ≡ if_new (some key) f b
if_new_twice key f g b same = rw (
    once_seen key (if_new (some key) f b)
      (ground (arith, once_noted key b, same (once (some key) b).1)))

-- A charge under a reference is applied once: whatever a second `add` under that reference asks
-- for, it changes nothing.
pub add_twice :
    (ref cp cp' day day' : String) (a a' : ℕ) (b : ExposureBook)
    → ref ≢ ""
    → add cp' a' day' (some ref) (add cp a day (some ref) b) ≡ add cp a day (some ref) b
unfolding add
add_twice ref cp cp' day day' a a' b h =
    rw (tagged-some "add:" ref h)
      (if_new_twice _ (charge cp a day) (charge cp' a' day') b (charge-applied cp day a))

-- A release under a reference is applied once: whatever a second `release` under that reference
-- asks for, it changes nothing.
pub release_twice :
    (ref cp cp' day day' : String) (a a' : ℕ) (b : ExposureBook)
    → ref ≢ ""
    → release cp' a' day' (some ref) (release cp a day (some ref) b) ≡ release cp a day (some ref) b
unfolding release
release_twice ref cp cp' day day' a a' b h =
    rw (tagged-some "release:" ref h)
      (if_new_twice _ (discharge cp a day) (discharge cp' a' day') b (discharge-applied cp day a))
