-- ===== src/Witness/Receipts/Times.antt =====
-- The k-th latest of some times.
use agentic_freight_venue.Common.{
  ℕ, ◌+◌, ◌-◌, ◌≤◌, ◌<◌, ◌≡◌, refl, some, List, [], ◌∷◌, string_eq, if◌then◌else◌, leb, nat_beq,
  length, arith, inl, inr, Bool-cases,
}
use agentic_freight_venue.Witness.Receipts.{insert_descending, descending, at_index}

-- How many are at a time or later.
abbrev pub since : ℕ → List ℕ → ℕ
since t [] = 0
since t (u ∷ us) = if leb t u then since t us + 1 else since t us

pub since-insert : (t u : ℕ) (us : List ℕ) → since t (insert_descending u us) ≡ since t (u ∷ us)
since-insert t u [] = refl
since-insert t u (w ∷ us) = ground (arith, since-insert t u us)

pub since-descending : (t : ℕ) (us : List ℕ) → since t (descending us) ≡ since t us
since-descending t [] = refl
since-descending t (u ∷ us) =
    ground (arith, since-insert t u (descending us), since-descending t us)

AreAtMost : ℕ → List ℕ → Type 0
AreAtMost u [] = Unit
AreAtMost u (w ∷ ws) = (w ≤ u) × AreAtMost u ws

pub IsDescending : List ℕ → Type 0
IsDescending [] = Unit
IsDescending (u ∷ us) = AreAtMost u us × IsDescending us

at_most_insert :
    (u t : ℕ) (us : List ℕ) → t ≤ u → AreAtMost u us → AreAtMost u (insert_descending t us)
unfolding AreAtMost
at_most_insert u t [] h k = (h, tt)
at_most_insert u t (w ∷ us) h k = elim (Bool-cases (leb w t)) [
  | inl goes ↦ rw goes (h, k)
  | inr stays ↦ rw stays (k.0, at_most_insert u t us h k.1)
]

at_most_widen : (u w : ℕ) (us : List ℕ) → u ≤ w → AreAtMost u us → AreAtMost w us
unfolding AreAtMost
at_most_widen u w [] h k = tt
at_most_widen u w (t ∷ us) h k = (omega (arith, k.0), at_most_widen u w us h k.1)

insert-IsDescending :
    (t : ℕ) (us : List ℕ) → IsDescending us → IsDescending (insert_descending t us)
unfolding IsDescending AreAtMost
insert-IsDescending t [] h = (tt, tt)
insert-IsDescending t (w ∷ us) h = elim (Bool-cases (leb w t)) [
  | inl goes ↦
      let w_t : w ≤ t = ground (arith, goes) in rw goes ((w_t, at_most_widen w t us w_t h.0), h)
  | inr stays ↦
      rw stays (at_most_insert w t us (ground (arith, stays)) h.0, insert-IsDescending t us h.1)
]

pub descending-IsDescending : (us : List ℕ) → IsDescending (descending us)
unfolding IsDescending
descending-IsDescending [] = tt
descending-IsDescending (u ∷ us) =
    insert-IsDescending u (descending us) (descending-IsDescending us)

at_most_found : (u t n : ℕ) (us : List ℕ) → AreAtMost u us → at_index n us ≡ some t → t ≤ u
unfolding AreAtMost
at_most_found u t n [] h e = cc e
at_most_found u t n (w ∷ us) h e = ground (arith, at_most_found u t (n - 1) us h.1)

pub enough_since :
    (us : List ℕ) (n t : ℕ) → IsDescending us → at_index n us ≡ some t → n + 1 ≤ since t us
unfolding IsDescending
enough_since [] n t h e = cc e
enough_since (u ∷ us) n t h e =
    ground (arith, enough_since us (n - 1) t h.1, at_most_found u t (n - 1) us h.0)

pub index_found : (us : List ℕ) (n : ℕ) → n < length us → (t : ℕ) × (at_index n us ≡ some t)
index_found [] n h = absurd (omega (arith, h))
index_found (u ∷ us) n h = elim (Bool-cases (nat_beq n 0)) [
  | inl here ↦ (u, rw here refl)
  | inr past ↦ let rest = index_found us (n - 1) (ground (arith, past)) in (rest.0, rw past rest.1)
]
