-- ===== src/Ledger/Chain/Appended.antt =====
-- What the venue appends verifies.
use agentic_freight_venue.Common.{
  ℕ, ◌≡◌, refl, ◌↔◌, true, List, [], ◌∷◌, ◌++◌, String, string_eq, ==_iff, length, arith,
}
use agentic_freight_venue.Protocol.Canonical.{Json, Primitives}
use agentic_freight_venue.Ledger.Chain.{
  LedgerEntryType, genesis, LedgerEntry, genesis_hash, head_hash, entry_hash, new_entry, append,
  opened, verify_entries, verify_chain,
}

module _ (x : Primitives) where
  -- One entry is sound after a given hash.
  abbrev pub IsSound : String → String → LedgerEntry → Type 0
  IsSound key prev e =
      (e.content.prev_hash ≡ prev)
      × (entry_hash x e.content ≡ e.hash)
      × (x.verify key e.venue_sig e.hash ≡ true)

  abbrev pub AreLinked : String → String → List LedgerEntry → Type 0
  AreLinked key prev [] = Unit
  AreLinked key prev (e ∷ es) = IsSound key prev e × AreLinked key e.hash es

  pub entries-IsOk_iff :
      (key : String) (n : ℕ) (prev : String) (es : List LedgerEntry)
      → ((verify_entries x key n prev es).is_ok ≡ true) ↔ AreLinked key prev es
  unfolding verify_entries
  entries-IsOk_iff key n prev [] = ((λ h. tt), λ h. refl)
  entries-IsOk_iff key n prev (e ∷ es) = ground (
    arith,
    ==_iff e.content.prev_hash prev,
    ==_iff (entry_hash x e.content) e.hash,
    entries-IsOk_iff key n e.hash es,
  )

  append-AreLinked :
      (key prev : String) (es : List LedgerEntry) (e : LedgerEntry)
      → AreLinked key prev es
      → IsSound key (head_hash prev es) e
      → AreLinked key prev (es ++ (e ∷ []))
  append-AreLinked key prev [] e h s = (s, tt)
  append-AreLinked key prev (d ∷ es) e h s = (h.0, append-AreLinked key d.hash es e h.1 s)

  -- An entry that the venue's signer appends to a ledger that verifies leaves a ledger that verifies.
  pub append-verifies :
      (signer : String) (entry_type : LedgerEntryType) (payload : Json) (now : String)
      (es : List LedgerEntry)
      → (verify_chain x (x.public_key signer) es).is_ok ≡ true
      → (verify_chain x (x.public_key signer) (append x signer entry_type payload now es).1).is_ok
        ≡ true
  unfolding verify_chain append new_entry
  append-verifies signer entry_type payload now es h =
      let key = x.public_key signer in
      let e = new_entry x signer entry_type payload now es in
      (entries-IsOk_iff key (length (es ++ (e ∷ []))) genesis_hash (es ++ (e ∷ []))).1 (
        append-AreLinked key genesis_hash es e
          ((entries-IsOk_iff key (length es) genesis_hash es).0 h)
          (refl, refl, x.verify-sign signer (entry_hash x e.content)))

  -- Appending in turn what is given, all by one signer.
  unfoldable pub append_all :
      String → List (LedgerEntryType × Json × String) → List LedgerEntry → List LedgerEntry
  append_all signer [] es = es
  append_all signer ((entry_type, payload, now) ∷ rest) es =
      append_all signer rest (append x signer entry_type payload now es).1

  all_verify :
      (signer : String) (calls : List (LedgerEntryType × Json × String)) (es : List LedgerEntry)
      → (verify_chain x (x.public_key signer) es).is_ok ≡ true
      → (verify_chain x (x.public_key signer) (append_all signer calls es)).is_ok ≡ true
  unfolding append_all
  all_verify signer [] es h = h
  all_verify signer ((entry_type, payload, now) ∷ rest) es h =
      all_verify signer rest (append x signer entry_type payload now es).1
        (append-verifies signer entry_type payload now es h)

  -- A ledger that is opened over an empty file and appended to any number of times by one signer
  -- verifies under that signer's public key.
  pub append_all-verifies :
      (signer : String) (first : Json) (now : String)
      (calls : List (LedgerEntryType × Json × String))
      → (verify_chain x
          (x.public_key signer)
          (append_all signer calls (opened x signer first now []))).is_ok
        ≡ true
  unfolding opened
  append_all-verifies signer first now calls =
      all_verify signer calls (append x signer genesis first now []).1
        (append-verifies signer genesis first now [] (unfold verify_chain verify_entries in refl))
