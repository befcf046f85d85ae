-- ===== src/Ledger/Chain/Tampering.antt =====
-- What a ledger that verifies cannot hide.
use agentic_freight_venue.Common.{
  ◌≡◌, refl, ap, sym, ◌∙◌, true, List, [], ◌∷◌, String, length, arith, map,
}
use agentic_freight_venue.Protocol.Canonical.{Primitives}
use agentic_freight_venue.Ledger.Chain.{
  LedgerEntry, genesis_hash, head_hash, entry_hash, verify_chain,
}
use agentic_freight_venue.Ledger.Chain.Appended.{AreLinked, entries-IsOk_iff}

module _ (x : Primitives) where
  -- The hash tells apart whatever the two ledgers hold at one place.
  abbrev pub TellsApart : List LedgerEntry → List LedgerEntry → Type 0
  TellsApart [] fs = Unit
  TellsApart (e ∷ es) [] = Unit
  TellsApart (e ∷ es) (f ∷ fs) =
      (entry_hash x e.content ≡ entry_hash x f.content → e.content ≡ f.content) × TellsApart es fs

  agree :
      (key other prev before : String) (es fs : List LedgerEntry)
      → TellsApart es fs
      → AreLinked x key prev es
      → AreLinked x other before fs
      → length es ≡ length fs
      → head_hash prev es ≡ head_hash before fs
      → (prev ≡ before) × (map (λ e. e.content) es ≡ map (λ e. e.content) fs)
  agree key other prev before [] [] t h k n eq = (eq, refl)
  agree key other prev before [] (f ∷ fs) t h k n eq = absurd (omega (arith, n))
  agree key other prev before (e ∷ es) [] t h k n eq = absurd (omega (arith, n))
  agree key other prev before (e ∷ es) (f ∷ fs) t h k n eq =
      let rest = agree key other e.hash f.hash es fs t.1 h.1 k.1 (omega (arith, n)) eq in
      let same : e.content ≡ f.content = t.0 (h.0.1 ∙ rest.0 ∙ sym k.0.1) in
      (sym h.0.0 ∙ ap (λ c. c.prev_hash) same ∙ k.0.0, cc (same, rest.1))

  -- Two ledgers of the same length that verify, each under a key of its own, and end in the same head
  -- hash hold the same entries, where the hash tells apart what they hold at each place: nothing was
  -- altered, inserted or removed behind a head that is known.
  pub heads-agree :
      (key other : String) (es fs : List LedgerEntry)
      → TellsApart es fs
      → (verify_chain x key es).is_ok ≡ true
      → (verify_chain x other fs).is_ok ≡ true
      → length es ≡ length fs
      → head_hash genesis_hash es ≡ head_hash genesis_hash fs
      → map (λ e. e.content) es ≡ map (λ e. e.content) fs
  unfolding verify_chain
  heads-agree key other es fs t h k n eq =
      (agree key other genesis_hash genesis_hash es fs t
        ((entries-IsOk_iff x key (length es) genesis_hash es).0 h)
        ((entries-IsOk_iff x other (length fs) genesis_hash fs).0 k) n eq).1
