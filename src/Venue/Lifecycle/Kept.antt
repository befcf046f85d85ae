-- ===== src/Venue/Lifecycle/Kept.antt =====
-- What reports keep true of the venue: its ledger verifies and its books agree.
use agentic_freight_venue.Common.{
  ℕ, ◌≡◌, Bool, true, false, Option, none, some, List, [], ◌∷◌, String, lookup, not, if◌then◌else◌,
  inl, inr, Option-cases,
}
use agentic_freight_venue.Protocol.Reasons.{claim_invalid, lifecycle_event_invalid}
use agentic_freight_venue.Protocol.Freight.{LifecycleEventType, dispute_opened, dispute_closed}
use agentic_freight_venue.Protocol.Canonical.{Primitives}
use agentic_freight_venue.Ledger.Chain.{verify_chain}
use agentic_freight_venue.Ledger.Chain.Appended.{append-verifies}
use agentic_freight_venue.Underwriting.Engine.{Underwriting, complete}
use agentic_freight_venue.Underwriting.Engine.Preserved.{IsAgreed, complete-IsAgreed}
use agentic_freight_venue.Underwriting.Settlement.{adjust_disputes}
use agentic_freight_venue.Venue.State.{CommitmentRecord, Venue}
use agentic_freight_venue.Venue.Lifecycle.{
  LifecycleReport, Recorded, refused, recorded, entered, record_lifecycle, noted_dispute,
}

dispute-IsAgreed :
    (e : LifecycleEventType) (usdot : String) (u : Underwriting)
    → IsAgreed u
    → IsAgreed (noted_dispute e usdot u)
unfolding adjust_disputes
dispute-IsAgreed dispute_opened usdot u h = h
dispute-IsAgreed dispute_closed usdot u h = h
dispute-IsAgreed _ usdot u h = h

completion-IsAgreed :
    (is_done : Bool) (guarantee : Option String) (ends now : ℕ) (u : Underwriting)
    → IsAgreed u
    → IsAgreed (if is_done then elim guarantee [ none ↦ u | some g ↦ complete g ends now u ] else u)
completion-IsAgreed true none ends now u h = h
completion-IsAgreed true (some g) ends now u h = complete-IsAgreed g ends now u h
completion-IsAgreed false guarantee ends now u h = h

module _ (x : Primitives) (signer : String) (iso : ℕ → String) where
  -- The ledger verifies under the venue's key, and the exposure books agree with the guarantees.
  pub record IsKept (v : Venue) : Type 0 where
    pub on_record : (verify_chain x (x.public_key signer) v.ledger).is_ok ≡ true
    pub in_books : IsAgreed v.underwriting

  entered-IsKept :
      (caller : String) (p : LifecycleReport) (now : ℕ) (c : CommitmentRecord) (v : Venue)
      → IsKept v
      → IsKept (entered x signer iso caller p now c v)
  unfolding entered
  entered-IsKept caller p now c v h = record {
    on_record = append-verifies x signer _ _ (iso now) v.ledger h.on_record;
    in_books =
        completion-IsAgreed _ c.guarantee_id c.delivery_window_end now
          (noted_dispute p.event c.carrier_usdot v.underwriting)
          (dispute-IsAgreed p.event c.carrier_usdot v.underwriting h.in_books);
  }

  abbrev pub venue_after : Venue → Recorded → Venue
  venue_after v (refused code) = v
  venue_after v (recorded v') = v'

  -- `recordLifecycle` for one report after another; a refused one changes nothing.
  unfoldable pub record_all : List (String × LifecycleReport × ℕ) → Venue → Venue
  record_all [] v = v
  record_all ((caller, p, now) ∷ rest) v =
      record_all rest (venue_after v (record_lifecycle x signer iso caller p now v))

  guarded-IsKept :
      (party role from : Bool) (v w : Venue)
      → IsKept v
      → IsKept w
      → IsKept (
          venue_after v (
            if not party
            then refused claim_invalid
            else if not role
            then refused lifecycle_event_invalid
            else if not from
            then refused lifecycle_event_invalid
            else recorded w))
  guarded-IsKept true true true v w h k = k
  guarded-IsKept true true false v w h k = h
  guarded-IsKept true false from v w h k = h
  guarded-IsKept false role from v w h k = h

  report-IsKept :
      (caller : String) (p : LifecycleReport) (now : ℕ) (v : Venue)
      → IsKept v
      → IsKept (venue_after v (record_lifecycle x signer iso caller p now v))
  unfolding record_lifecycle
  report-IsKept caller p now v h = elim (Option-cases (lookup p.commitment_id v.commitments)) [
    | inl unknown ↦ rw (unknown, venue_after) h
    | inr (c, found) ↦
        rw (found, venue_after)
          (guarded-IsKept _ _ _ v (entered x signer iso caller p now c v) h
            (entered-IsKept caller p now c v h))
  ]

  -- Whatever the parties report, in whatever order and whether it is recorded or refused, a ledger that
  -- verifies goes on verifying under the venue's key, and books that agree with the guarantees go on
  -- agreeing with them.
  pub record_all-IsKept :
      (reports : List (String × LifecycleReport × ℕ)) (v : Venue)
      → IsKept v
      → IsKept (record_all reports v)
  unfolding record_all
  record_all-IsKept [] v h = h
  record_all-IsKept ((caller, p, now) ∷ rest) v h =
      record_all-IsKept rest _ (report-IsKept caller p now v h)
