-- ===== src/Venue/Voiding/Recovery.antt =====
-- What a restart makes of a voiding that a crash interrupted.
use agentic_freight_venue.Common.{
  ℕ, ◌≡◌, refl, none, [], ◌∷◌, String, string_eq, ==_refl, Keyed, lookup, insert, arith,
}
use agentic_freight_venue.Protocol.Canonical.{Primitives}
use agentic_freight_venue.Venue.State.{CommitmentRecord, VoidJournal, Venue}
use agentic_freight_venue.Venue.Voiding.{
  without, apply_void, released_for, marked_void, outcome_noted, told_void,
}
use agentic_freight_venue.Venue.Voiding.Steps.{broker_released, books_released}

without-absent {ℓ} :
    {V : Type ℓ} (key : String) (rows : Keyed V) → lookup key rows ≡ none → without key rows ≡ rows
unfolding lookup
without-absent key [] h = refl
without-absent key ((at, value) ∷ rows) h = ground (arith, without-absent key rows)

pub without-insert {ℓ} :
    {V : Type ℓ} (key : String) (j : V) (rows : Keyed V)
    → lookup key rows ≡ none
    → without key (insert key j rows) ≡ rows
unfolding lookup insert
without-insert key j [] h = rw (==_refl key) refl
without-insert key j ((at, value) ∷ rows) h =
    ground (arith, without-insert key j rows, without-absent key rows)

module _ (x : Primitives) (signer : String) (iso : ℕ → String) where
  -- The venue as it was written when a crash cuts the application of a voiding short, from the venue with the
  -- journal and the entry on: after the engine's files, the broker's exposure book, the carrier's, the snapshot
  -- with the commitment, or the end.
  pub data Cut (j : VoidJournal) (c : CommitmentRecord) (now : ℕ) (e : Venue) : Venue → Type 0 where
    engine_written :
        Cut j c now e (record e { underwriting = released_for c.guarantee_id j now e.underwriting })
    broker_written : Cut j c now e (record e {
      underwriting = released_for c.guarantee_id j now e.underwriting;
      exposures = broker_released j c e.exposures;
    })
    carrier_written : Cut j c now e (record e {
      underwriting = released_for c.guarantee_id j now e.underwriting;
      exposures = books_released j c e.exposures;
    })
    snapshot_written : Cut j c now e (record e {
      underwriting = released_for c.guarantee_id j now e.underwriting;
      exposures = books_released j c e.exposures;
      commitments = insert j.commitment_id (marked_void j c) e.commitments;
      tasks = outcome_noted j c e.tasks;
      outbox = told_void j c e.outbox;
    })
    finished : Cut j c now e (apply_void j now e)
